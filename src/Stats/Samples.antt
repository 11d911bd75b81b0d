-- ===== src/Stats/Samples.antt =====
-- A block for the counters (src/lib/stats/stat.h), as `malloc` may hand it back.
use linfo1341_project.Stats.{Logger}

abbrev pub fresh : Logger
fresh = record {
  activated = 3;
  data_sent = 3;
  data_received = 3;
  data_truncated_received = 3;
  ack_sent = 3;
  ack_received = 3;
  nack_sent = 3;
  nack_received = 3;
  packet_ignored = 3;
  is_sender = 3;
  min_rtt = 3;
  max_rtt = 3;
  packet_retransmitted = 3;
  packet_duplicated = 3;
}
