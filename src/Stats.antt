-- ===== src/Stats.antt =====
-- src/lib/stats/stat.c: the counters of a run. A field is the bit pattern of an `int`; the counters
-- of a logger that is not activated are what `malloc` left there.
pub mod Report
pub mod Totals
pub mod Samples
mod Tests
use Prim.Native.String.{String}
use linfo1341_project.Common.{
  ℕ, ◌+◌, ◌%◌, ◌^◌, Bool, true, false, List, [], ◌∷◌, ◌++◌, ltb, ◌==◌, if◌then◌else◌,
}

-- `struct stat`. `fd` is only tested for NULL, when the logger is made.
pub record Logger : Type 0 where
  pub activated : ℕ
  pub data_sent : ℕ
  pub data_received : ℕ
  pub data_truncated_received : ℕ
  pub ack_sent : ℕ
  pub ack_received : ℕ
  pub nack_sent : ℕ
  pub nack_received : ℕ
  pub packet_ignored : ℕ
  pub is_sender : ℕ
  pub min_rtt : ℕ
  pub max_rtt : ℕ
  pub packet_retransmitted : ℕ
  pub packet_duplicated : ℕ

-- `left < right` on the integers that two bit patterns stand for
abbrev pub int_lt : ℕ → ℕ → Bool
int_lt left right = ltb ((left + 2 ^ 31) % 2 ^ 32) ((right + 2 ^ 31) % 2 ^ 32)

abbrev increment : ℕ → ℕ
increment n = (n + 1) % 2 ^ 32

-- `has_file` says that `fd` is not NULL, and `fresh` is the block that `malloc` hands back.
unfoldable pub new_logger : (is_sender : ℕ) (has_file : Bool) (fresh : Logger) → Logger
new_logger is_sender false fresh = record fresh { activated = 0 }
new_logger is_sender true fresh =
    let cleared = record fresh {
      activated = 1;
      data_sent = 0;
      data_received = 0;
      data_truncated_received = 0;
      ack_sent = 0;
      ack_received = 0;
      nack_sent = 0;
      nack_received = 0;
      packet_ignored = 0;
      is_sender = is_sender;
    } in
    if is_sender == 1
    then record cleared { min_rtt = 2147483647; max_rtt = 0; packet_retransmitted = 0 }
    else record cleared { packet_duplicated = 0 }

-- The lines that `write_in_file` prints, as names and numbers
unfoldable pub write_in_file : Logger → List (String × ℕ)
write_in_file l =
    ("data_sent", l.data_sent)
    ∷ ("data_received", l.data_received)
    ∷ ("data_truncated_received", l.data_truncated_received)
    ∷ ("ack_sent", l.ack_sent)
    ∷ ("ack_received", l.ack_received)
    ∷ ("nack_sent", l.nack_sent)
    ∷ ("nack_received", l.nack_received)
    ∷ ("packet_ignored", l.packet_ignored)
    ∷ (if l.is_sender == 1
        then ("min_rtt", l.min_rtt)
          ∷ ("max_rtt", l.max_rtt)
          ∷ ("packet_retransmitted", l.packet_retransmitted)
          ∷ []
        else ("packet_duplicated", l.packet_duplicated) ∷ [])

-- What reaches the file when the logger is freed
unfoldable pub remove_logger : Logger → List (String × ℕ)
remove_logger l = if l.activated == 1 then write_in_file l else []

unfoldable pub add_data_sent : Logger → Logger
add_data_sent l = if l.activated == 1 then record l { data_sent = increment l.data_sent } else l

unfoldable pub add_data_received : Logger → Logger
add_data_received l =
    if l.activated == 1 then record l { data_received = increment l.data_received } else l

unfoldable pub add_data_truncated_received : Logger → Logger
add_data_truncated_received l =
    if l.activated == 1
    then record l { data_truncated_received = increment l.data_truncated_received }
    else l

unfoldable pub add_ack_sent : Logger → Logger
add_ack_sent l = if l.activated == 1 then record l { ack_sent = increment l.ack_sent } else l

unfoldable pub add_ack_received : Logger → Logger
add_ack_received l =
    if l.activated == 1 then record l { ack_received = increment l.ack_received } else l

unfoldable pub add_nack_sent : Logger → Logger
add_nack_sent l = if l.activated == 1 then record l { nack_sent = increment l.nack_sent } else l

unfoldable pub add_nack_received : Logger → Logger
add_nack_received l =
    if l.activated == 1 then record l { nack_received = increment l.nack_received } else l

unfoldable pub add_packet_ignored : Logger → Logger
add_packet_ignored l =
    if l.activated == 1 then record l { packet_ignored = increment l.packet_ignored } else l

unfoldable pub new_rtt : Logger → ℕ → Logger
new_rtt l rtt =
    if l.activated == 1
    then (if l.is_sender == 1
        then record l {
          min_rtt = if int_lt rtt l.min_rtt then rtt else l.min_rtt;
          max_rtt = if int_lt l.max_rtt rtt then rtt else l.max_rtt;
        }
        else l)
    else l

unfoldable pub add_packet_retransmitted : Logger → Logger
add_packet_retransmitted l =
    if l.activated == 1
    then (if l.is_sender == 1
        then record l { packet_retransmitted = increment l.packet_retransmitted }
        else l)
    else l

unfoldable pub add_packet_duplicated : Logger → Logger
add_packet_duplicated l =
    if l.activated == 1
    then (if l.is_sender == 0
        then record l { packet_duplicated = increment l.packet_duplicated }
        else l)
    else l
