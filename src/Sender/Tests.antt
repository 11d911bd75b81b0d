-- ===== src/Sender/Tests.antt =====
-- Rounds of src/lib/send_data/read_write_loop_sender.c with one packet in the window.
use linfo1341_project.Common.{
  ◌≡◌, ℕ, ◌-◌, ◌^◌, ◌+◌, ◌-◌, ◌%◌, inr, length, refl, true, false, List, [], ◌∷◌, ◌++◌, arith,
  replicate, Returns,
}
use linfo1341_project.Segment.{Pkt}
use linfo1341_project.Segment.Samples.{
  sum_zlib, greeting, hello, dirty, dirty-IsPkt, hello-IsCoherent,
}
use linfo1341_project.Queue.Samples.{one, one-Holds}
use linfo1341_project.Stats.Samples.{fresh}
use linfo1341_project.Receiver.Stream.{Carries}
use linfo1341_project.Sender.{Sender, Round, ack_loop, on_ack, on_input}
use linfo1341_project.Sender.Window.{InFlight, Sending, Reads, Sent, on_input_sends}
use linfo1341_project.Sender.Clock.{
  create_first_timestamp, current_timestamp, current_timestamp_lem,
}
use linfo1341_project.Sender.{before}
use linfo1341_project.Sender.Loop.{check_timers, step}
use linfo1341_project.Sender.Kept.{Ready, Kept}
use linfo1341_project.Sender.Resend.{check_timers_returns}
use linfo1341_project.Sender.Failing.{Outcomes, step-Outcomes}
use linfo1341_project.Sender.Fresh.{SendsFirst}
use linfo1341_project.Sender.Timer.{check_timers-resends}
use linfo1341_project.Sender.Cumulative.{length-remaining}
use linfo1341_project.Sender.Acked.{remaining, Removed, ack_loop_lem, AckedTo, on_ack_removes}

-- Every chunk is the same five bytes.
abbrev stream : ℕ → List ℕ
stream n = greeting

hello-Carries : Carries stream 0x7b hello
hello-Carries = record {
  is_data = refl;
  whole = refl;
  numbered = refl;
  sized = refl;
  some_bytes = omega arith;
  fits = omega arith;
  array = refl;
  bytes = refl;
}

abbrev waiting : Sender
waiting = record {
  window = one;
  payload_buffer = replicate 512 0;
  pkt_buffer = replicate 528 0;
  nb = 5;
  seqnum = 0x7c;
  pkt_in_window = 1;
  sending_window_size = 4;
  logger = fresh;
}

waiting-Sending : Sending stream 0x7b (hello ∷ []) waiting
unfolding InFlight
waiting-Sending = record {
  holds = one-Holds;
  counted = refl;
  open_window = omega arith;
  room = refl;
  numbered = refl;
  in_flight = (hello-Carries, hello-IsCoherent, tt);
}

abbrev round : Round
round = record {
  pollresp = 1;
  input_ready = true;
  socket_ready = false;
  input_nb = 5;
  input_buffer = greeting ++ replicate 507 1;
  socket_nb = 0;
  socket_buffer = [];
  data_block = dirty;
  socket_block = dirty;
  close_block = dirty;
  send_result = 21;
  data_time = 40;
  rtt_time = 50;
  nack_time = 60;
  clock_time = 70;
  resend_time = λ k. 80 + k;
  close_time = 90;
}

round-Reads : Reads stream (0x7b + 1) round
round-Reads = record {
  sized = refl;
  some_bytes = omega arith;
  fits = omega arith;
  array = refl;
  bytes = refl;
}

on_input_sends_example :
    Returns (Sent stream sum_zlib 0x7b (hello ∷ [])) (on_input sum_zlib round waiting)
on_input_sends_example =
    on_input_sends stream sum_zlib round 0x7b (hello ∷ []) waiting waiting-Sending dirty-IsPkt
      round-Reads refl (omega arith) (omega arith)

ack_loop_lem_example : Returns (Removed 0x7b (hello ∷ []) false) (ack_loop 32 0x7b one 1 false)
ack_loop_lem_example = ack_loop_lem 32 0x7b one (hello ∷ []) 1 false one-Holds refl (omega arith)

abbrev ack : Pkt
ack = record dirty { type = 2; tr = 0; window = 31; length = 0; seqnum = 0x7c }

on_ack_removes_example :
    Returns (AckedTo stream 0x7b (hello ∷ []) ack) (on_ack sum_zlib round ack waiting)
on_ack_removes_example =
    on_ack_removes stream sum_zlib round 0x7b (hello ∷ []) waiting ack waiting-Sending (omega arith)

current_timestamp_lem_example :
    current_timestamp 1614769202 250000 (create_first_timestamp 1614769200 500000) ≡ 1750
unfolding create_first_timestamp
current_timestamp_lem_example =
    current_timestamp_lem 1614769200 500000 1614769202 250000 (omega arith) (omega arith)

waiting-Ready : Ready stream sum_zlib 0x7b 0x7b 0x7c waiting
waiting-Ready = record {
  base = 0x7b;
  xs = hello ∷ [];
  sending = waiting-Sending;
  from = omega arith;
  upto = omega arith;
  total = refl;
}

-- The chunk is read, and `send` gives -1.
abbrev fails : Round
fails = record round { send_result = 2 ^ 32 - 1 }

fails-Reads : Reads stream 0x7c fails
fails-Reads = record {
  sized = refl;
  some_bytes = omega arith;
  fits = omega arith;
  array = refl;
  bytes = refl;
}

step-Outcomes_example :
    Returns (Outcomes stream sum_zlib fails 0x7b 0x7b 0x7c waiting) (step sum_zlib fails waiting)
step-Outcomes_example =
    step-Outcomes stream sum_zlib fails 0x7b 0x7b 0x7c waiting (omega arith) dirty-IsPkt
      (λ ready. cc ready) waiting-Ready
      (record { block_ok = dirty-IsPkt; input = λ _. inr fails-Reads }) (omega arith)

check_timers_returns_example :
    Returns (Kept stream sum_zlib 0x7b 0x7b 0x7c) (check_timers sum_zlib round waiting)
check_timers_returns_example =
    check_timers_returns stream sum_zlib round 0x7b 0x7c waiting waiting-Ready

flight : InFlight stream 0x7b (hello ∷ [])
unfolding InFlight
flight = (hello-Carries, hello-IsCoherent, tt)

length-remaining_example :
    length (remaining (before (0x7c % 256)) (hello ∷ [])) ≡ length (hello ∷ []) - (0x7c - 0x7b)
length-remaining_example =
    length-remaining stream 0x7c 0x7b (hello ∷ []) flight (omega arith) (omega arith) (omega arith)

-- The time of the packet has come: 0x17 + 60 is less than 100.
abbrev late_round : Round
late_round = record round { clock_time = 100 }

check_timers-resends_example :
    Returns (SendsFirst stream sum_zlib 0x7b) (check_timers sum_zlib late_round waiting)
check_timers-resends_example =
    check_timers-resends stream sum_zlib late_round 0x7b hello [] waiting waiting-Sending
      (omega arith)
