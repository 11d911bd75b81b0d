-- ===== src/Net/Tests.antt =====
-- A transfer with src/lib/send_data/read_write_loop_sender.c and
-- src/lib/send_data/read_write_loop_server.c of which the first chunk is read.
use linfo1341_project.Common.{
  ℕ, ◌+◌, ◌≤◌, ◌<◌, ◌≡◌, inl, inr, refl, true, false, some, none, List, [], ◌++◌, arith, length,
  replicate,
}
use linfo1341_project.Segment.Samples.{sum_zlib, greeting, dirty, dirty-IsPkt}
use linfo1341_project.SortedList.{Pstl}
use linfo1341_project.Stats.{remove_logger}
use linfo1341_project.Stats.Samples.{fresh}
use linfo1341_project.Sender
use linfo1341_project.Sender.Loop
use linfo1341_project.Sender.Whole.{Feeds, chunks_read}
use linfo1341_project.Receiver
use linfo1341_project.Receiver.{Action, sent_by}
use linfo1341_project.Receiver.Any.{Passes, Allocates}
use linfo1341_project.Net.{
  System, stamped, Setup, begin, SenderTurn, ReceiverTurn, quiet, Step, sender_turn, Reach, here,
  later,
}
use linfo1341_project.Net.Sound.{chunks}
use linfo1341_project.Net.Delivery.{
  Reach-in_order, Reach-complete, sender-goes_on, receiver-goes_on,
}
use linfo1341_project.Net.Progress.{silent-Succeeds, OnLink, Reach-advances}
use linfo1341_project.Net.Finish.{Blocks, Completes, Reach-finishes}
use linfo1341_project.Net.Counters.{
  Counters, Occurs, at_start, takes, sender_takes, receiver_takes, Occurs-Counters,
}

-- Every chunk is the same five bytes.
abbrev stream : ℕ → List ℕ
stream n = greeting

abbrev setup : Setup
setup = record {
  payload_buffer = replicate 512 0;
  pkt_buffer = replicate 528 0;
  pkt_room = refl;
  sender_logger = fresh;
  sender_has_file = true;
  window = replicate 31 none;
  ack_buffer = replicate 10 0;
  ack_room = refl;
  block = dirty;
  block_ok = dirty-IsPkt;
  receiver_logger = fresh;
  receiver_has_file = true;
}

abbrev sender_start : Sender.Sender
sender_start = Sender.start (replicate 512 0) (replicate 528 0) true fresh

abbrev receiver_start : Receiver.Receiver
receiver_start = Receiver.start (replicate 31 none) (replicate 10 0) dirty true fresh

-- The input is ready, and the socket is not.
abbrev reads : Sender.Round
reads = record {
  pollresp = 1;
  input_ready = true;
  socket_ready = false;
  input_nb = 5;
  input_buffer = greeting ++ replicate 507 1;
  socket_nb = 0;
  socket_buffer = [];
  data_block = dirty;
  socket_block = dirty;
  close_block = dirty;
  send_result = 21;
  data_time = 40;
  rtt_time = 50;
  nack_time = 60;
  clock_time = 70;
  resend_time = λ k. 80 + k;
  close_time = 90;
}

reads-Feeds : Feeds stream 0 reads
reads-Feeds = record {
  block_ok = dirty-IsPkt;
  sends = omega arith;
  input = λ _. inr (record {
    sized = refl;
    some_bytes = omega arith;
    fits = omega arith;
    array = refl;
    bytes = refl;
  });
}

reads-SenderTurn : SenderTurn stream sum_zlib (begin setup) reads
unfolding begin
reads-SenderTurn = record {
  polled = omega arith;
  feeds = reads-Feeds;
  close_ok = dirty-IsPkt;
  listens = λ ready. cc ready;
}

begin-sender : (begin setup).sender ≡ Sender.running sender_start
unfolding begin
begin-sender = refl

begin-receiver : (begin setup).receiver ≡ Receiver.running receiver_start
unfolding begin
begin-receiver = refl

sender-goes_on_example :
    (t : System) × Reach stream sum_zlib setup t
    × (t.total_read ≡ (begin setup).total_read + chunks_read stream sum_zlib reads sender_start)
    × ((out : List (List ℕ) × Sender.Outcome) × (Sender.Loop.step sum_zlib reads sender_start
          ≡ some out)
        × (t.sender ≡ out.1))
sender-goes_on_example =
    sender-goes_on stream sum_zlib setup refl (begin setup) sender_start reads here begin-sender
      reads-SenderTurn

abbrev after : Sender.Round → List (List ℕ) × Sender.Outcome → System
after round out = record (begin setup) {
  sender = out.1;
  total_read = (begin setup).total_read + chunks_read stream sum_zlib round sender_start;
  outbound = stamped (length (begin setup).written) (out.0) ++ (begin setup).outbound;
}

-- The first chunk is read.
read_run :
    (out : List (List ℕ) × Sender.Outcome) × (Sender.Loop.step sum_zlib reads sender_start
      ≡ some out)
read_run =
    let turn =
      sender-goes_on stream sum_zlib setup refl (begin setup) sender_start reads here begin-sender
        reads-SenderTurn in
    (turn.3.0, turn.3.1)

read-Reach : Reach stream sum_zlib setup (after reads (read_run.0))
read-Reach =
    later here
      (sender_turn reads sender_start (read_run.0) begin-sender reads-SenderTurn (read_run.1) refl)

abbrev block : Pstl
block = record { payload = replicate 512 7; length = 9; seqnum = 9; timestamp = 9 }

-- The calls of the receiver succeed.
abbrev calls : Receiver.Round
calls = record {
  is_running = 1;
  revents = 0;
  nb = 0;
  data_buffer = [];
  ack_block = dirty;
  slot_block = some block;
  write_result = λ _. 5;
  send_result = 10;
}

calls-Allocates : Allocates calls
calls-Allocates = record { ack_ok = dirty-IsPkt; fresh = block; slot = refl; slot_room = refl }

calls-Passes : Passes calls
calls-Passes = record {
  ack_ok = dirty-IsPkt;
  sends = omega arith;
  writes = λ _. omega arith;
  fresh = block;
  slot = refl;
  slot_room = refl;
}

waits : length (after reads (read_run.0)).written < (after reads (read_run.0)).total_read
unfolding begin Sender.start
waits = omega arith

Reach-advances_example :
    OnLink stream sum_zlib
      (after reads (read_run.0)).outbound
      (length (after reads (read_run.0)).written)
    × ((t : System) × Step stream sum_zlib (after reads (read_run.0)) t
        × (length (after reads (read_run.0)).written < length t.written))
Reach-advances_example =
    Reach-advances stream sum_zlib setup refl (after reads (read_run.0)) receiver_start calls
      read-Reach begin-receiver waits calls-Allocates

calls-silent :
    Receiver.step sum_zlib calls receiver_start ≡ some ([], Receiver.running receiver_start)
unfolding Receiver.step
calls-silent = refl

calls-turn : ReceiverTurn stream sum_zlib (begin setup) calls receiver_start
calls-turn = record {
  works = calls-Passes;
  succeeds = λ out e. silent-Succeeds calls _ _ out calls-silent e (omega arith);
  polled = omega arith;
  arrival = quiet refl;
}

receiver-goes_on_example :
    (t : System) × Reach stream sum_zlib setup t
    × ((out : _) × (Receiver.step sum_zlib calls receiver_start ≡ some out) × (t.receiver ≡ out.1))
receiver-goes_on_example =
    receiver-goes_on stream sum_zlib setup refl (begin setup) receiver_start calls here
      begin-receiver calls-turn

reads-Blocks : Blocks reads
reads-Blocks = record { data_ok = dirty-IsPkt; socket_ok = dirty-IsPkt; close_ok = dirty-IsPkt }

one_read : 0 < (after reads (read_run.0)).total_read
unfolding begin Sender.start
one_read = omega arith

-- The whole transfer of one chunk
whole_run : Completes stream sum_zlib setup (after reads (read_run.0))
whole_run =
    Reach-finishes stream sum_zlib setup refl reads reads-Blocks (after reads (read_run.0)) calls
      read-Reach one_read calls-Allocates

Reach-complete_example :
    whole_run.over.after.written ≡ chunks stream 0 whole_run.over.after.total_read
Reach-complete_example =
    Reach-complete stream sum_zlib setup refl whole_run.over.after whole_run.over.sender_file
      whole_run.over.reached (inl whole_run.over.terminated)

Reach-in_order_example :
    (whole_run.over.after.written ≡ chunks stream 0 (length whole_run.over.after.written))
    × (length whole_run.over.after.written ≤ whole_run.over.after.total_read)
Reach-in_order_example =
    Reach-in_order stream sum_zlib setup refl whole_run.over.after whole_run.over.reached

-- The receiver waits too long after the first chunk was sent: its statistics are written.
abbrev waits_long : Receiver.Round
waits_long = record calls { is_running = 0 }

abbrev first_sent : System
first_sent = record (begin setup) {
  sender = read_run.0.1;
  outbound = stamped (length (begin setup).written) (read_run.0.0) ++ (begin setup).outbound;
}

abbrev given_up : List Action × Receiver.Outcome
given_up = ([], Receiver.returned Receiver.timeout (remove_logger receiver_start.logger))

waits_long-given_up : Receiver.step sum_zlib waits_long receiver_start ≡ some given_up
unfolding Receiver.step
waits_long-given_up = refl

abbrev waited : System
waited = record first_sent {
  receiver = given_up.1;
  inbound = stamped (length first_sent.written) (sent_by (given_up.0)) ++ first_sent.inbound;
}

waited-Occurs : Occurs sum_zlib setup waited
waited-Occurs =
    takes
      (takes at_start (sender_takes reads sender_start (read_run.0) begin-sender (read_run.1) refl))
      (receiver_takes waits_long receiver_start given_up begin-receiver waits_long-given_up refl)

Occurs-Counters_example : Counters waited
Occurs-Counters_example = Occurs-Counters sum_zlib setup refl refl waited waited-Occurs
