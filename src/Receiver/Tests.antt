-- ===== src/Receiver/Tests.antt =====
-- Rounds of src/lib/send_data/read_write_loop_server.c at concrete packets.
use linfo1341_project.Common.{
  ℕ, ◌<◌, ◌≡◌, refl, inl, true, some, none, List, [], ◌++◌, length, arith, replicate, Returns,
}
use linfo1341_project.Segment.{Pkt}
use linfo1341_project.Segment.Wire.{wire, IsCoherent}
use linfo1341_project.Segment.Samples.{sum_zlib, greeting, hello, dirty, dirty-IsPkt}
use linfo1341_project.SortedList
use linfo1341_project.SortedList.{Pstl}
use linfo1341_project.Stats.Samples.{fresh}
use linfo1341_project.Receiver.{Receiver, Round, in_window, on_unawaited, start, step}
use linfo1341_project.Receiver.Stream.{Carries}
use linfo1341_project.Receiver.Deliver.{Receiving, Advanced}
use linfo1341_project.Receiver.Store.{
  Keeps, Stores, start-Receiving, on_unawaited_ignores, on_unawaited_overruns,
}
use linfo1341_project.Receiver.Truncated.{Refuses, on_packet-Refuses}
use linfo1341_project.Receiver.{on_packet, returned, disconnected}
use linfo1341_project.Stats.{add_data_received, remove_logger}
use linfo1341_project.Receiver.Any.{Passes, Delivers, step-Delivers}
use linfo1341_project.Receiver.Closing.{IsClosing, step-closed}
use linfo1341_project.Receiver.Step.{Arrives, step_advances, step-Stores}

-- Every chunk is the same five bytes.
abbrev stream : ℕ → List ℕ
stream n = greeting

abbrev packet : ℕ → Pkt
packet n = record hello { seqnum = n }

abbrev block : Pstl
block = record { payload = replicate 512 7; length = 9; seqnum = 9; timestamp = 9 }

abbrev round_of : ℕ → Round
round_of n = record {
  is_running = 1;
  revents = 1;
  nb = 21;
  data_buffer = wire sum_zlib (packet n) ++ [];
  ack_block = dirty;
  slot_block = some block;
  write_result = λ _. 5;
  send_result = 10;
}

abbrev ready : Receiver
ready = start (replicate 31 none) (replicate 10 0) dirty true fresh

ready-Receiving : Receiving stream 0 ready
ready-Receiving = start-Receiving stream (replicate 10 0) dirty true fresh refl dirty-IsPkt

packet-Carries : (n : ℕ) → n < 256 → Carries stream n (packet n)
packet-Carries n h = record {
  is_data = refl;
  whole = refl;
  numbered = omega arith;
  sized = refl;
  some_bytes = omega arith;
  fits = omega arith;
  array = refl;
  bytes = refl;
}

packet-IsCoherent : (n : ℕ) → n < 256 → IsCoherent (packet n)
packet-IsCoherent n h = omega arith

first-Arrives : Arrives sum_zlib (packet 0) (round_of 0)
unfolding wire
first-Arrives = record {
  polled = omega arith;
  event = omega arith;
  received = refl;
  rest = [];
  bytes = refl;
}

fifth-Arrives : Arrives sum_zlib (packet 4) (round_of 4)
unfolding wire
fifth-Arrives = record {
  polled = omega arith;
  event = omega arith;
  received = refl;
  rest = [];
  bytes = refl;
}

step_advances_example : Returns (Advanced stream sum_zlib 0) (step sum_zlib (round_of 0) ready)
step_advances_example =
    step_advances stream sum_zlib (round_of 0) dirty-IsPkt (omega arith) (λ _. omega arith) 0 ready
      (packet 0) ready-Receiving (packet-Carries 0 (omega arith))
      (packet-IsCoherent 0 (omega arith)) first-Arrives

step-Stores_example : Returns (Stores stream sum_zlib 0 4) (step sum_zlib (round_of 4) ready)
step-Stores_example =
    step-Stores stream sum_zlib (round_of 4) dirty-IsPkt (omega arith) (λ _. omega arith) 0 4 ready
      (packet 4) ready-Receiving (packet-Carries 4 (omega arith))
      (packet-IsCoherent 4 (omega arith)) fifth-Arrives (omega arith) (omega arith) block refl refl

-- The round of a packet that the receiver has already decoded
abbrev decoded_at : ℕ → Receiver
decoded_at n = record ready { pkt = packet n }

decoded_at-Receiving : (n : ℕ) → n < 256 → Receiving stream 0 (decoded_at n)
decoded_at-Receiving n h =
    (let v = ready-Receiving in
      record {
        waiting = v.waiting;
        waited = v.waited;
        ack_room = v.ack_room;
        buffer_room = v.buffer_room;
        pkt_ok = omega arith;
      })

on_unawaited_ignores_example :
    Returns
      (Keeps stream sum_zlib 0 ready.window)
      (on_unawaited sum_zlib (round_of 200) (decoded_at 200))
on_unawaited_ignores_example =
    on_unawaited_ignores stream sum_zlib (round_of 200) dirty-IsPkt (omega arith) 0 (decoded_at 200)
      (decoded_at-Receiving 200 (omega arith)) (omega arith) (omega arith)

on_unawaited_overruns_example :
    (in_window 0 31 ≡ true) × (on_unawaited sum_zlib (round_of 31) (decoded_at 31) ≡ none)
unfolding start SortedList.new_list
on_unawaited_overruns_example =
    on_unawaited_overruns sum_zlib (round_of 31) (decoded_at 31) 31 refl (omega arith) (inl refl)
      refl

abbrev cut_short : Receiver
cut_short = record ready { pkt = record hello { seqnum = 0; tr = 1 } }

cut_short-Receiving : Receiving stream 0 cut_short
cut_short-Receiving =
    (let v = ready-Receiving in
      record {
        waiting = v.waiting;
        waited = v.waited;
        ack_room = v.ack_room;
        buffer_room = v.buffer_room;
        pkt_ok = omega arith;
      })

on_packet-Refuses_example :
    Returns (Refuses stream sum_zlib 0 ready.window) (on_packet sum_zlib (round_of 0) cut_short)
on_packet-Refuses_example =
    on_packet-Refuses stream sum_zlib (round_of 0) dirty-IsPkt (omega arith) 0 cut_short
      cut_short-Receiving refl refl

round_of-Passes : (n : ℕ) → Passes (round_of n)
round_of-Passes n = record {
  ack_ok = dirty-IsPkt;
  sends = omega arith;
  writes = λ _. omega arith;
  fresh = block;
  slot = refl;
  slot_room = refl;
}

step-Delivers_example : Returns (Delivers stream sum_zlib 0) (step sum_zlib (round_of 4) ready)
step-Delivers_example =
    step-Delivers stream sum_zlib (round_of 4) (round_of-Passes 4) 0 4 ready (packet 4)
      ready-Receiving (packet-Carries 4 (omega arith)) (packet-IsCoherent 4 (omega arith))
      fifth-Arrives (omega arith) (omega arith)

-- The last packet, without a payload
abbrev last : Pkt
last = record hello { seqnum = 0; length = 0 }

abbrev last_round : Round
last_round = record (round_of 0) {
  nb = length (wire sum_zlib last);
  data_buffer = wire sum_zlib last ++ [];
}

last-Passes : Passes last_round
last-Passes = record {
  ack_ok = dirty-IsPkt;
  sends = omega arith;
  writes = λ _. omega arith;
  fresh = block;
  slot = refl;
  slot_room = refl;
}

last-IsClosing : IsClosing 0 last
last-IsClosing = record {
  coherent = omega arith;
  is_data = refl;
  whole = refl;
  empty = refl;
  numbered = refl;
}

last-Arrives : Arrives sum_zlib last last_round
last-Arrives = record {
  polled = omega arith;
  event = omega arith;
  received = refl;
  rest = [];
  bytes = refl;
}

step-closed_example :
    step sum_zlib last_round ready
    ≡ some ([], returned disconnected (remove_logger (add_data_received ready.logger)))
step-closed_example =
    step-closed stream sum_zlib last_round last-Passes 0 ready last ready-Receiving last-IsClosing
      last-Arrives
