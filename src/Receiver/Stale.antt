-- ===== src/Receiver/Stale.antt =====
-- A run of src/lib/send_data/read_write_loop_server.c on a `window[]` that is not NULL at the start.
use linfo1341_project.Common.{
  ℕ, ◌≡◌, refl, true, none, some, Option, List, [], ◌∷◌, store, replicate, ◌>>=◌,
}
use linfo1341_project.Common.Memory.{read_bytes, write_bytes}
use linfo1341_project.Segment.{
  pkt_new, pkt_set_type, pkt_set_tr, pkt_set_window, pkt_set_seqnum, pkt_set_length,
  pkt_set_timestamp, pkt_set_crc1, pkt_get_crc1, pkt_get_type, pkt_get_tr, pkt_get_window,
  pkt_get_seqnum, pkt_get_length, pkt_get_timestamp, pkt_get_payload,
}
use linfo1341_project.Segment.Encode.{
  pkt_encode, encoded_size, encode_crc1, encode_header, encode_payload, first_byte,
}
use linfo1341_project.Segment.Samples.{sum_zlib, greeting, hello, dirty}
use linfo1341_project.SortedList
use linfo1341_project.SortedList.{Pstl}
use linfo1341_project.Stats.Samples.{fresh}
use linfo1341_project.Receiver.{
  Receiver, Round, Action, Outcome, running, returned, in_window, build_ack, start, written_by,
  next_block, drain_loop, send_ack, ack_again, on_awaited, on_unawaited,
}

-- What `malloc` left in slot 1 of the window: an old block.
abbrev stale : Pstl
stale = record { payload = replicate 512 7; length = 3; seqnum = 1; timestamp = 9 }

abbrev block : Pstl
block = record { payload = replicate 512 8; length = 9; seqnum = 9; timestamp = 9 }

abbrev calls : Round
calls = record {
  is_running = 1;
  revents = 1;
  nb = 21;
  data_buffer = [];
  ack_block = dirty;
  slot_block = some block;
  write_result = λ _. 5;
  send_result = 10;
}

abbrev stale_start : Receiver
stale_start = start (none ∷ some stale ∷ replicate 29 none) (replicate 10 0) dirty true fresh

-- Chunk 0 arrives after chunk 2; chunk 1 never does.
abbrev then_first : List Action × Outcome → Option (List (List ℕ))
then_first (earlier, running r) = do
  (actions, _) ← on_awaited sum_zlib calls (record r { pkt = record hello { seqnum = 0 } })
  some (written_by actions)
then_first (earlier, returned e file) = none

-- The old block is written in the place of chunk 1, and chunk 2 is left in the window: its count is
-- at 0 then.
stale_written :
    (on_unawaited sum_zlib calls (record stale_start { pkt = record hello { seqnum = 2 } })
      >>= then_first)
    ≡ some (greeting ∷ (7 ∷ 7 ∷ 7 ∷ []) ∷ [])
unfolding store read_bytes write_bytes pkt_new pkt_set_type pkt_set_tr pkt_set_window pkt_set_seqnum
    pkt_set_length pkt_set_timestamp pkt_set_crc1 pkt_get_crc1 pkt_get_type pkt_get_tr
    pkt_get_window pkt_get_seqnum pkt_get_length pkt_get_timestamp pkt_get_payload pkt_encode
    encoded_size encode_crc1 encode_header encode_payload first_byte start in_window build_ack
    written_by next_block drain_loop send_ack ack_again on_awaited on_unawaited SortedList.new_list
    SortedList.add SortedList.ind SortedList.peek SortedList.peek_loop SortedList.pop
    SortedList.reset SortedList.reset_loop SortedList.is_empty
stale_written = refl
