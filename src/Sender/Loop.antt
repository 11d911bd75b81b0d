-- ===== src/Sender/Loop.antt =====
-- The rest of a round of src/lib/send_data/read_write_loop_sender.c: the socket, the timers, the end.
use linfo1341_project.Common.{
  ℕ, zero, suc, ◌+◌, ◌-◌, ◌/◌, ◌%◌, ◌^◌, Bool, true, false, not, ◌&&◌, Option, none, some, List, [],
  ◌∷◌, ltb, ◌==◌, if◌then◌else◌, load, ◌>>=◌,
}
use linfo1341_project.Common.Memory.{read_bytes}
use linfo1341_project.Segment.{
  Pkt, PktStatusCode, pkt_ok, Zlib, max_window_size, pkt_new, pkt_get_type, pkt_get_tr,
  pkt_get_seqnum, pkt_get_timestamp,
}
use linfo1341_project.Segment.Encode.{pkt_encode}
use linfo1341_project.Segment.Decode.{pkt_decode}
use linfo1341_project.Queue
use linfo1341_project.Stats.{
  remove_logger, add_data_sent, add_data_received, add_data_truncated_received, add_nack_received,
  add_packet_ignored, add_packet_duplicated,
}
use linfo1341_project.Sender.{
  Sender, Round, Outcome, running, returned, terminated, poll_error, encode_error, and_then, before,
  build_pkt, timeout, on_input, on_ack, resend,
}

module _ (z : Zlib) (round : Round) where
  -- A negative acknowledgement: the packet goes out again, if the window has it.
  unfoldable pub on_nack : Pkt → Sender → Option (List (List ℕ) × Outcome)
  on_nack pkt s =
      let counted = record s { logger = add_nack_received s.logger } in
      let halve = λ (t : Sender). (record t {
        sending_window_size = if t.sending_window_size == 1 then 1 else t.sending_window_size / 2;
      }) in
      do
        found ← Queue.get counted.window (before (pkt_get_seqnum pkt)) none
        elim found [
          | none ↦
              some ([], running (record counted { logger = add_packet_ignored counted.logger }))
          | some (index, _) ↦
              and_then (resend z round index round.nack_time counted)
                (λ t. some ([], running (halve t)))
        ]

  -- The `switch` on the type of a decoded packet
  unfoldable pub on_packet : Pkt → Sender → Option (List (List ℕ) × Outcome)
  on_packet pkt s =
      if pkt_get_tr pkt == 1
      then some ([], running (record s { logger = add_data_truncated_received s.logger }))
      else if pkt_get_type pkt == 1
      then some
          ([], running (record s { logger = add_data_received (add_packet_duplicated s.logger) }))
      else if pkt_get_type pkt == 2
      then on_ack z round pkt s
      else if pkt_get_type pkt == 3
      then on_nack pkt s
      else some ([], running s)

  -- A packet that `pkt_decode` refuses is dropped.
  unfoldable pub on_decoded : PktStatusCode → Pkt → Sender → Option (List (List ℕ) × Outcome)
  on_decoded pkt_ok pkt s = on_packet pkt s
  on_decoded _ pkt s = some ([], running (record s { logger = add_packet_ignored s.logger }))

  -- An event on the socket. Twelve bytes are decoded, however many were read.
  unfoldable pub on_socket : Sender → Option (List (List ℕ) × Outcome)
  on_socket s =
      let r = record s { nb = round.socket_nb; pkt_buffer = round.socket_buffer } in
      if not round.socket_ready then some ([], running s) else do
        (status, pkt) ← pkt_decode z r.pkt_buffer 12 (pkt_new round.socket_block)
        on_decoded status pkt r

  -- The loop over the packets to send again, on fuel; `k` counts its rounds, and `first` is the
  -- number of the oldest packet.
  unfoldable pub resend_loop :
      ℕ → ℕ → ℕ → Option ℕ → ℕ → Bool → Sender → Option (List (List ℕ) × Outcome)
  resend_loop zero k receive_seqnum support_int first first_time s = none
  resend_loop (suc fuel) k receive_seqnum support_int first first_time s =
      let next = λ (support : ℕ) (t : Sender).
        resend_loop fuel (k + 1) ((receive_seqnum + 1) % max_window_size) (some support) first false
          t in
      do
        found ← Queue.get s.window receive_seqnum support_int
        elim found [
          | none ↦ some ([], running s)
          | some (index, support) ↦ do
            slot ← load s.window.window index
            pkt ← slot
            (if first == pkt_get_seqnum pkt && not first_time
                then some ([], running s)
                else if ltb ((pkt_get_timestamp pkt + timeout / 20) % 2 ^ 32) round.clock_time
                then and_then (resend z round index (round.resend_time k) s) (next support)
                else next support s)
        ]

  unfoldable pub check_timers : Sender → Option (List (List ℕ) × Outcome)
  check_timers s = do
    oldest ← Queue.peek s.window
    elim oldest [
      | none ↦ some ([], running s)
      | some pkt ↦ resend_loop 33 0 (pkt_get_seqnum pkt) none (pkt_get_seqnum pkt) true s
    ]

  -- The last packet has no payload and closes the receiver.
  unfoldable pub close : Sender → Option (List (List ℕ) × Outcome)
  close s = if not (s.nb == 0 && s.pkt_in_window == 0) then some ([], running s) else do
    pkt ←
        build_pkt (pkt_new round.close_block) s.sending_window_size s.seqnum 0 s.payload_buffer
          round.close_time
    (status, buffer, size) ← pkt_encode z pkt s.pkt_buffer 528
    elim status [
      | pkt_ok ↦ (do
        bytes ← read_bytes buffer 0 size
        some (bytes ∷ [], returned terminated (remove_logger (add_data_sent s.logger))))
      | _ ↦ some ([], returned encode_error [])
    ]

  -- One round of `while (1)`
  unfoldable pub step : Sender → Option (List (List ℕ) × Outcome)
  step s =
      if round.pollresp == 2 ^ 32 - 1
      then some ([], returned poll_error [])
      else and_then (on_input z round s)
          (λ a. and_then (on_socket a) (λ b. and_then (check_timers b) close))
