-- ===== src/Receiver/Counts.antt =====
-- The counters of the receiver in src/lib/send_data/read_write_loop_server.c against what it sends.
use linfo1341_project.Common.{
  ℕ, ◌+◌, ◌%◌, ◌≡◌, refl, ◌==◌, gives, IfReturns-any, IfReturns, IfReturns-bind, IfReturns-if,
}
use linfo1341_project.Common.Memory.{read_bytes}
use linfo1341_project.Segment.{
  Zlib, pkt_new, pkt_get_seqnum, pkt_get_type, pkt_get_tr, pkt_get_timestamp, pkt_get_length,
  pkt_get_payload, ptype_ack, ptype_nack,
}
use linfo1341_project.Segment.Encode.{pkt_encode}
use linfo1341_project.Segment.Decode.{pkt_decode}
use linfo1341_project.SortedList.{Pstl, SortedList, AddResult, added, duplicate, failed}
use linfo1341_project.SortedList
use linfo1341_project.Stats.{
  Logger, add_data_received, add_data_truncated_received, add_ack_sent, add_nack_sent,
  add_packet_ignored, add_packet_duplicated,
}
use linfo1341_project.Stats.Totals.{
  Adds, after-Adds, remove_logger-active, same-Adds, add_ack_sent-Adds, add_nack_sent-Adds,
  add_data_received-Adds, add_data_truncated_received-Adds, add_ack_received-Adds,
  add_nack_received-Adds, add_packet_ignored-Adds, add_packet_duplicated-Adds,
}
use linfo1341_project.Receiver.{
  Receiver, Round, sent_by, size_of_int, Drained, build_ack, in_window, send_ack, on_truncated,
  on_awaited, ack_again, on_unawaited, on_packet, step,
}
use linfo1341_project.Receiver.Counted.{
  Counted, drain_loop-IsQuiet, after-Counted, drained-Counted, if_sent-Counted, added-Counted,
  decoded-Counted,
}

module _ (z : Zlib) (round : Round) where
  send_ack-Counted :
      (r : Receiver) (timestamp type : ℕ) (count : Logger → Logger)
      → Adds 0 1 r.logger (count r.logger)
      → IfReturns (Counted r.logger) (send_ack z round r timestamp type count)
  unfolding send_ack
  send_ack-Counted r timestamp type count a =
      IfReturns-any
        (pkt_encode z (build_ack (pkt_new round.ack_block) timestamp r.waited_seqnum type) r.buffer
          r.ack_size)
        λ (_, buffer, ack_size).
          IfReturns-any (read_bytes buffer 0 ack_size)
            λ bytes. gives (if_sent-Counted r.logger (round.send_result == 0) bytes _ a)

  on_truncated-Counted :
      (r : Receiver)
      → r.logger.activated ≡ 1
      → IfReturns (Counted r.logger) (on_truncated z round r)
  unfolding on_truncated
  on_truncated-Counted r c =
      let counted = add_data_truncated_received r.logger in
      let a = add_data_truncated_received-Adds r.logger c in
      after-Counted r.logger counted a (
        send_ack-Counted (record r { logger = counted }) (pkt_get_timestamp r.pkt) ptype_nack
          add_nack_sent (add_nack_sent-Adds counted a.active))

  ack_again-Counted :
      (r : Receiver) → r.logger.activated ≡ 1 → IfReturns (Counted r.logger) (ack_again z round r)
  unfolding ack_again sent_by
  ack_again-Counted r c =
      IfReturns-if (r.receive_pkt == 0) (λ _. gives (same-Adds r.logger c))
        (λ _.
          send_ack-Counted r (pkt_get_timestamp r.pkt) ptype_ack add_ack_sent
            (add_ack_sent-Adds r.logger c))

  on_awaited-Counted :
      (r : Receiver) → r.logger.activated ≡ 1 → IfReturns (Counted r.logger) (on_awaited z round r)
  unfolding on_awaited sent_by
  on_awaited-Counted r c =
      let first : Drained = record {
        list = r.window;
        waited = (r.waited_seqnum + 1) % 256;
        timestamp_ack = pkt_get_timestamp r.pkt;
        received = 1;
      } in
      IfReturns-if (pkt_get_length r.pkt == 0)
        (λ _. gives (r.logger, remove_logger-active r.logger c, same-Adds r.logger c))
        (λ _. IfReturns-any (pkt_get_payload r.pkt) λ payload.
          IfReturns-any (read_bytes payload 0 (pkt_get_length r.pkt)) λ bytes.
            IfReturns-if (round.write_result 0 == 0) (λ _. gives refl)
              (λ _.
                IfReturns-bind (drain_loop-IsQuiet 32 round.write_result 1 first)
                  λ (actions, end) quiet. drained-Counted r.logger c bytes actions end quiet λ d.
                    IfReturns-any (SortedList.reset d.list d.waited r.waited_seqnum) λ window.
                      send_ack-Counted
                        (record r {
                          window = window;
                          waited_seqnum = d.waited;
                          receive_pkt = d.received;
                        })
                        d.timestamp_ack ptype_ack add_ack_sent (add_ack_sent-Adds r.logger c)))

  on_unawaited-Counted :
      (r : Receiver)
      → r.logger.activated ≡ 1
      → IfReturns (Counted r.logger) (on_unawaited z round r)
  unfolding on_unawaited
  on_unawaited-Counted r c =
      let ignored = add_packet_ignored r.logger in
      let i = add_packet_ignored-Adds r.logger c in
      IfReturns-if (in_window r.waited_seqnum (pkt_get_seqnum r.pkt))
        (λ _.
          IfReturns-any (SortedList.add r.window r.pkt r.waited_seqnum round.slot_block)
            λ (result, window).
              let counted = add_data_received r.logger in
              let a = add_data_received-Adds r.logger c in
              let again = add_packet_ignored counted in
              let b = after-Adds a (add_packet_ignored-Adds counted a.active) in
              let d = after-Adds b (add_packet_duplicated-Adds again b.active) in
              let stored = record r { window = window; logger = counted } in
              added-Counted r.logger result (gives refl)
                (after-Counted r.logger _ d (
                  ack_again-Counted
                    (record r { window = window; logger = add_packet_duplicated again }) d.active))
                (after-Counted r.logger counted a (ack_again-Counted stored a.active)))
        (λ _.
          after-Counted r.logger ignored i
            (ack_again-Counted (record r { logger = ignored }) i.active))

  on_packet-Counted :
      (r : Receiver) → r.logger.activated ≡ 1 → IfReturns (Counted r.logger) (on_packet z round r)
  unfolding on_packet sent_by
  on_packet-Counted r c =
      let counted = add_data_received r.logger in
      let a = add_data_received-Adds r.logger c in
      let t = record r { logger = counted } in
      IfReturns-if (pkt_get_type r.pkt == 1)
        (λ _. after-Counted r.logger counted a (
          IfReturns-if (pkt_get_tr r.pkt == 1) (λ _. on_truncated-Counted t a.active)
            (λ _.
              IfReturns-if (pkt_get_seqnum r.pkt == r.waited_seqnum)
                (λ _. on_awaited-Counted t a.active) (λ _. on_unawaited-Counted t a.active))))
        (λ _.
          IfReturns-if (pkt_get_type r.pkt == 2) (λ _. gives (add_ack_received-Adds r.logger c))
            (λ _.
              IfReturns-if (pkt_get_type r.pkt == 3)
                (λ _. gives (add_nack_received-Adds r.logger c))
                (λ _. gives (same-Adds r.logger c))))

  pub step-Counted :
      (r : Receiver) → r.logger.activated ≡ 1 → IfReturns (Counted r.logger) (step z round r)
  unfolding step sent_by
  step-Counted r c =
      IfReturns-if (round.is_running == 0)
        (λ _. gives (r.logger, remove_logger-active r.logger c, same-Adds r.logger c))
        (λ _.
          IfReturns-if (round.revents == 0) (λ _. gives (same-Adds r.logger c))
            (λ _.
              IfReturns-if (round.nb == 0) (λ _. gives refl)
                (λ _.
                  IfReturns-any (pkt_decode z round.data_buffer (size_of_int round.nb) r.pkt)
                    λ (status, pkt).
                      decoded-Counted r pkt c status
                        (on_packet-Counted (record r { pkt = pkt }) c))))
