-- ===== src/Sender/Counts.antt =====
-- The counters of the sender in src/lib/send_data/read_write_loop_sender.c against what it sends.
use linfo1341_project.Common.{
  ℕ, zero, suc, ◌+◌, ◌-◌, ◌/◌, ◌%◌, ◌^◌, refl, Bool, true, false, not, ◌&&◌, Option, none, some, [],
  ltb, ◌==◌, if◌then◌else◌, load, store, faults, gives, IfReturns-any, IfReturns-option, IfReturns,
  IfReturns-if,
}
use linfo1341_project.Segment.{
  Pkt, PktStatusCode, pkt_ok, Zlib, max_window_size, pkt_new, pkt_set_timestamp, pkt_get_seqnum,
  pkt_get_type, pkt_get_tr, pkt_get_timestamp,
}
use linfo1341_project.Segment.Encode.{pkt_encode}
use linfo1341_project.Common.Memory.{read_bytes}
use linfo1341_project.Segment.Decode.{pkt_decode}
use linfo1341_project.Queue
use linfo1341_project.Stats.{
  int_lt, add_data_sent, add_ack_received, add_nack_received, add_packet_duplicated,
}
use linfo1341_project.Stats.Totals.{
  Adds-append, if-Adds, remove_logger-active, same-Adds, add_data_sent-Adds,
  add_packet_retransmitted-Adds, add_data_received-Adds, add_data_truncated_received-Adds,
  add_ack_received-Adds, add_nack_received-Adds, add_packet_ignored-Adds,
  add_packet_duplicated-Adds, new_rtt-Adds,
}
use linfo1341_project.Sender.{
  Sender, Round, running, build_pkt, before, ack_loop, timeout, send_data, on_input, resend, on_ack,
}
use linfo1341_project.Sender.Loop.{
  on_nack, on_packet, on_decoded, on_socket, resend_loop, check_timers, close, step,
}
use linfo1341_project.Sender.Counted.{
  Counted, kept, after-Counted, and_then-Counted, encoded-Counted, if_sent-Counted, Counting,
}

module _ (z : Zlib) (round : Round) where
  send_data-Counted :
      (s : Sender) → Counting s.logger → IfReturns (Counted s.logger) (send_data z round s)
  unfolding send_data
  send_data-Counted s c =
      IfReturns-if (round.input_nb == 0) (λ _. gives (same-Adds s.logger c.active))
        (λ _.
          IfReturns-any
            (build_pkt (pkt_new round.data_block)
              ((s.sending_window_size + 256 - s.pkt_in_window) % 256) s.seqnum round.input_nb
              round.input_buffer round.data_time)
            λ pkt. IfReturns-any (pkt_encode z pkt s.pkt_buffer 528) λ (status, buffer, size).
              encoded-Counted s.logger status (
                IfReturns-any (Queue.add s.window (some pkt)) λ window.
                  IfReturns-any (read_bytes buffer 0 size) λ bytes. gives (
                    if_sent-Counted s.logger (int_lt round.send_result 0) bytes _
                      (add_data_sent-Adds s.logger c.active))))

  on_input-Counted :
      (s : Sender) → Counting s.logger → IfReturns (Counted s.logger) (on_input z round s)
  unfolding on_input
  on_input-Counted s c =
      IfReturns-if (round.input_ready && ltb s.pkt_in_window s.sending_window_size)
        (λ _. send_data-Counted s c) (λ _. gives (same-Adds s.logger c.active))

  resend-Counted :
      (index time : ℕ) (s : Sender)
      → Counting s.logger
      → IfReturns (Counted s.logger) (resend z round index time s)
  unfolding resend
  resend-Counted index time s c = IfReturns-any (load s.window.window index) λ slot.
      IfReturns-any slot λ found.
        let pkt = (pkt_set_timestamp found time).1 in
        IfReturns-any (store s.window.window index (some pkt)) λ window.
          IfReturns-any (pkt_encode z pkt s.pkt_buffer 528) λ (status, buffer, size).
            encoded-Counted s.logger status (
              IfReturns-any (read_bytes buffer 0 size)
                λ bytes. gives (add_packet_retransmitted-Adds s.logger c.active c.is_sender))

  on_ack-Counted :
      (pkt : Pkt) (s : Sender)
      → Counting s.logger
      → IfReturns (Counted s.logger) (on_ack z round pkt s)
  unfolding on_ack
  on_ack-Counted pkt s c =
      let counted = add_ack_received s.logger in
      let a = add_ack_received-Adds s.logger c.active in
      let rtt = (round.rtt_time + 2 ^ 32 - pkt_get_timestamp pkt) % 2 ^ 32 in
      IfReturns-any (ack_loop 32 (before (pkt_get_seqnum pkt)) s.window s.pkt_in_window false)
        λ (window, left, changed). gives (
          if-Adds changed (Adds-append 0 0 0 0 a (new_rtt-Adds counted a.active rtt))
            (Adds-append 0 0 0 0 a (add_packet_ignored-Adds counted a.active)))

  on_nack-Counted :
      (pkt : Pkt) (s : Sender)
      → Counting s.logger
      → IfReturns (Counted s.logger) (on_nack z round pkt s)
  unfolding on_nack
  on_nack-Counted pkt s c =
      let counted = add_nack_received s.logger in
      let a = add_nack_received-Adds s.logger c.active in
      IfReturns-any (Queue.get s.window (before (pkt_get_seqnum pkt)) none) λ found.
        IfReturns-option found
          (gives (Adds-append 0 0 0 0 a (add_packet_ignored-Adds counted a.active)))
          (λ (index, next). after-Counted s.logger counted a (
            and_then-Counted counted (kept c a)
              (resend-Counted index round.nack_time (record s { logger = counted }) (kept c a))
              (λ t d.
                gives
                  {a = (
                    [],
                    running (record t {
                      sending_window_size =
                          if t.sending_window_size == 1 then 1 else t.sending_window_size / 2;
                    }),
                  )}
                  (same-Adds t.logger d.active))))

  on_packet-Counted :
      (pkt : Pkt) (s : Sender)
      → Counting s.logger
      → IfReturns (Counted s.logger) (on_packet z round pkt s)
  unfolding on_packet
  on_packet-Counted pkt s c =
      let duplicated = add_packet_duplicated s.logger in
      let a = add_packet_duplicated-Adds s.logger c.active in
      IfReturns-if (pkt_get_tr pkt == 1)
        (λ _. gives (add_data_truncated_received-Adds s.logger c.active))
        (λ _.
          IfReturns-if (pkt_get_type pkt == 1)
            (λ _. gives (Adds-append 0 0 0 0 a (add_data_received-Adds duplicated a.active)))
            (λ _.
              IfReturns-if (pkt_get_type pkt == 2) (λ _. on_ack-Counted pkt s c)
                (λ _.
                  IfReturns-if (pkt_get_type pkt == 3) (λ _. on_nack-Counted pkt s c)
                    (λ _. gives (same-Adds s.logger c.active)))))

  on_decoded-Counted :
      (status : PktStatusCode) (pkt : Pkt) (s : Sender)
      → Counting s.logger
      → IfReturns (Counted s.logger) (on_decoded z round status pkt s)
  unfolding on_decoded
  on_decoded-Counted pkt_ok pkt s c = on_packet-Counted pkt s c
  on_decoded-Counted _ pkt s c = gives (add_packet_ignored-Adds s.logger c.active)

  on_socket-Counted :
      (s : Sender) → Counting s.logger → IfReturns (Counted s.logger) (on_socket z round s)
  unfolding on_socket
  on_socket-Counted s c =
      let r = record s { nb = round.socket_nb; pkt_buffer = round.socket_buffer } in
      IfReturns-if (not round.socket_ready) (λ _. gives (same-Adds s.logger c.active))
        (λ _.
          IfReturns-any (pkt_decode z round.socket_buffer 12 (pkt_new round.socket_block))
            λ (status, pkt). on_decoded-Counted status pkt r c)

  resend_loop-Counted :
      (fuel k receive_seqnum : ℕ) (support_int : Option ℕ) (first : ℕ) (first_time : Bool)
      (s : Sender)
      → Counting s.logger
      → IfReturns
          (Counted s.logger)
          (resend_loop z round fuel k receive_seqnum support_int first first_time s)
  unfolding resend_loop
  resend_loop-Counted zero k receive_seqnum support_int first first_time s c = faults
  resend_loop-Counted (suc fuel) k receive_seqnum support_int first first_time s c =
      IfReturns-any (Queue.get s.window receive_seqnum support_int) λ found.
        IfReturns-option found (gives (same-Adds s.logger c.active)) λ (index, support).
          let next = λ (t : Sender) (d : Counting t.logger).
            resend_loop-Counted fuel (k + 1) ((receive_seqnum + 1) % max_window_size) (some support)
              first false t d in
          IfReturns-any (load s.window.window index) λ slot. IfReturns-any slot λ pkt.
            IfReturns-if (first == pkt_get_seqnum pkt && not first_time)
              (λ _. gives (same-Adds s.logger c.active))
              (λ _.
                IfReturns-if
                  (ltb ((pkt_get_timestamp pkt + timeout / 20) % 2 ^ 32) round.clock_time)
                  (λ _.
                    and_then-Counted s.logger c (resend-Counted index (round.resend_time k) s c)
                      next)
                  (λ _. next s c))

  check_timers-Counted :
      (s : Sender) → Counting s.logger → IfReturns (Counted s.logger) (check_timers z round s)
  unfolding check_timers
  check_timers-Counted s c = IfReturns-any (Queue.peek s.window) λ oldest.
      IfReturns-option oldest (gives (same-Adds s.logger c.active))
        λ pkt. resend_loop-Counted 33 0 (pkt_get_seqnum pkt) none (pkt_get_seqnum pkt) true s c

  close-Counted : (s : Sender) → Counting s.logger → IfReturns (Counted s.logger) (close z round s)
  unfolding close
  close-Counted s c =
      IfReturns-if (not (s.nb == 0 && s.pkt_in_window == 0))
        (λ _. gives (same-Adds s.logger c.active))
        (λ _.
          IfReturns-any
            (build_pkt (pkt_new round.close_block) s.sending_window_size s.seqnum 0 s.payload_buffer
              round.close_time)
            λ pkt. IfReturns-any (pkt_encode z pkt s.pkt_buffer 528) λ (status, buffer, size).
              encoded-Counted s.logger status (
                IfReturns-any (read_bytes buffer 0 size) λ bytes.
                  let a = add_data_sent-Adds s.logger c.active in
                  gives (
                    add_data_sent s.logger,
                    remove_logger-active (add_data_sent s.logger) a.active,
                    a,
                  )))

  pub step-Counted :
      (s : Sender) → Counting s.logger → IfReturns (Counted s.logger) (step z round s)
  unfolding step
  step-Counted s c =
      IfReturns-if (round.pollresp == 2 ^ 32 - 1) (λ _. gives refl)
        (λ _. and_then-Counted s.logger c (on_input-Counted s c) (λ a d.
          and_then-Counted a.logger d (on_socket-Counted a d)
            (λ b e. and_then-Counted b.logger e (check_timers-Counted b e) close-Counted)))
