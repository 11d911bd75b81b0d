-- ===== src/Net/Run.antt =====
-- A round of src/lib/send_data/read_write_loop_sender.c on the link keeps the invariant of the whole.
use linfo1341_project.Common.{
  ℕ, ◌+◌, ◌%◌, ◌≤◌, ◌≡◌, subst, some, List, ◌++◌, arith, inl, inr, length, All, All-append, All-map,
  All-at, Returns,
}
use linfo1341_project.Segment.{Pkt, Zlib, pkt_ok}
use linfo1341_project.Segment.Decode.{pkt_decode}
use linfo1341_project.Segment.DecodeWire.{decoded, decode_coherent}
use linfo1341_project.Sender
use linfo1341_project.Sender.Loop
use linfo1341_project.Sender.Kept.{Ready}
use linfo1341_project.Sender.Answer.{Hears}
use linfo1341_project.Sender.Cumulative.{ack-AcksBelow}
use linfo1341_project.Sender.Whole.{chunks_read, step-Steps}
use linfo1341_project.Sender.Closing.{Steps, goes, ends}
use linfo1341_project.Receiver.Ack.{length-wire_ack}
use linfo1341_project.Net.{Datagram, System, Listens, SenderTurn, stamped}
use linfo1341_project.Net.Sound.{
  Receiving-grows, FromChunk, Outbound, from_chunk, AckOf, SenderSide, sending, ended, ReceiverSide,
  receiving, closed, IsSound, AllData-stamped, closing-stamped,
}

module _ (chunk : ℕ → List ℕ) (z : Zlib) where
  -- What the sender hears tells of written chunks only.
  Hears-Listens :
      (s : System) (round : Sender.Round) (base : ℕ)
      → All (AckOf chunk z (length s.written)) s.inbound
      → base ≤ length s.written
      → length s.written ≤ base + 31
      → Listens chunk z s round
      → Hears chunk z round base (length s.written)
  Hears-Listens s round base acks from near l = record {
    block_ok = l.block_ok;
    room = l.room;
    is_bytes = l.is_bytes;
    acks = λ pkt e. elim l.hears [
      | inr refused ↦ absurd (refused pkt e)
      | inl (d, c) ↦
          let a = All-at (AckOf chunk z (length s.written)) s.inbound c.place d acks c.at in
          let ten = length-wire_ack z a.kind (d.sent_at % 256) a.ack a.is_ack a.answers in
          let came : pkt_decode z round.socket_buffer 12 round.socket_block
              ≡ some (pkt_ok, decoded z a.ack round.socket_block) =
            rw (c.bytes, a.at)
              (decode_coherent z a.ack a.is_ack.coherent round.socket_block l.block_ok c.rest 12
                (omega arith) (omega arith)) in
          let same : decoded z a.ack round.socket_block ≡ pkt = cc (came, e) in
          let number : pkt.seqnum ≡ d.sent_at % 256 =
            subst (λ (p : Pkt). p.seqnum ≡ d.sent_at % 256) same
              (ground (arith, a.is_ack.numbered, a.is_ack.no_payload)) in
          ack-AcksBelow chunk d.sent_at base (length s.written) pkt number (omega (arith, c.alive))
            (omega (arith, a.past)) from a.past
    ];
  }

  Ready-own :
      (low high total : ℕ) (a : Sender.Sender) (r : Ready chunk z low high total a)
      → Ready chunk z r.base r.base total a
  Ready-own low high total a r = record {
    base = r.base;
    xs = r.xs;
    sending = r.sending;
    from = omega arith;
    upto = omega arith;
    total = r.total;
  }

  -- A round of the sender is without a fault.
  pub sender-Steps :
      (s : System) (round : Sender.Round) (a : Sender.Sender) (base : ℕ)
      → Ready chunk z base base s.total_read a
      → base ≤ length s.written
      → length s.written ≤ s.total_read
      → All (AckOf chunk z (length s.written)) s.inbound
      → SenderTurn chunk z s round
      → Returns
          (Steps chunk z base (length s.written) (s.total_read + chunks_read chunk z round a))
          (Sender.Loop.step z round a)
  sender-Steps s round a base r from upto acks turn =
      let near : length s.written ≤ base + 31 =
        omega (arith, r.total, r.from, r.upto, r.sending.holds.bounded) in
      step-Steps chunk z round base (length s.written) from turn.close_ok
        (λ ready. Hears-Listens s round base acks from near (turn.listens ready)) s.total_read a r
        turn.polled turn.feeds

  module _ (s : System) (sound : IsSound chunk z s) where
    abbrev count : ℕ
    count = length s.written

    ReceiverSide-sends :
        (more : ℕ) (o : Sender.Outcome) (out : List Datagram)
        → s.total_read ≤ more
        → (a : Sender.Sender) → s.sender ≡ Sender.running a
        → ReceiverSide chunk z (record s { sender = o; total_read = more; outbound = out })
    ReceiverSide-sends more o out h a e = elim sound.receiver_side [
      | receiving r f v ↦ receiving r f (Receiving-grows chunk z s.total_read more count r h v)
      | closed file stats f g ↦ cc (e, g)
    ]

    pub sender_turn-IsSound :
        (round : Sender.Round) (a : Sender.Sender) (out : List (List ℕ) × Sender.Outcome) (base : ℕ)
        → s.sender ≡ Sender.running a
        → Ready chunk z base base s.total_read a
        → base ≤ count
        → All (FromChunk chunk z s.total_read) s.outbound
        → Steps chunk z base count (s.total_read + chunks_read chunk z round a) out
        → IsSound chunk z (record s {
          sender = out.1;
          total_read = s.total_read + chunks_read chunk z round a;
          outbound = stamped count (out.0) ++ s.outbound;
        })
    sender_turn-IsSound round a out base e r from old steps =
        let more = s.total_read + chunks_read chunk z round a in
        let near : count ≤ base + 31 =
          omega (arith, sound.upto, r.total, r.from, r.upto, r.sending.holds.bounded) in
        let kept =
          All-map (FromChunk chunk z s.total_read) (FromChunk chunk z more) s.outbound
            (λ d f. record {
              number = f.number;
              below = omega (arith, f.below);
              carried = f.carried;
              recent = f.recent;
            })
            old in
        let made : SenderSide chunk z (record s {
          sender = out.1;
          total_read = more;
          outbound = stamped count (out.0) ++ s.outbound;
        }) =
          elim steps [
            | goes g ↦
                sending g.after g.ready.base g.goes_on (Ready-own base count more g.after g.ready)
                  g.ready.upto
                  (All-append (FromChunk chunk z more) _ s.outbound
                    (AllData-stamped chunk z count base more (out.0) near g.sent) kept)
            | ends f ↦ ended f.file f.ended (omega (arith, f.acked, sound.upto)) (
                All-append (Outbound chunk z more) _ s.outbound
                  (rw f.sends (
                    closing-stamped chunk z count more f.earlier f.pkt
                      (AllData-stamped chunk z count base more f.earlier near f.sent) f.closing))
                  (All-map (FromChunk chunk z more) (Outbound chunk z more) s.outbound
                    (λ d c. from_chunk c) kept))
          ] in
        record {
          sender_side = made;
          receiver_side = ReceiverSide-sends more (out.1) _ (omega arith) a e;
          in_order = sound.in_order;
          upto = omega (arith, sound.upto);
          acks = sound.acks;
        }
