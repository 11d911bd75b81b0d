-- ===== src/Net/Received.antt =====
-- A round of src/lib/send_data/read_write_loop_server.c on the link keeps the invariant of the whole.
use linfo1341_project.Common.{
  ℕ, ◌+◌, ◌-◌, ◌≤◌, ◌≡◌, refl, ap, ◌∙◌, List, [], ◌∷◌, ◌++◌, arith, append-nil, inl, inr, length,
  length-append, All-append, All-map,
}
use linfo1341_project.Segment.{Zlib}
use linfo1341_project.Segment.Wire.{wire}
use linfo1341_project.Receiver
use linfo1341_project.Receiver.{written_by, sent_by, Action}
use linfo1341_project.Receiver.Any.{Delivers}
use linfo1341_project.Net.{Datagram, System, stamped}
use linfo1341_project.Net.Turn.{Turned, delivers, refuses, closes}
use linfo1341_project.Net.Sound.{
  chunks, cut, AckOf, SenderSide, sending, ended, receiving, closed, IsSound, below-cut,
  chunks-append, length-chunks, written_by-deliveries, sent_by-deliveries, Answers-stamped,
}

module _ (chunk : ℕ → List ℕ) (z : Zlib) where
  module _ (s : System) (sound : IsSound chunk z s) where
    abbrev count : ℕ
    count = length s.written

    -- What a round of the receiver does to the whole
    abbrev received : List Action × Receiver.Outcome → System
    received out =
        let written = s.written ++ written_by (out.0) in
        record s {
          receiver = out.1;
          written = written;
          inbound = stamped (length written) (sent_by (out.0)) ++ s.inbound;
        }

    SenderSide-written :
        (receiver : Receiver.Outcome) (written : List (List ℕ)) (inbound : List Datagram)
        → count ≤ length written
        → length written ≤ s.total_read
        → SenderSide chunk z
            (record s { receiver = receiver; written = written; inbound = inbound })
    SenderSide-written receiver written inbound from upto = elim sound.sender_side [
      | sending a base e r h old ↦ sending a base e r (omega arith) old
      | ended file e all old ↦ ended file e (omega arith) old
    ]

    Delivers-inside :
        (out : List Action × Receiver.Outcome)
        → (d : Delivers (cut s.total_read chunk) z count out) → count + d.count ≤ s.total_read
    Delivers-inside out d = elim d.last [
      | inl none_new ↦ omega (arith, none_new, sound.upto)
      | inr some_new ↦
          omega (arith, sound.upto, below-cut chunk s.total_read (count + d.count - 1) some_new)
    ]

    written_by-Delivers :
        (out : List Action × Receiver.Outcome)
        → (d : Delivers (cut s.total_read chunk) z count out)
        → written_by (out.0) ≡ chunks chunk count d.count
    written_by-Delivers out d =
        rw
          (
            d.actions,
            written_by-deliveries chunk s.total_read count d.count d.answer (Delivers-inside out d),
            (Answers-stamped chunk z (count + d.count) d.answer d.answers).0,
          )
          (append-nil _)

    pub sent_by-Delivers :
        (out : List Action × Receiver.Outcome)
        → (d : Delivers (cut s.total_read chunk) z count out) → sent_by (out.0) ≡ sent_by d.answer
    sent_by-Delivers out d =
        rw (d.actions, sent_by-deliveries chunk (cut s.total_read chunk) count d.count d.answer)
          refl

    pub length-Delivers :
        (out : List Action × Receiver.Outcome)
        → (d : Delivers (cut s.total_read chunk) z count out)
        → length (s.written ++ written_by (out.0)) ≡ count + d.count
    length-Delivers out d = rw (written_by-Delivers out d) (
        omega (
          arith,
          length-append s.written (chunks chunk count d.count),
          length-chunks chunk count d.count,
        ))

    received-IsSound :
        (out : List Action × Receiver.Outcome)
        → Delivers (cut s.total_read chunk) z count out
        → IsSound chunk z (received out)
    received-IsSound out d =
        let inside = Delivers-inside out d in
        let (_, acks) = Answers-stamped chunk z (count + d.count) d.answer d.answers in
        let new = written_by-Delivers out d in
        let answers = sent_by-Delivers out d in
        let size = length-Delivers out d in
        record {
          sender_side = SenderSide-written (out.1) _ _ (omega (arith, size)) (omega (arith, size));
          receiver_side = receiving d.after d.goes_on (rw size d.receiving);
          in_order =
              rw (size, new)
                (ap (λ w. w ++ chunks chunk count d.count) sound.in_order
                  ∙ (let here : 0 + count ≡ count = omega arith in
                      let joined = chunks-append chunk 0 count d.count in rw here at joined));
          upto = omega (arith, size);
          acks =
              rw (size, answers)
                (All-append (AckOf chunk z (count + d.count)) _ s.inbound acks (
                  All-map (AckOf chunk z count) (AckOf chunk z (count + d.count)) s.inbound
                    (λ _ a. record {
                      ack = a.ack;
                      kind = a.kind;
                      answers = a.answers;
                      is_ack = a.is_ack;
                      at = a.at;
                      past = omega (arith, a.past);
                    })
                    sound.acks));
        }

    pub turned-IsSound :
        (r : Receiver.Receiver) (out : List Action × Receiver.Outcome)
        → Turned chunk z s out
        → IsSound chunk z (received out)
    unfolding written_by sent_by
    turned-IsSound r out (delivers d) = received-IsSound out d
    turned-IsSound r out (closes file stats e ended_now) =
        let same : s.written ++ [] ≡ s.written = append-nil _ in
        rw (e, same)
          (record {
            sender_side = SenderSide-written _ _ _ (omega arith) sound.upto;
            receiver_side = closed file stats refl ended_now;
            in_order = sound.in_order;
            upto = sound.upto;
            acks = sound.acks;
          })
    turned-IsSound r out (refuses f) =
        let silent_writes : written_by (out.0) ≡ [] = rw f.sends refl in
        let answer : sent_by (out.0) ≡ wire z f.nack ∷ [] = rw f.sends refl in
        let same : s.written ++ written_by (out.0) ≡ s.written = rw silent_writes (append-nil _) in
        record {
          sender_side = SenderSide-written (out.1) _ _ (rw same (omega arith)) (rw same sound.upto);
          receiver_side = receiving f.after f.goes_on (rw same f.receiving);
          in_order = rw same sound.in_order;
          upto = rw same sound.upto;
          acks =
              rw (same, answer)
                (
                  record {
                    ack = f.nack;
                    kind = 3;
                    answers = inr refl;
                    is_ack = f.is_nack;
                    at = refl;
                    past = omega arith;
                  },
                  sound.acks,
                );
        }
