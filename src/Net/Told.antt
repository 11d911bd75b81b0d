-- ===== src/Net/Told.antt =====
-- What src/lib/send_data/read_write_loop_server.c has told
-- src/lib/send_data/read_write_loop_sender.c of what it has written.
use linfo1341_project.Common.{
  ℕ, replicate, none, ◌+◌, ◌%◌, ◌<◌, ◌≡◌, refl, sym, ap, subst, ◌∙◌, some, List, ◌++◌, arith,
  length, append-nil, get_elem?, get_elem?-append-tail, Returns-at,
}
use native.Mathlib.Decide.{dec_lt}
use linfo1341_project.Segment.{Pkt, Zlib}
use linfo1341_project.Segment.Wire.{wire}
use linfo1341_project.Receiver
use linfo1341_project.Receiver.{Action, sent, written_by, sent_by}
use linfo1341_project.Receiver.Ack.{IsAck}
use linfo1341_project.Receiver.Deliver.{Receiving}
use linfo1341_project.Net.{
  Datagram, System, Setup, begin, Step, sender_turn, receiver_turn, Reach, here, later, stamped,
}
use linfo1341_project.Net.Sound.{cut, receiving, closed, IsSound}
use linfo1341_project.Net.Turn.{Turned, refuses, delivers, closes, receiver-Turned}
use linfo1341_project.Net.Received.{sent_by-Delivers, length-Delivers}
use linfo1341_project.Net.Delivery.{Reach-IsSound}

module _ (chunk : ℕ → List ℕ) (z : Zlib) where
  -- The history has an acknowledgement of the first `count` chunks, sent when these were written.
  pub record Tells (history : List Datagram) (count : ℕ) : Type 0 where
    pub place : ℕ
    pub ack : Pkt
    pub at : get_elem? history place ≡ some (record { bytes = wire z ack; sent_at = count })
    pub is_ack : IsAck 2 (count % 256) ack

  Tells-later :
      (new history : List Datagram) (count : ℕ) → Tells history count → Tells (new ++ history) count
  Tells-later new history count l = record {
    place = length new + l.place;
    ack = l.ack;
    at = get_elem?-append-tail new history l.place ∙ l.at;
    is_ack = l.is_ack;
  }

  abbrev pub IsTold : System → Type 0
  IsTold s = 0 < length s.written → Tells s.inbound (length s.written)

  -- What is told of after a round of the receiver
  abbrev ToldAfter : System → List Action → Type 0
  ToldAfter s actions =
      let written = s.written ++ written_by actions in
      0 < length written
      → Tells (stamped (length written) (sent_by actions) ++ s.inbound) (length written)

  unwritten-ToldAfter :
      (s : System) (actions : List Action)
      → length (s.written ++ written_by actions) ≡ length s.written
      → IsTold s
      → ToldAfter s actions
  unwritten-ToldAfter s actions same told some_written =
      Tells-later (stamped _ (sent_by actions)) s.inbound _
        (subst (Tells s.inbound) (sym same) (told (omega arith)))

  Turned-ToldAfter :
      (s : System)
      → IsSound chunk z s
      → (out : List Action × Receiver.Outcome) → Turned chunk z s out
      → IsTold s
      → ToldAfter s (out.0)
  unfolding written_by sent_by
  Turned-ToldAfter s sound out (refuses f) told =
      unwritten-ToldAfter s (out.0) (rw f.sends (ap length (append-nil s.written))) told
  Turned-ToldAfter s sound out (closes file stats e ended_now) told =
      unwritten-ToldAfter s (out.0) (rw e (ap length (append-nil s.written))) told
  Turned-ToldAfter s sound out (delivers d) told = elim (dec_lt 0 d.count) [
    | no none_new ↦
        unwritten-ToldAfter s (out.0) (omega (arith, length-Delivers chunk z s sound out d)) told
    | yes some_new ↦ λ _.
        let (ack, is_ack, answer) = d.acked some_new in
        record {
          place = 0;
          ack = ack;
          at = rw (sent_by-Delivers chunk z s sound out d, answer) refl;
          is_ack = rw (length-Delivers chunk z s sound out d) is_ack;
        }
  ]

  Step-IsTold : {s t : System} → Step chunk z s t → IsSound chunk z s → IsTold s → IsTold t
  Step-IsTold {s} (sender_turn round a out e turn ran t_is) sound told = rw t_is told
  Step-IsTold {s} (receiver_turn round r out e turn ran t_is) sound told =
      elim sound.receiver_side [
        | closed file stats f g ↦ cc (e, f)
        | receiving q f v ↦
            let same : q ≡ r = cc (e, f) in
            let ready : Receiving (cut s.total_read chunk) (length s.written) r =
              subst (Receiving (cut s.total_read chunk) (length s.written)) same v in
            rw t_is (
              Turned-ToldAfter s sound out
                (Returns-at (receiver-Turned chunk z s round r sound.sender_side ready turn) ran)
                told)
      ]

  begin-IsTold : (c : Setup) → IsTold (begin c)
  unfolding begin
  begin-IsTold c some_written = absurd (omega arith)

  pub Reach-IsTold :
      (c : Setup) (nulls : c.window ≡ replicate 31 none) (s : System) → Reach chunk z c s → IsTold s
  Reach-IsTold c nulls _ here = begin-IsTold c
  Reach-IsTold c nulls _ (later r step) =
      Step-IsTold step (Reach-IsSound chunk z c nulls _ r) (Reach-IsTold c nulls _ r)
