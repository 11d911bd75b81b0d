-- ===== src/Net/Parting.antt =====
-- The packet with which src/lib/send_data/read_write_loop_sender.c ends the transfer, on its way to
-- src/lib/send_data/read_write_loop_server.c.
use Prim.Native.String.{String}
use linfo1341_project.Common.{
  ℕ, replicate, none, ◌≡◌, refl, sym, ap, subst, ◌∙◌, some, List, [], ◌∷◌, ◌++◌, arith, length,
  length-append, get_elem?, Returns-at,
}
use linfo1341_project.Segment.{Pkt, Zlib}
use linfo1341_project.Segment.Wire.{wire}
use linfo1341_project.Sender
use linfo1341_project.Sender.Kept.{Ready}
use linfo1341_project.Sender.Closing.{goes, ends}
use linfo1341_project.Receiver
use linfo1341_project.Receiver.{written_by}
use linfo1341_project.Receiver.Closing.{IsClosing, step-closed}
use linfo1341_project.Receiver.Step.{Arrives}
use linfo1341_project.Receiver.Any.{Allocates}
use linfo1341_project.Net.{
  Datagram, System, Setup, begin, intact, ReceiverTurn, Step, sender_turn, receiver_turn, Reach,
  here, later, stamped,
}
use linfo1341_project.Net.Sound.{cut, sending, ended, receiving, closed, IsSound}
use linfo1341_project.Net.Run.{sender-Steps}
use linfo1341_project.Net.Delivery.{Reach-IsSound}
use linfo1341_project.Net.Progress.{silent-Succeeds, hands_over, Passes-hands_over}

stamped_last :
    (n : ℕ) (earlier : List (List ℕ)) (last : List ℕ) (history : List Datagram)
    → get_elem? (stamped n (earlier ++ (last ∷ [])) ++ history) (length earlier)
      ≡ some (record { bytes = last; sent_at = n })
stamped_last n [] last history = refl
stamped_last n (x ∷ earlier) last history = stamped_last n earlier last history

module _ (chunk : ℕ → List ℕ) (z : Zlib) where
  -- The packet that closes the connection was sent when all was written.
  pub record Parting (s : System) : Type 0 where
    pub place : ℕ
    pub pkt : Pkt
    pub at :
        get_elem? s.outbound place
        ≡ some (record { bytes = wire z pkt; sent_at = length s.written })
    pub closing : IsClosing (length s.written) pkt

  abbrev IsParted : System → Type 0
  IsParted s =
      (file : List (String × ℕ)) → s.sender ≡ Sender.returned Sender.terminated file → Parting s

  Step-IsParted :
      {s t : System}
      → Step chunk z s t
      → IsSound chunk z s
      → IsSound chunk z t
      → IsParted s
      → IsParted t
  Step-IsParted {s} (sender_turn round a out e turn ran t_is) sound _ parted =
      elim sound.sender_side [
        | ended file f all old ↦ cc (e, f)
        | sending b base f r from old ↦
            let same : b ≡ a = cc (e, f) in
            let ready : Ready chunk z base base s.total_read a =
              subst (Ready chunk z base base s.total_read) same r in
            rw t_is λ file over.
              elim (Returns-at
                (sender-Steps chunk z s round a base ready from sound.upto sound.acks turn) ran) [
                  | goes k ↦ let runs = k.goes_on in cc (runs, over)
                  | ends l ↦ record {
                    place = length l.earlier;
                    pkt = l.pkt;
                    at =
                        rw l.sends
                          (stamped_last (length s.written) l.earlier (wire z l.pkt) s.outbound);
                    closing =
                        subst (λ n. IsClosing n l.pkt) (omega (arith, l.acked, sound.upto))
                          l.closing;
                  }
                ]
      ]
  Step-IsParted {s} {t} (receiver_turn round r out e turn ran t_is) sound after parted =
      λ file over.
        let before : s.sender ≡ Sender.returned Sender.terminated file =
          sym (ap (λ (x : System). x.sender) t_is) ∙ over in
        let p = parted file before in
        elim sound.sender_side [
          | sending b base f q from old ↦ cc (before, f)
          | ended stats f all old ↦
              let grown : length t.written ≡ length (s.written ++ written_by (out.0)) =
                ap (λ (x : System). length x.written) t_is in
              let read : t.total_read ≡ s.total_read = ap (λ (x : System). x.total_read) t_is in
              let count : length t.written ≡ length s.written =
                omega (arith, after.upto, length-append s.written (written_by (out.0))) in
              let history : t.outbound ≡ s.outbound = ap (λ (x : System). x.outbound) t_is in
              record {
                place = p.place;
                pkt = p.pkt;
                at = rw (history, count) p.at;
                closing = subst (λ n. IsClosing n p.pkt) (sym count) p.closing;
              }
        ]

  begin-IsParted : (c : Setup) → IsParted (begin c)
  unfolding begin
  begin-IsParted c file over = cc over

  pub Reach-IsParted :
      (c : Setup) (nulls : c.window ≡ replicate 31 none) (s : System)
      → Reach chunk z c s
      → IsParted s
  Reach-IsParted c nulls _ here = begin-IsParted c
  Reach-IsParted c nulls _ (later r step) =
      Step-IsParted step (Reach-IsSound chunk z c nulls _ r)
        (Reach-IsSound chunk z c nulls _ (later r step)) (Reach-IsParted c nulls _ r)

  -- A state further on in which both loops have ended.
  pub record Over (c : Setup) (s : System) : Type 0 where
    pub after : System
    pub reached : Reach chunk z c after
    pub sender_file : List (String × ℕ)
    pub terminated : after.sender ≡ Sender.returned Sender.terminated sender_file
    pub receiver_file : List (String × ℕ)
    pub disconnected : after.receiver ≡ Receiver.returned Receiver.disconnected receiver_file
    pub total : after.total_read ≡ s.total_read

  -- The packet arrives at a receiver that runs still.
  pub hang_up :
      (c : Setup) (nulls : c.window ≡ replicate 31 none) (s : System) (calls : Receiver.Round)
      (file : List (String × ℕ))
      → Allocates calls
      → Reach chunk z c s
      → s.sender ≡ Sender.returned Sender.terminated file
      → Over c s
  hang_up c nulls s calls file works r e = elim (Reach-IsSound chunk z c nulls s r).receiver_side [
    | closed stats _ f _ ↦ record {
      after = s;
      reached = r;
      sender_file = file;
      terminated = e;
      receiver_file = stats;
      disconnected = f;
      total = refl;
    }
    | receiving q f v ↦
        let p = Reach-IsParted c nulls s r file e in
        let d : Datagram = record { bytes = wire z p.pkt; sent_at = length s.written } in
        let round = hands_over chunk z calls s d in
        let ok = Passes-hands_over chunk z calls s d works in
        let arrives : Arrives z p.pkt round = record {
          polled = omega arith;
          event = omega arith;
          received = refl;
          rest = [];
          bytes = refl;
        } in
        let ran =
          step-closed (cut s.total_read chunk) z round ok (length s.written) q p.pkt v p.closing
            arrives in
        let turn : ReceiverTurn chunk z s round q = record {
          works = ok;
          succeeds = λ out e. silent-Succeeds round _ _ out ran e (omega arith);
          polled = omega arith;
          arrival =
              intact d (omega arith) refl (record {
                place = p.place;
                at = p.at;
                alive = omega arith;
                rest = [];
                bytes = refl;
              });
        } in
        record {
          after = _;
          reached = later r (receiver_turn round q _ f turn ran refl);
          sender_file = file;
          terminated = e;
          receiver_file = _;
          disconnected = refl;
          total = refl;
        }
  ]
