-- ===== src/Net/Finish.antt =====
-- The end of a transfer with src/lib/send_data/read_write_loop_sender.c and
-- src/lib/send_data/read_write_loop_server.c.
use Prim.Native.String.{String}
use linfo1341_project.Common.{
  ℕ, ◌+◌, ◌%◌, ◌<◌, ◌≡◌, refl, sym, ap, subst, ◌∙◌, inl, inr, List, arith, length, length-append,
  replicate, none, Returns-inv,
}
use linfo1341_project.Segment.{Zlib, IsPkt}
use linfo1341_project.Segment.Wire.{wire}
use linfo1341_project.Sender
use linfo1341_project.Sender.Kept.{Ready}
use linfo1341_project.Sender.Whole.{chunks_read}
use linfo1341_project.Sender.Finish.{
  Emptied, LeftNothing, hearing, ending, hearing-Empties, ending-Ended,
}
use linfo1341_project.Receiver
use linfo1341_project.Receiver.Ack.{IsAck, length-wire_ack}
use linfo1341_project.Receiver.Any.{Allocates}
use linfo1341_project.Net.{System, Setup, SenderTurn, sender_turn, Reach, later}
use linfo1341_project.Net.Sound.{chunks, sending, ended}
use linfo1341_project.Net.Delivery.{Reach-IsSound, Reach-complete}
use linfo1341_project.Net.Parting.{Over, hang_up}
use linfo1341_project.Net.Told.{Tells, Reach-IsTold}
use linfo1341_project.Net.CatchUp.{wire_ack-IsBytes, catch_up}

-- The blocks of `malloc` that a round of the sender gets are packets.
pub record Blocks (calls : Sender.Round) : Type 0 where
  pub data_ok : IsPkt calls.data_block
  pub socket_ok : IsPkt calls.socket_block
  pub close_ok : IsPkt calls.close_block

module _ (chunk : ℕ → List ℕ) (z : Zlib) (c : Setup) where
  -- A state further on in which the sender has ended
  pub record Finishes (s : System) : Type 0 where
    pub after : System
    pub reached : Reach chunk z c after
    pub file : List (String × ℕ)
    pub ended : after.sender ≡ Sender.returned Sender.terminated file
    pub total : after.total_read ≡ s.total_read

  -- A state further on in which both loops have ended, and the output has all that was read.
  pub record Completes (s : System) : Type 0 where
    pub over : Over chunk z c s
    pub complete : over.after.written ≡ chunks chunk 0 s.total_read

  module _ (nulls : c.window ≡ replicate 31 none) (calls : Sender.Round)
      (blocks : Blocks calls) where
    ending-SenderTurn : (s : System) → SenderTurn chunk z s (ending calls)
    ending-SenderTurn s = record {
      polled = omega arith;
      feeds = record { block_ok = blocks.data_ok; sends = omega arith; input = λ _. inl refl };
      close_ok = blocks.close_ok;
      listens = λ e. cc e;
    }

    hearing-SenderTurn :
        (s : System) (t : Tells chunk z s.inbound (length s.written))
        → SenderTurn chunk z s (hearing calls (wire z t.ack))
    hearing-SenderTurn s t =
        let ten = length-wire_ack z 2 (length s.written % 256) t.ack t.is_ack (inl refl) in
        record {
          polled = omega arith;
          feeds = record { block_ok = blocks.data_ok; sends = omega arith; input = λ e. cc e };
          close_ok = blocks.close_ok;
          listens = λ _. record {
            block_ok = blocks.socket_ok;
            room = omega (arith, length-append (wire z t.ack) (replicate 518 0));
            is_bytes = wire_ack-IsBytes z (length s.written % 256) t.ack t.is_ack;
            hears = inl (
              _,
              record {
                place = t.place;
                at = t.at;
                alive = omega arith;
                rest = replicate 518 0;
                bytes = refl;
              },
            );
          };
        }

    -- The round at the end of the input
    end_now :
        (s : System) (b : Sender.Sender)
        → Reach chunk z c s
        → s.sender ≡ Sender.running b
        → Emptied chunk z calls blocks.close_ok s.total_read b
        → Finishes s
    end_now s b r e empty =
        let (out, ran, (file, over)) =
          Returns-inv (ending-Ended chunk z calls blocks.close_ok s.total_read b empty) in
        let reached = later r (sender_turn (ending calls) b out e (ending-SenderTurn s) ran refl) in
        let same : s.total_read + chunks_read chunk z (ending calls) b ≡ s.total_read =
          ground arith in
        record { after = _; reached = reached; file = file; ended = over; total = same }

    same_total-Finishes : (s t : System) → t.total_read ≡ s.total_read → Finishes t → Finishes s
    same_total-Finishes s t total f = record {
      after = f.after;
      reached = f.reached;
      file = f.file;
      ended = f.ended;
      total = f.total ∙ total;
    }

    LeftNothing-Finishes :
        (t : System) (out : List (List ℕ) × Sender.Outcome)
        → Reach chunk z c t
        → t.sender ≡ out.1
        → LeftNothing chunk z calls blocks.close_ok t.total_read out
        → Finishes t
    LeftNothing-Finishes t out r e (inl (file, over)) = record {
      after = t;
      reached = r;
      file = file;
      ended = e ∙ over;
      total = refl;
    }
    LeftNothing-Finishes t out r e (inr (b, goes, empty)) = end_now t b r (e ∙ goes) empty

    -- All is written, so the acknowledgement of all is on the link.
    written-Finishes :
        (s : System) (a : Sender.Sender) (told : Tells chunk z s.inbound (length s.written))
        (base : ℕ)
        → Reach chunk z c s
        → s.sender ≡ Sender.running a
        → length s.written ≡ s.total_read
        → Ready chunk z base base s.total_read a
        → Finishes s
    written-Finishes s a told base r e all q =
        let is_ack : IsAck 2 (s.total_read % 256) told.ack =
          subst (λ n. IsAck 2 (n % 256) told.ack) all told.is_ack in
        let (out, ran, over) = Returns-inv (
          hearing-Empties chunk z calls blocks.close_ok s.total_read told.ack is_ack
            blocks.socket_ok q.base q.xs a q.sending q.total) in
        let reached = later r (
          sender_turn (hearing calls (wire z told.ack)) a out e (hearing-SenderTurn s told) ran
            refl) in
        let none_new : s.total_read + 0 ≡ s.total_read = omega arith in
        same_total-Finishes s _ none_new (
          LeftNothing-Finishes _ out reached refl
            (subst (λ n. LeftNothing chunk z calls blocks.close_ok n out) (sym none_new) over))

    sender-Finishes :
        (s : System) (a : Sender.Sender) (answers : Receiver.Round)
        → Reach chunk z c s
        → s.sender ≡ Sender.running a
        → 0 < s.total_read
        → Allocates answers
        → Finishes s
    sender-Finishes s a answers r e some_read works =
        let u = catch_up chunk z c answers nulls works s.total_read s a r e (omega arith) in
        let told = Reach-IsTold chunk z c nulls u.after u.reached (omega (arith, u.all, u.total)) in
        elim (Reach-IsSound chunk z c nulls u.after u.reached).sender_side [
          | ended file f all old ↦ cc (u.runs, f)
          | sending b base f ready from old ↦
              let same : b ≡ a = cc (u.runs, f) in
              same_total-Finishes s u.after u.total (
                written-Finishes u.after a told base u.reached u.runs u.all
                  (subst (Ready chunk z base base u.after.total_read) same ready))
        ]

    Over-Completes : (s t : System) → t.total_read ≡ s.total_read → Over chunk z c t → Completes s
    Over-Completes s t total o = record {
      over = record {
        after = o.after;
        reached = o.reached;
        sender_file = o.sender_file;
        terminated = o.terminated;
        receiver_file = o.receiver_file;
        disconnected = o.disconnected;
        total = o.total ∙ total;
      };
      complete =
          Reach-complete chunk z c nulls o.after o.sender_file o.reached (inl o.terminated)
          ∙ ap (λ n. chunks chunk 0 n) (o.total ∙ total);
    }

    pub Reach-finishes :
        (s : System) (answers : Receiver.Round)
        → Reach chunk z c s
        → 0 < s.total_read
        → Allocates answers
        → Completes s
    Reach-finishes s answers r some_read works =
        elim (Reach-IsSound chunk z c nulls s r).sender_side [
          | sending a base e ready from old ↦
              let f = sender-Finishes s a answers r e some_read works in
              Over-Completes s f.after f.total
                (hang_up chunk z c nulls f.after answers f.file works f.reached f.ended)
          | ended file e all old ↦
              Over-Completes s s refl (hang_up chunk z c nulls s answers file works r e)
        ]
