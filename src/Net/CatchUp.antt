-- ===== src/Net/CatchUp.antt =====
-- How src/lib/send_data/read_write_loop_server.c catches up with all that
-- src/lib/send_data/read_write_loop_sender.c has read.
use linfo1341_project.Common.{
  ℕ, zero, suc, ◌+◌, ◌*◌, ◌≤◌, ◌≡◌, refl, ◌∙◌, false, List, ◌∷◌, ◌++◌, arith, length, replicate,
  none, ◌==◌, ◌&&◌, ltb,
}
use native.Mathlib.Decide.{dec_lt}
use linfo1341_project.Common.Memory.{IsBytes, host32, net32, append-IsBytes, zeros-IsBytes}
use linfo1341_project.Segment.{Pkt, Zlib, ptype_data}
use linfo1341_project.Segment.Wire.{wire, header_checksum}
use linfo1341_project.Sender
use linfo1341_project.Receiver
use linfo1341_project.Receiver.Ack.{IsAck}
use linfo1341_project.Receiver.Any.{Allocates}
use linfo1341_project.Net.{System, Setup, Reach, later}
use linfo1341_project.Net.Sound.{receiving, closed}
use linfo1341_project.Net.Delivery.{Reach-IsSound}
use linfo1341_project.Net.Progress.{Reach-advance}

module _ (z : Zlib) (number : ℕ) (ack : Pkt) (is_ack : IsAck 2 number ack) where
  wire_ack_lem :
      wire z ack
      ≡ ((ack.type * 64 + ack.tr * 32 + ack.window) ∷ ack.seqnum ∷ host32 ack.timestamp)
        ++ net32 (header_checksum z ack)
  unfolding wire
  wire_ack_lem =
      let no_data : (ack.type == ptype_data) ≡ false = ground (arith, is_ack.kind) in
      let empty : (ack.tr == 0 && ltb 0 ack.length) ≡ false = ground (arith, is_ack.no_payload) in
      rw (no_data, empty) refl

  pub wire_ack-IsBytes : IsBytes (wire z ack ++ replicate 518 0)
  wire_ack-IsBytes =
      let v = is_ack.coherent.pkt_fits in
      append-IsBytes (wire z ack) (replicate 518 0)
        (rw wire_ack_lem (omega (arith, v.type_fits, v.tr_fits, v.window_fits, v.seqnum_fits)))
        (zeros-IsBytes 518)

module _ (chunk : ℕ → List ℕ) (z : Zlib) (c : Setup) where
  -- A state further on, with the sender as it was and all written that was read.
  pub record CaughtUp (s : System) (a : Sender.Sender) : Type 0 where
    pub after : System
    pub reached : Reach chunk z c after
    pub runs : after.sender ≡ Sender.running a
    pub total : after.total_read ≡ s.total_read
    pub all : length after.written ≡ after.total_read

  pub catch_up :
      (calls : Receiver.Round)
      → c.window ≡ replicate 31 none
      → Allocates calls
      → (fuel : ℕ) (s : System) (a : Sender.Sender) → Reach chunk z c s
      → s.sender ≡ Sender.running a
      → s.total_read ≤ length s.written + fuel
      → CaughtUp s a
  catch_up calls nulls works zero s a r e enough = record {
    after = s;
    reached = r;
    runs = e;
    total = refl;
    all = omega (arith, (Reach-IsSound chunk z c nulls s r).upto);
  }
  catch_up calls nulls works (suc fuel) s a r e enough =
      elim (dec_lt (length s.written) s.total_read) [
        | no none_left ↦ record {
          after = s;
          reached = r;
          runs = e;
          total = refl;
          all = omega (arith, (Reach-IsSound chunk z c nulls s r).upto);
        }
        | yes left ↦ elim (Reach-IsSound chunk z c nulls s r).receiver_side [
          | closed file stats f g ↦ cc (e, g)
          | receiving q f v ↦
              let (t, step, more, same, total) =
                Reach-advance chunk z c nulls s q calls r f left works in
              let next =
                catch_up calls nulls works fuel t a (later r step) (same ∙ e) (omega arith) in
              record {
                after = next.after;
                reached = next.reached;
                runs = next.runs;
                total = next.total ∙ total;
                all = next.all;
              }
        ]
      ]
