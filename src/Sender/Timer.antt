-- ===== src/Sender/Timer.antt =====
-- The timer of the oldest packet in src/lib/send_data/read_write_loop_sender.c.
use linfo1341_project.Common.{
  ℕ, suc, ◌+◌, ◌/◌, ◌%◌, ◌^◌, ◌<◌, ◌≡◌, refl, true, false, inl, Option, none, some, List, ◌∷◌,
  arith, ◌==◌, ltb, length, Returns, returns, Returns-bind,
}
use linfo1341_project.Segment.{Pkt, Zlib, pkt_get_seqnum, pkt_get_timestamp}
use linfo1341_project.Queue.Model.{position_from}
use linfo1341_project.Queue.Refine.{peek_refines}
use linfo1341_project.Queue.{get}
use linfo1341_project.Queue.Get.{get_refines}
use linfo1341_project.Sender.{Sender, Round, Outcome, and_then, timeout}
use linfo1341_project.Sender.Loop.{resend_loop, check_timers}
use linfo1341_project.Sender.Window.{InFlight, Sending}
use linfo1341_project.Sender.Kept.{Ready, Kept, Resent, resend-Resent}
use linfo1341_project.Sender.Resend.{resend_loop-Kept}
use linfo1341_project.Sender.Fresh.{SendsFirst}

module _ (chunk : ℕ → List ℕ) (z : Zlib) (round : Round) where
  Resent-SendsFirst :
      (low high next n : ℕ) {first : Option (List (List ℕ) × Outcome)}
      {rest : Sender → Option (List (List ℕ) × Outcome)}
      → Returns (Resent chunk z low high next n) first
      → ((s : Sender)
          → Ready chunk z low high next s
          → Returns (Kept chunk z low high next) (rest s))
      → Returns (SendsFirst chunk z n) (and_then first rest)
  Resent-SendsFirst low high next n (returns p) more = rw p.kept.goes_on (
      Returns-bind (more p.kept.after p.kept.ready) λ out l.
        returns
          (record { bytes = p.bytes; carried = p.carried; rest = out.0; at = rw p.sends refl }))

  module _ (base : ℕ) (x : Pkt) (xs : List Pkt) (s : Sender) (v : Sending chunk base (x ∷ xs) s)
      (late : (x.timestamp + 60) % 2 ^ 32 < round.clock_time) where
    abbrev next : ℕ
    next = base + length (x ∷ xs)

    abbrev ready : Ready chunk z base base next s
    ready = record {
      base = base;
      xs = x ∷ xs;
      sending = v;
      from = omega arith;
      upto = omega arith;
      total = refl;
    }

    is_first :
        get s.window x.seqnum none
        ≡ some (some ((s.window.ptr_pop + 0) % 31, ((s.window.ptr_pop + 0) % 31 + 1) % 31))
    unfolding position_from pkt_get_seqnum
    is_first =
        let found : (x.seqnum == x.seqnum) ≡ true = ground arith in
        rw (get_refines s.window x.seqnum (x ∷ xs) v.holds, found) refl

    -- The first round of the loop finds the oldest packet, and sends it again.
    first_round :
        (fuel : ℕ)
        → ((support : ℕ) (t : Sender)
            → support < 31
            → Ready chunk z base base next t
            → Returns
                (Kept chunk z base base next)
                (resend_loop z round fuel 1 ((x.seqnum + 1) % 31) (some support) x.seqnum false t))
        → Returns
            (SendsFirst chunk z base)
            (resend_loop z round (suc fuel) 0 x.seqnum none x.seqnum true s)
    unfolding resend_loop pkt_get_seqnum pkt_get_timestamp
    first_round fuel others =
        let found : (x.seqnum == x.seqnum) ≡ true = ground arith in
        let over : ltb ((x.timestamp + timeout / 20) % 2 ^ 32) round.clock_time ≡ true =
          ground arith in
        let here : base + 0 ≡ base = omega arith in
        let index = (s.window.ptr_pop + 0) % 31 in
        let sends =
          resend-Resent chunk z round base base next s ready 0 x (round.resend_time 0) (omega arith)
            refl in
        rw (is_first, v.holds.at 0 (omega arith), found, over)
          (Resent-SendsFirst base base next base (rw here at sends)
            (λ t u. others ((index + 1) % 31) t (omega arith) u))

    -- From the invariant of the sender, when the timer of the oldest packet in flight has
    -- expired (its timestamp plus 60 milliseconds, modulo 2^32, is before the clock), the first
    -- datagram of the loop that sends packets again has the chunk of that packet: the chunk that
    -- holds the window back goes out again, and the loop ends without a fault.
    pub check_timers-resends : Returns (SendsFirst chunk z base) (check_timers z round s)
    unfolding check_timers pkt_get_seqnum InFlight
    check_timers-resends =
        let number : x.seqnum ≡ base % 256 = v.in_flight.0.numbered in
        let others =
          resend_loop-Kept chunk z round base next 32 1 ((base % 256 + 1) % 31) (omega arith)
            (inl (omega arith)) in
        rw (peek_refines s.window (x ∷ xs) v.holds) (first_round 32 (rw number others))
