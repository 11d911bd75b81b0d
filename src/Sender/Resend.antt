-- ===== src/Sender/Resend.antt =====
-- The loop of src/lib/send_data/read_write_loop_sender.c that sends old packets again: it ends, and
-- keeps the window.
use linfo1341_project.Common.{
  ℕ, zero, suc, ◌+◌, ◌/◌, ◌%◌, ◌^◌, ◌<◌, ◌≡◌, ◌≢◌, ap, ◌∙◌, Bool, true, false, not, ◌&&◌,
  Bool-cases, Option-cases, ◌⊎◌, inl, inr, Option, none, some, List, arith, ◌==◌, ltb, get_elem?,
  Returns,
}
use native.Mathlib.Decide.{ℕ_discrete}
use linfo1341_project.Segment.{Zlib, pkt_get_seqnum, pkt_get_timestamp}
use linfo1341_project.Queue.{first_index}
use linfo1341_project.Queue.Refine.{peek_refines}
use linfo1341_project.Queue.Search.{get-Hit}
use linfo1341_project.Sender.{Sender, Round, Outcome, timeout}
use linfo1341_project.Sender.Loop.{resend_loop, check_timers}
use linfo1341_project.Sender.Kept.{Ready, Kept, stays, and_then-Kept, resend-Kept, InFlight-at}

-- With the oldest packet at number `first`, the numbers from `seqnum` to 30 are left to look up, and
-- then 0 at most.
abbrev pub Enough : (first fuel seqnum : ℕ) → Type 0
Enough first fuel seqnum = (31 < seqnum + fuel) ⊎ ((first < 31) × (seqnum ≡ 0) × (0 < fuel))

next-Enough :
    (base fuel seqnum j : ℕ)
    → seqnum ≡ (base + j) % 256
    → j < 31
    → base % 256 ≢ seqnum
    → seqnum < 31
    → Enough (base % 256) (suc fuel) seqnum
    → Enough (base % 256) fuel ((seqnum + 1) % 31)
next-Enough base fuel seqnum j e inside other small (inl h) = elim (ℕ_discrete seqnum 30) [
  | yes p ↦ inr (omega arith, omega arith, omega arith)
  | no p ↦ inl (omega arith)
]
next-Enough base fuel seqnum j e inside other small (inr h) = absurd (omega arith)

module _ (chunk : ℕ → List ℕ) (z : Zlib) (round : Round) (base next : ℕ) where
  abbrev pub Goes : Option (List (List ℕ) × Outcome) → Type 0
  Goes = Returns (Kept chunk z base base next)

  -- The rest of the loop, from any state that keeps the window
  abbrev pub Rest : (fuel k seqnum : ℕ) → Type 0
  Rest fuel k seqnum =
      (support : ℕ) (t : Sender)
      → support < 31
      → Ready chunk z base base next t
      → Goes (resend_loop z round fuel k seqnum (some support) (base % 256) false t)

  -- One round of the loop: the packet goes out again if its time has come.
  visit :
      (fuel k seqnum : ℕ) (support : Option ℕ) (first_time : Bool) (s : Sender)
      → Ready chunk z base base next s
      → first_index s.window support < 31
      → ((j : ℕ)
          → j < 31
          → seqnum ≡ (base + j) % 256
          → (base % 256 == seqnum && not first_time) ≡ false
          → Rest fuel (k + 1) ((seqnum + 1) % 31))
      → Goes (resend_loop z round (suc fuel) k seqnum support (base % 256) first_time s)
  unfolding resend_loop pkt_get_seqnum pkt_get_timestamp
  visit fuel k seqnum support first_time s r inside rest =
      elim (get-Hit s.window seqnum r.xs r.sending.holds support inside) [
        | inl none_left ↦ rw none_left (stays chunk z base base next s r)
        | inr hit ↦
            let index = (s.window.ptr_pop + hit.place) % 31 in
            let slot = r.sending.holds.at hit.place hit.inside ∙ ap some hit.at in
            let c =
              (InFlight-at chunk z r.base hit.place r.xs hit.pkt r.sending.in_flight hit.at).0 in
            let number : seqnum ≡ (base + hit.place) % 256 =
              omega (arith, hit.numbered, c.numbered, r.from, r.upto) in
            elim (Bool-cases (base % 256 == hit.pkt.seqnum && not first_time)) [
              | inl back ↦ rw (hit.result, slot, back) (stays chunk z base base next s r)
              | inr on ↦
                  let more =
                    rest hit.place hit.inside number (rw hit.numbered at on) ((index + 1) % 31) in
                  elim (Bool-cases
                    (ltb ((hit.pkt.timestamp + timeout / 20) % 2 ^ 32) round.clock_time)) [
                      | inl late ↦
                          rw (hit.result, slot, on, late)
                            (and_then-Kept chunk z base base next
                              (resend-Kept chunk z round base base next s r hit.place hit.pkt
                                (round.resend_time k) hit.inside hit.at)
                              (λ t u. more t (omega arith) u))
                      | inr early ↦ rw (hit.result, slot, on, early) (more s (omega arith) r)
                    ]
            ]
      ]

  -- The loop on the numbers modulo 31 ends, and keeps what is in flight.
  pub resend_loop-Kept :
      (fuel k seqnum : ℕ) → seqnum < 31 → Enough (base % 256) fuel seqnum → Rest fuel k seqnum
  unfolding first_index
  resend_loop-Kept zero k seqnum small (inl h) support s inside r = absurd (omega arith)
  resend_loop-Kept zero k seqnum small (inr h) support s inside r = absurd (omega arith)
  resend_loop-Kept (suc fuel) k seqnum small enough support s inside r =
      visit fuel k seqnum (some support) false s r inside λ j near number on.
        let differs : base % 256 ≢ seqnum = ground arith in
        resend_loop-Kept fuel (k + 1) ((seqnum + 1) % 31) (omega arith)
          (next-Enough base fuel seqnum j number near differs small enough)

  -- From the invariant of the sender, whatever the clock says, the loop that sends packets again
  -- ends within the 33 rounds of its fuel and without a fault: what goes out are chunks of the
  -- window, and the invariant is kept with the same chunks in flight.
  pub check_timers_returns :
      (s : Sender) → Ready chunk z base base next s → Goes (check_timers z round s)
  unfolding check_timers pkt_get_seqnum first_index
  check_timers_returns s r = elim (Option-cases (get_elem? r.xs 0)) [
    | inl e ↦ rw (peek_refines s.window r.xs r.sending.holds, e) (stays chunk z base base next s r)
    | inr (x, e) ↦
        let c = (InFlight-at chunk z r.base 0 r.xs x r.sending.in_flight e).0 in
        let number : x.seqnum ≡ base % 256 = omega (arith, c.numbered, r.from, r.upto) in
        rw (peek_refines s.window r.xs r.sending.holds, e, number)
          (visit 32 0 (base % 256) none true s r r.sending.holds.pop_in (λ j near same on.
            resend_loop-Kept 32 1 ((base % 256 + 1) % 31) (omega arith) (inl (omega arith))))
  ]
