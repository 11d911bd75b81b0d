-- ===== src/Queue/Search.antt =====
-- `get` of src/lib/queue/queue.c from any place of the ring on.
use linfo1341_project.Common.{
  ℕ, zero, suc, ◌+◌, ◌-◌, ◌%◌, ◌≤◌, ◌<◌, ◌≡◌, ap, ◌∙◌, Bool, true, false, not, ◌&&◌, Option, none,
  some, List, arith, ◌==◌, Bool-cases, Option-cases, inl, inr, ◌⊎◌, Returns-inv, get_elem?, ==_iff,
  Returns, returns,
}
use native.Mathlib.Decide.{ℕ_discrete}
use linfo1341_project.Segment.{Pkt, pkt_get_seqnum}
use linfo1341_project.Queue.{Queue, get_loop, first_index, get}
use linfo1341_project.Queue.Model.{Holds}

-- What a search can give: nothing, or a slot whose packet has the sequence number.
pub data Found (list : Queue) (seqnum : ℕ) (xs : List Pkt) : Option ℕ → Type 0 where
  missing : Found list seqnum xs none
  found :
      (j : ℕ) (x : Pkt)
      → get_elem? xs j ≡ some x
      → j < 31
      → x.seqnum ≡ seqnum
      → Found list seqnum xs (some ((list.ptr_pop + j) % 31))

module _ (list : Queue) (seqnum : ℕ) (xs : List Pkt) (h : Holds list xs) where
  -- One round of the loop, at place `j` of the window
  visit :
      (fuel j : ℕ) (first_time : Bool)
      → j < 31
      → ((not first_time && (list.ptr_pop + j) % 31 == list.ptr_pop) ≡ false
          → Returns
              (Found list seqnum xs)
              (get_loop fuel list seqnum false (((list.ptr_pop + j) % 31 + 1) % 31)))
      → Returns
          (Found list seqnum xs)
          (get_loop (suc fuel) list seqnum first_time ((list.ptr_pop + j) % 31))
  unfolding get_loop pkt_get_seqnum
  visit fuel j first_time small next = elim (Option-cases (get_elem? xs j)) [
    | inl e ↦ rw (h.at j small ∙ ap some e) (returns missing)
    | inr (x, e) ↦
        let here = h.at j small ∙ ap some e in
        elim (Bool-cases (x.seqnum == seqnum)) [
          | inl t ↦ rw (here, t) (returns (found j x e small ((==_iff _ _).0 t)))
          | inr t ↦ elim (Bool-cases (not first_time && (list.ptr_pop + j) % 31 == list.ptr_pop)) [
            | inl stop ↦ rw (here, t, stop) (returns missing)
            | inr on ↦ rw (here, t, on) (next on)
          ]
        ]
  ]

  -- Once past its first slot, the loop ends when it is back at the oldest packet.
  loop-Found :
      (fuel c : ℕ)
      → 0 < c
      → c ≤ 31
      → 31 < c + fuel
      → Returns (Found list seqnum xs) (get_loop fuel list seqnum false ((list.ptr_pop + c) % 31))
  loop-Found zero c low high f = absurd (omega arith)
  loop-Found (suc fuel) c low high f = elim (ℕ_discrete c 31) [
    | yes e ↦
        let home : (list.ptr_pop + c) % 31 ≡ (list.ptr_pop + 0) % 31 = omega arith in
        let stop : (list.ptr_pop + 0) % 31 ≡ list.ptr_pop = omega (arith, h.pop_in) in
        rw home (visit fuel 0 false (omega arith) (λ on. ground arith))
    | no ne ↦
        let place : ((list.ptr_pop + c) % 31 + 1) % 31 ≡ (list.ptr_pop + suc c) % 31 =
          omega arith in
        visit fuel c false (omega arith)
          (λ _. rw place (loop-Found fuel (suc c) (omega arith) (omega arith) (omega arith)))
  ]

  -- Wherever it begins, `get` ends without a fault, and what it finds is a packet of the window with
  -- the sequence number.
  pub get_loop-Found :
      (support_it : Option ℕ)
      → first_index list support_it < 31
      → Returns (Found list seqnum xs) (get_loop 33 list seqnum true (first_index list support_it))
  get_loop-Found support_it inside =
      let i = first_index list support_it in
      let j = (i + 31 - list.ptr_pop) % 31 in
      let place : i ≡ (list.ptr_pop + j) % 31 = omega (arith, h.pop_in) in
      let next : ((list.ptr_pop + j) % 31 + 1) % 31 ≡ (list.ptr_pop + suc j) % 31 = omega arith in
      rw place (
        visit 32 j true (omega arith)
          (λ _. rw next (loop-Found 32 (suc j) (omega arith) (omega arith) (omega arith))))

  -- A packet of the window with the sequence number, its slot and the slot behind it
  pub record Hit (support_it : Option ℕ) : Type 0 where
    pub place : ℕ
    pub pkt : Pkt
    pub at : get_elem? xs place ≡ some pkt
    pub inside : place < 31
    pub numbered : pkt.seqnum ≡ seqnum
    pub result :
        get list seqnum support_it
        ≡ some (some ((list.ptr_pop + place) % 31, ((list.ptr_pop + place) % 31 + 1) % 31))

  Found-Hit :
      (support_it : Option ℕ) {o : Option ℕ}
      → Found list seqnum xs o
      → get_loop 33 list seqnum true (first_index list support_it) ≡ some o
      → (get list seqnum support_it ≡ some none) ⊎ Hit support_it
  unfolding get
  Found-Hit support_it missing e = inl (rw e)
  Found-Hit support_it (found j x a small n) e =
      inr (record { place = j; pkt = x; at = a; inside = small; numbered = n; result = rw e })

  -- The result of `get` as an equation
  pub get-Hit :
      (support_it : Option ℕ)
      → first_index list support_it < 31
      → (get list seqnum support_it ≡ some none) ⊎ Hit support_it
  get-Hit support_it inside =
      let (o, e, f) = Returns-inv (get_loop-Found support_it inside) in Found-Hit support_it f e
