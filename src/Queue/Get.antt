-- ===== src/Queue/Get.antt =====
-- The search `get` of src/lib/queue/queue.c.
use mathlib.Core.Option
use linfo1341_project.Common.{
  ℕ, zero, suc, ◌+◌, ◌%◌, ◌≤◌, ◌<◌, ◌≡◌, sym, ap, subst, ◌∙◌, true, false, none, some, List, [],
  ◌∷◌, ◌++◌, arith, ◌==◌, Bool-cases, Option-cases, inl, inr, length, get_elem?, length-append,
  append-nil, append_assoc, get_elem?-append-head, get_elem?_out, load,
}
use native.Mathlib.Decide.{dec_lt}
use linfo1341_project.Segment.{Pkt, pkt_get_seqnum}
use linfo1341_project.Queue.{Queue, get_loop, first_index, get}
use linfo1341_project.Queue.Model.{Holds, position_from}

module _ (list : Queue) (seqnum : ℕ) where
  abbrev slot_at : ℕ → ℕ
  slot_at k = (list.ptr_pop + k) % 31

  -- What the loop reads at place `k` of the window
  slot_load :
      (xs : List Pkt)
      → Holds list xs
      → (k : ℕ) → k < 31
      → load list.window (slot_at k) ≡ some (get_elem? xs k)
  slot_load xs h k small = h.at k small

  -- Behind the last packet the loop stops: at NULL, or back at the oldest packet.
  loop-end :
      (fuel : ℕ) (x : Pkt) (xs : List Pkt)
      → Holds list (x ∷ xs)
      → (pkt_get_seqnum x == seqnum) ≡ false
      → get_loop (suc fuel) list seqnum false (slot_at (length (x ∷ xs))) ≡ some none
  unfolding get_loop
  loop-end fuel x xs h other = elim (dec_lt (length (x ∷ xs)) 31) [
    | yes p ↦ rw (h.at (length (x ∷ xs)) p, get_elem?_out (x ∷ xs) (length (x ∷ xs)) (omega arith))
    | no p ↦
        let home : slot_at (length (x ∷ xs)) ≡ slot_at 0 = omega (arith, h.bounded) in
        let is_home : (slot_at (length (x ∷ xs)) == list.ptr_pop) ≡ true =
          ground (arith, h.pop_in, h.bounded) in
        rw (home, h.at 0 (omega arith), other, is_home)
  ]

  -- The loop from the second packet on: `pre` is what it has passed.
  loop-position :
      (fuel : ℕ) (x : Pkt) (pre ys : List Pkt)
      → Holds list (x ∷ pre ++ ys)
      → (pkt_get_seqnum x == seqnum) ≡ false
      → length ys < fuel
      → get_loop fuel list seqnum false (slot_at (length (x ∷ pre)))
        ≡ some (Option.map slot_at (position_from seqnum (length (x ∷ pre)) ys))
  unfolding get_loop position_from
  loop-position zero x pre ys h other f = absurd (omega arith)
  loop-position (suc fuel) x pre [] h other f =
      let whole = append-nil pre in
      loop-end fuel x pre (subst (λ l. Holds list (x ∷ l)) whole h) other
  loop-position (suc fuel) x pre (y ∷ ys) h other f =
      let k = length (x ∷ pre) in
      let small : k < 31 = omega (arith, length-append pre (y ∷ ys), h.bounded) in
      let here = h.at k small ∙ ap some (get_elem?-append-head (x ∷ pre) y ys) in
      let not_home : (slot_at k == list.ptr_pop) ≡ false = ground (arith, h.pop_in) in
      let next : (slot_at k + 1) % 31 ≡ slot_at (length (x ∷ pre ++ y ∷ [])) =
        omega (arith, length-append pre (y ∷ [])) in
      let count : length (x ∷ pre ++ y ∷ []) ≡ k + 1 = omega (arith, length-append pre (y ∷ [])) in
      let ih =
        loop-position fuel x (pre ++ y ∷ []) ys
          (subst (λ l. Holds list (x ∷ l)) (sym (append_assoc pre (y ∷ []) ys)) h) other
          (omega arith) in
      elim (Bool-cases (pkt_get_seqnum y == seqnum)) [
        | inl e ↦ rw (here, e)
        | inr e ↦ rw (here, e, not_home, next, ih, count)
      ]

  loop-start :
      (fuel : ℕ) (xs : List Pkt)
      → Holds list xs
      → length xs ≤ fuel
      → get_loop (suc fuel) list seqnum true list.ptr_pop
        ≡ some (Option.map slot_at (position_from seqnum 0 xs))
  unfolding get_loop position_from
  loop-start fuel [] h f =
      let home : slot_at 0 ≡ list.ptr_pop = omega (arith, h.pop_in) in
      rw (rw home at (h.at 0 (omega arith)))
  loop-start fuel (x ∷ xs) h f =
      let home : slot_at 0 ≡ list.ptr_pop = omega (arith, h.pop_in) in
      let next : (list.ptr_pop + 1) % 31 ≡ slot_at 1 = omega arith in
      let here = rw home at (h.at 0 (omega arith)) in
      elim (Bool-cases (pkt_get_seqnum x == seqnum)) [
        | inl e ↦ rw (here, e, home)
        | inr e ↦ rw (here, e, next, loop-position fuel x [] xs h e (omega arith))
      ]

  -- Started at the oldest packet of a queue, `get` ends, finds the first packet of the window in
  -- the order of sending that has the sequence number, gives its slot and the slot behind it,
  -- and reports 0 if there is none.
  pub get_refines :
      (xs : List Pkt)
      → Holds list xs
      → get list seqnum none
        ≡ some (Option.map (λ k. (slot_at k, (slot_at k + 1) % 31)) (position_from seqnum 0 xs))
  unfolding get first_index
  get_refines xs h = elim (Option-cases (position_from seqnum 0 xs)) [
    | inl e ↦ rw (loop-start 32 xs h (omega (arith, h.bounded)), e)
    | inr (k, e) ↦ rw (loop-start 32 xs h (omega (arith, h.bounded)), e)
  ]
