-- ===== src/SortedList/Slots.antt =====
-- `peek`, `pop` and `add` of src/lib/sorted_list/sorted_list.c, slot by slot.
use linfo1341_project.Common.{
  ℕ, zero, suc, ◌+◌, ◌-◌, ◌%◌, ◌^◌, ◌≤◌, ◌<◌, ◌≡◌, ◌≢◌, refl, sym, false, Option, none, some, List,
  [], ◌∷◌, arith, ◌==◌, get_elem?,
}
use native.Mathlib.Decide.{ℕ_discrete}
use linfo1341_project.SortedList.{Pstl, SortedList, peek_loop, peek, ind}
use linfo1341_project.SortedList.Count.{occupied}

-- Slot `i` is the first filled one from `lo` on, and holds `v`.
pub record FirstFrom (window : List (Option Pstl)) (lo i : ℕ) (v : Pstl) : Type 0 where
  pub above : lo ≤ i
  pub inside : i < 31
  pub at : get_elem? window i ≡ some (some v)
  pub below : (j : ℕ) → lo ≤ j → j < i → get_elem? window j ≡ some none

peek_loop_lem :
    (fuel : ℕ) (window : List (Option Pstl)) (ptr i : ℕ) (v : Pstl)
    → FirstFrom window ptr i v
    → i < ptr + fuel
    → peek_loop fuel window ptr ≡ some (v, i)
unfolding peek_loop
peek_loop_lem zero window ptr i v f h = absurd (omega (arith, f.above))
peek_loop_lem (suc fuel) window ptr i v f h = elim (ℕ_discrete ptr i) [
  | yes e ↦ rw (rw (sym e) at f.at, e)
  | no ne ↦
      let next : (ptr + 1) % 2 ^ 8 ≡ ptr + 1 = omega (arith, f.above, f.inside) in
      let rest : FirstFrom window (ptr + 1) i v = record {
        above = omega (arith, f.above);
        inside = f.inside;
        at = f.at;
        below = λ j a b. f.below j (omega arith) b;
      } in
      rw (f.below ptr (omega arith) (omega (arith, f.above)), next)
        (peek_loop_lem fuel window (ptr + 1) i v rest (omega arith))
]

-- On a window that is not empty, and whose first filled slot from `ptr` on is slot i, `peek`
-- ends without a fault, gives the block of slot i and moves `ptr` there.
pub peek_first :
    (list : SortedList) (i : ℕ) (v : Pstl)
    → list.size ≢ 0
    → FirstFrom list.window list.ptr i v
    → peek list ≡ some (some v, record list { ptr = i })
unfolding peek
peek_first list i v some_left f =
    let test : (list.size == 0) ≡ false = ground arith in
    rw (test, peek_loop_lem 32 list.window list.ptr i v f (omega (arith, f.above, f.inside)))

pub peek-empty : (list : SortedList) → list.size ≡ 0 → peek list ≡ some (none, list)
unfolding peek
peek-empty list e = rw e

-- For two sequence numbers below 256, `ind` is the distance from the awaited number to the other
-- one, round 256.
pub ind_lem :
    (to_place waited : ℕ)
    → to_place < 256
    → waited < 256
    → ind to_place waited ≡ (to_place + 256 - waited) % 256
unfolding ind
ind_lem to_place waited h k = ground arith

-- A window with a filled slot has a first one.
pub first_filled :
    (window : List (Option Pstl))
    → 0 < occupied window
    → (i : ℕ) × ((v : Pstl) × (get_elem? window i ≡ some (some v))
        × ((j : ℕ) → j < i → get_elem? window j ≡ some none))
unfolding occupied
first_filled [] h = absurd (omega arith)
first_filled (some v ∷ window) h = (0, (v, refl, λ j k. absurd (omega arith)))
first_filled (none ∷ window) h =
    let (i, (v, e, below)) = first_filled window h in
    (suc i, (v, e, elim [ zero ↦ λ k. refl | suc j ↦ λ k. below j (omega arith) ]))
