-- ===== src/SortedList/Reset.antt =====
-- `reset` of src/lib/sorted_list/sorted_list.c: the window moves down by the packets delivered.
use linfo1341_project.Common.{
  ℕ, zero, suc, ◌+◌, ◌-◌, ◌≤◌, ◌<◌, ◌≡◌, refl, sym, ap, ◌∙◌, false, Option, none, some, List, [],
  ◌∷◌, arith, ◌==◌, ltb, if◌then◌else◌, inl, inr, ◌⊎◌, subst, Returns, returns, Returns-if,
  Returns-bind, length, get_elem?, set, drop, length-set, length-drop, get_elem?-set_self,
  get_elem?-set_ne, store_in,
}
use native.Mathlib.Decide.{ℕ_discrete}
use linfo1341_project.SortedList.{Pstl, SortedList, reset_loop, reset, ind}
use linfo1341_project.SortedList.Count.{
  occupied, occupied-set-some, occupied-set-none, occupied-zero, occupied-drop-none,
  occupied-drop-some, occupied-drop_empty, drop-set, get_elem?-drop,
}

-- The slots of `before`, moved down by `shift`
abbrev pub shifted : List (Option Pstl) → ℕ → ℕ → Option (Option Pstl)
shifted before shift j = if ltb (j + shift) 31 then get_elem? before (j + shift) else some none

-- The window after `reset`
pub record IsShift (before : List (Option Pstl)) (shift : ℕ) (after : SortedList) : Type 0 where
  pub slots : length after.window ≡ 31
  pub counted : after.size ≡ occupied after.window
  pub start : after.ptr ≡ 0
  pub at : (j : ℕ) → j < 31 → get_elem? after.window j ≡ shifted before shift j

pub slot_cases :
    (window : List (Option Pstl)) (i : ℕ)
    → i < length window
    → (get_elem? window i ≡ some none) ⊎ ((v : Pstl) × (get_elem? window i ≡ some (some v)))
slot_cases [] i h = absurd (omega arith)
slot_cases (none ∷ window) zero h = inl refl
slot_cases (some v ∷ window) zero h = inr (v, refl)
slot_cases (slot ∷ window) (suc i) h = slot_cases window i (omega arith)

module _ (before : List (Option Pstl)) (shift size : ℕ) (positive : 0 < shift)
    (whole : length before ≡ 31) where
  -- The loop has moved what stood below `i`.
  record Moved (i nb : ℕ) (window : List (Option Pstl)) : Type 0 where
    slots : length window ≡ 31
    from : shift ≤ i
    all : occupied window ≡ size
    left : nb + occupied (drop i window) ≡ size
    at :
        (j : ℕ)
        → j < 31
        → get_elem? window j ≡ (
            if ltb (j + shift) i
            then get_elem? before (j + shift)
            else if ltb j i
            then some none
            else get_elem? before j)

  record Done (window : List (Option Pstl)) : Type 0 where
    slots : length window ≡ 31
    all : occupied window ≡ size
    at : (j : ℕ) → j < 31 → get_elem? window j ≡ shifted before shift j

  Moved-end : (nb : ℕ) (window : List (Option Pstl)) → Moved 31 nb window → Done window
  Moved-end nb window m = record {
    slots = m.slots;
    all = m.all;
    at = λ j h. ground (arith, m.at j h);
  }

  -- Nothing is left from `i` on when as many are moved as there are.
  empty_from :
      (i nb : ℕ) (window : List (Option Pstl))
      → Moved i nb window
      → ltb nb size ≡ false
      → (j : ℕ) → i ≤ j
      → j < 31
      → get_elem? window j ≡ some none
  empty_from i nb window m e j h k =
      let none_left : occupied (drop i window) ≡ 0 = ground (arith, m.left) in
      let place : i + (j - i) ≡ j = omega arith in
      ap (get_elem? window) (sym place)
      ∙ sym (get_elem?-drop window i (j - i))
      ∙ occupied-zero (drop i window) (j - i) none_left
          (omega (arith, length-drop i window, m.slots))

  Moved-stop :
      (i nb : ℕ) (window : List (Option Pstl))
      → i < 31
      → Moved i nb window
      → ltb nb size ≡ false
      → Done window
  Moved-stop i nb window h m e = record {
    slots = m.slots;
    all = m.all;
    at = λ j k. ground (
      arith,
      m.at j k,
      m.at (j + shift),
      empty_from i nb window m e j,
      empty_from i nb window m e (j + shift),
    );
  }

  Moved-skip :
      (i nb : ℕ) (window : List (Option Pstl))
      → i < 31
      → Moved i nb window
      → get_elem? window i ≡ some none
      → Moved (i + 1) nb window
  Moved-skip i nb window h m e =
      let next : suc i ≡ i + 1 = omega arith in
      record {
        slots = m.slots;
        from = omega (arith, m.from);
        all = m.all;
        left =
            omega (
              arith,
              m.left,
              occupied-drop-none window i e,
              ap (λ n. occupied (drop n window)) next,
            );
        at = λ j k. ground (arith, m.at j k, m.at i h);
      }

  module _ (i nb : ℕ) (window : List (Option Pstl)) (v : Pstl) (h : i < 31) (m : Moved i nb window)
      (e : get_elem? window i ≡ some (some v)) where
    abbrev window1 : List (Option Pstl)
    window1 = set window (i - shift) (some v)

    abbrev window2 : List (Option Pstl)
    window2 = set window1 i none

    target_free : get_elem? window (i - shift) ≡ some none
    target_free = ground (arith, m.at (i - shift), m.from)

    still_there : get_elem? window1 i ≡ some (some v)
    still_there = get_elem?-set_ne window (i - shift) i (some v) (omega (arith, m.from)) ∙ e

    window2-at :
        (j : ℕ)
        → j < 31
        → get_elem? window2 j ≡ (
            if j == i
            then some none
            else if j == i - shift
            then some (some v)
            else get_elem? window j)
    window2-at j k = elim (ℕ_discrete i j) [
      | yes p ↦ ground (
        arith,
        get_elem?-set_self window1 i none,
        length-set window (i - shift) (some v),
        m.slots,
      )
      | no p ↦ elim (ℕ_discrete (i - shift) j) [
        | yes q ↦ ground (
          arith,
          get_elem?-set_ne window1 i j none,
          get_elem?-set_self window (i - shift) (some v),
          m.slots,
        )
        | no q ↦ ground (
          arith,
          get_elem?-set_ne window1 i j none,
          get_elem?-set_ne window (i - shift) j (some v),
        )
      ]
    ]

    Moved-move : Moved (i + 1) (nb + 1) window2
    Moved-move =
        let next : suc i ≡ i + 1 = omega arith in
        record {
          slots = length-set window1 i none ∙ length-set window (i - shift) (some v) ∙ m.slots;
          from = omega (arith, m.from);
          all = omega (
            arith,
            m.all,
            occupied-set-none window1 i v still_there,
            occupied-set-some window (i - shift) v target_free,
          );
          left = omega (
            arith,
            m.left,
            occupied-drop-some window i v e,
            ap occupied (drop-set window1 (suc i) i none (omega arith)),
            ap occupied (drop-set window (suc i) (i - shift) (some v) (omega arith)),
            ap (λ n. occupied (drop n window2)) next,
          );
          at = λ j k. ground (arith, window2-at j k, m.at j k, m.at i h, m.from);
        }

  reset_loop_moves :
      (rounds i nb : ℕ) (window : List (Option Pstl))
      → i + rounds ≡ 31
      → Moved i nb window
      → Returns Done (reset_loop rounds shift size i nb window)
  unfolding reset_loop
  reset_loop_moves zero i nb window h m =
      let e : i ≡ 31 = omega arith in
      returns (Moved-end nb window (subst (λ n. Moved n nb window) e m))
  reset_loop_moves (suc rounds) i nb window h m =
      Returns-if (ltb nb size)
        (λ _. elim (slot_cases window i (omega (arith, m.slots))) [
          | inl e ↦ rw e (
              reset_loop_moves rounds (i + 1) nb window (omega arith)
                (Moved-skip i nb window (omega arith) m e))
          | inr (v, e) ↦
              rw
                (
                  e,
                  store_in window (i - shift) (some v) (omega (arith, m.slots)),
                  store_in (set window (i - shift) (some v)) i none
                      (omega (arith, m.slots, length-set window (i - shift) (some v))),
                )
                (reset_loop_moves rounds (i + 1) (nb + 1) (window2 i nb window v (omega arith) m e)
                  (omega arith) (Moved-move i nb window v (omega arith) m e))
        ])
        (λ stop. returns (Moved-stop i nb window (omega arith) m stop))

-- On a window of 31 slots whose count is right, when the awaited number moves by 1 to 31 and the
-- slots that it passes are NULL, `reset` returns without a fault and moves every block down by
-- that distance: slot j holds what slot j plus the distance held, the slots behind are NULL, no
-- block is lost, and `ptr` is back at 0.
pub reset_shifts :
    (list : SortedList) (new_waited old_waited : ℕ)
    → length list.window ≡ 31
    → list.size ≡ occupied list.window
    → 0 < ind new_waited old_waited
    → ind new_waited old_waited ≤ 31
    → ((j : ℕ) → j < ind new_waited old_waited → get_elem? list.window j ≡ some none)
    → Returns
        (λ after. IsShift list.window (ind new_waited old_waited) after × (after.size ≡ list.size))
        (reset list new_waited old_waited)
unfolding reset
reset_shifts list new_waited old_waited whole counted positive inside empty =
    let shift = ind new_waited old_waited in
    let start : Moved list.window shift list.size positive whole shift 0 list.window = record {
      slots = whole;
      from = omega arith;
      all = omega arith;
      left = omega (arith, occupied-drop_empty list.window shift (omega arith) empty);
      at = λ j h. ground (arith, empty j);
    } in
    Returns-bind
      (reset_loop_moves list.window shift list.size positive whole (31 - shift) shift 0 list.window
        (omega arith) start)
      λ window d.
        returns (
          record { slots = d.slots; counted = omega (arith, d.all); start = refl; at = d.at },
          refl,
        )
