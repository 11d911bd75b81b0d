-- ===== src/SortedList/Tests.antt =====
-- Runs of src/lib/sorted_list/sorted_list.c on small windows.
use linfo1341_project.Common.{
  ℕ, ◌<◌, ◌≡◌, refl, subst, ◌∙◌, none, some, ◌++◌, arith, length, set, get_elem?, get_elem?-set_ne,
  get_elem?-replicate, replicate, Returns,
}
use linfo1341_project.Segment.Samples.{hello, greeting}
use linfo1341_project.SortedList.{Pstl, SortedList, ind, add, reset}
use linfo1341_project.SortedList.Count.{occupied}
use linfo1341_project.SortedList.Reset.{IsShift, reset_shifts}
use linfo1341_project.SortedList.Insert.{Inserted, add_inserts}

abbrev block : Pstl
block = record { payload = greeting ++ replicate 507 0; length = 5; seqnum = 2; timestamp = 9 }

-- Slot 3 alone is filled.
abbrev sparse : SortedList
sparse = record { window = set (replicate 31 none) 3 (some block); size = 1; ptr = 0 }

sparse-empty : (j : ℕ) → j < 3 → get_elem? sparse.window j ≡ some none
sparse-empty j h =
    get_elem?-set_ne (replicate 31 none) 3 j (some block) (omega arith)
    ∙ get_elem?-replicate 31 j none (omega arith)

reset_shifts_example :
    Returns (λ after. IsShift sparse.window 3 after × (after.size ≡ 1)) (reset sparse 1 254)
unfolding ind occupied
reset_shifts_example = reset_shifts sparse 1 254 refl refl (omega arith) (omega arith) sparse-empty

block-room : (b : Pstl) → some block ≡ some b → length b.payload ≡ 512
block-room b e =
    (let same : block ≡ b = cc e in subst (λ (p : Pstl). length p.payload ≡ 512) same refl)

add_inserts_example :
    Returns (Inserted sparse hello 2 (some block)) (add sparse hello 121 (some block))
unfolding ind occupied
add_inserts_example =
    add_inserts sparse hello 121 refl (some block) refl (omega arith) refl block-room refl
      (omega arith)
