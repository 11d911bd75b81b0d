-- ===== src/UnitTests/RecWindow.antt =====
-- tests/rec_window_test.c: six packets are added to the receiving window and taken out again.
use linfo1341_project.Common.{
  ℕ, zero, suc, ◌+◌, ◌-◌, Bool, Option, none, some, List, [], ◌∷◌, ◌++◌, ◌==◌, ◌>>=◌,
}
use linfo1341_project.Segment.{Pkt, pkt_new, pkt_set_seqnum, pkt_set_payload}
use linfo1341_project.SortedList.{Pstl, SortedList, new_list, add, peek, pop}

-- The packet is added with the sequence number `seqnum`: `size`, and the number of the first packet.
unfoldable pub add_and_check :
    SortedList → Pkt → (seqnum : ℕ) → (fresh : Option Pstl) → Option (List Bool × SortedList)
add_and_check list pkt seqnum fresh = do
  (_, list1) ← add list (pkt_set_seqnum pkt seqnum).1 0 fresh
  (first, list2) ← peek list1
  block ← first
  some ((list1.size == seqnum + 1) ∷ (0 == block.seqnum) ∷ [], list2)

-- The loop that empties the window, on fuel
unfoldable pub take_out : ℕ → SortedList → (i : ℕ) → Option (List Bool)
take_out zero list i = none
take_out (suc fuel) list i =
    let checked = λ (block : Pstl) (seen : SortedList). (do
      left ← pop seen
      rest ← take_out fuel left (i + 1)
      some ((block.seqnum == i) ∷ (left.size == 6 - (i + 1)) ∷ rest)) in
    do (first, seen) ← peek list; elim first [ none ↦ some [] | some block ↦ checked block seen ]

-- `window` is what `malloc` left in the array, `fresh` the block of the packet, `slots` the others.
unfoldable pub test_basic :
    (window : List (Option Pstl)) (fresh : Pkt) (slots : ℕ → Option Pstl) → Option (List Bool)
test_basic window fresh slots = do
  (_, pkt) ← pkt_set_payload (pkt_set_seqnum (pkt_new fresh) 0).1 (b'b' ∷ b'r' ∷ 0 ∷ []) 2
  (checks0, list0) ← add_and_check (new_list window) pkt 0 (slots 0)
  (checks1, list1) ← add_and_check list0 pkt 1 (slots 1)
  (checks2, list2) ← add_and_check list1 pkt 2 (slots 2)
  (checks3, list3) ← add_and_check list2 pkt 3 (slots 3)
  (checks4, list4) ← add_and_check list3 pkt 4 (slots 4)
  (checks5, list5) ← add_and_check list4 pkt 5 (slots 5)
  rest ← take_out 7 list5 0
  some (checks0 ++ checks1 ++ checks2 ++ checks3 ++ checks4 ++ checks5 ++ rest)
