-- ===== src/Queue/Model.antt =====
-- The abstract view of the window (src/lib/queue/queue.h): the packets in the order of sending.
use linfo1341_project.Common.{
  ℕ, ◌+◌, ◌%◌, ◌≤◌, ◌<◌, ◌≡◌, refl, Option, none, some, Bool, false, ◌==◌, if◌then◌else◌, List, [],
  ◌∷◌, arith, length, get_elem?, get_elem?-replicate,
}
use linfo1341_project.Segment.{Pkt, pkt_get_seqnum}
use linfo1341_project.Queue.{Queue, new_list, higher}

-- The queue holds the packets `xs`, oldest first: from `ptrPop` on, round the ring, and NULL in
-- every other slot.
pub record Holds (list : Queue) (xs : List Pkt) : Type 0 where
  pub slots : length list.window ≡ 31
  pub pop_in : list.ptr_pop < 31
  pub bounded : length xs ≤ 31
  pub counted : list.size ≡ length xs
  pub add_at : list.ptr_add ≡ (list.ptr_pop + length xs) % 31
  pub at :
      (k : ℕ) → k < 31 → get_elem? list.window ((list.ptr_pop + k) % 31) ≡ some (get_elem? xs k)

-- The oldest packet is at or below the sequence number.
abbrev pub covers : ℕ → List Pkt → Bool
covers seqnum [] = false
covers seqnum (x ∷ xs) = higher seqnum (pkt_get_seqnum x)

-- The place of the first packet with a sequence number, counted from `k`
unfoldable pub position_from : ℕ → ℕ → List Pkt → Option ℕ
position_from seqnum k [] = none
position_from seqnum k (x ∷ xs) =
    if pkt_get_seqnum x == seqnum then some k else position_from seqnum (k + 1) xs

-- A new queue is empty.
pub new_list-Holds : Holds new_list []
unfolding new_list
new_list-Holds = record {
  slots = refl;
  pop_in = omega arith;
  bounded = omega arith;
  counted = refl;
  add_at = refl;
  at = λ k h. get_elem?-replicate 31 ((0 + k) % 31) none (omega arith);
}
