-- ===== src/Queue/Update.antt =====
-- A packet of the window changed through its pointer: src/lib/queue/queue.h.
use linfo1341_project.Common.{
  ℕ, ◌+◌, ◌%◌, ◌<◌, ◌≡◌, ◌≢◌, sym, ◌∙◌, some, List, arith, length, get_elem?, set, length-set,
  get_elem?-set_self, get_elem?-set_ne,
}
use native.Mathlib.Decide.{ℕ_discrete}
use linfo1341_project.Segment.{Pkt}
use linfo1341_project.Queue.{Queue}
use linfo1341_project.Queue.Model.{Holds}

module _ (list : Queue) (xs : List Pkt) (h : Holds list xs) (k : ℕ) (new : Pkt)
    (small : k < length xs) where
  abbrev pub updated : Queue
  updated = record list { window = set list.window ((list.ptr_pop + k) % 31) (some new) }

  updated-at :
      (j : ℕ)
      → j < 31
      → get_elem? updated.window ((list.ptr_pop + j) % 31) ≡ some (get_elem? (set xs k new) j)
  updated-at j inside = elim (ℕ_discrete j k) [
    | yes e ↦
        rw (e, get_elem?-set_self xs k new small)
          (get_elem?-set_self list.window ((list.ptr_pop + k) % 31) (some new)
            (omega (arith, h.slots)))
    | no ne ↦
        let other : (list.ptr_pop + k) % 31 ≢ (list.ptr_pop + j) % 31 =
          omega (arith, h.pop_in, h.bounded) in
        rw (get_elem?-set_ne xs k j new (omega arith)) (
          get_elem?-set_ne list.window ((list.ptr_pop + k) % 31) ((list.ptr_pop + j) % 31)
            (some new) other
          ∙ h.at j inside)
  ]

  -- The queue holds the new packet in the place of the old one.
  pub updated-Holds : Holds updated (set xs k new)
  updated-Holds = record {
    slots = length-set list.window ((list.ptr_pop + k) % 31) (some new) ∙ h.slots;
    pop_in = h.pop_in;
    bounded = omega (arith, h.bounded, length-set xs k new);
    counted = h.counted ∙ sym (length-set xs k new);
    add_at = rw (length-set xs k new) h.add_at;
    at = updated-at;
  }
