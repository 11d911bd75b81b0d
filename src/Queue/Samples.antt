-- ===== src/Queue/Samples.antt =====
-- A concrete window (src/lib/queue/queue.h).
use native.Mathlib.Decide.{ℕ_discrete}
use linfo1341_project.Common.{
  ℕ, ◌+◌, ◌%◌, ◌<◌, ◌≡◌, refl, sym, ap, ◌∙◌, some, none, [], ◌∷◌, arith, replicate, set, get_elem?,
  get_elem?-set_ne, get_elem?-replicate, get_elem?_out,
}
use linfo1341_project.Segment.Samples.{hello}
use linfo1341_project.Queue.{Queue}
use linfo1341_project.Queue.Model.{Holds}

-- A window with one packet, in the last slot of the ring
abbrev pub one : Queue
one = record {
  window = set (replicate 31 none) 30 (some hello);
  size = 1;
  ptr_add = 0;
  ptr_pop = 30;
}

one-slot : (k : ℕ) → k < 31 → get_elem? one.window ((30 + k) % 31) ≡ some (get_elem? (hello ∷ []) k)
one-slot k h = elim (ℕ_discrete k 0) [
  | yes e ↦ rw e
  | no ne ↦
      get_elem?-set_ne (replicate 31 none) 30 ((30 + k) % 31) (some hello) (omega arith)
      ∙ get_elem?-replicate 31 ((30 + k) % 31) none (omega arith)
      ∙ ap some (sym (get_elem?_out (hello ∷ []) k (omega arith)))
]

pub one-Holds : Holds one (hello ∷ [])
one-Holds = record {
  slots = refl;
  pop_in = omega arith;
  bounded = omega arith;
  counted = refl;
  add_at = refl;
  at = one-slot;
}
