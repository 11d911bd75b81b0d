-- ===== src/Queue/Refine.antt =====
-- The operations of src/lib/queue/queue.c against the list of the packets that the queue holds.
use linfo1341_project.Common.{
  ℕ, suc, ◌+◌, ◌-◌, ◌%◌, ◌^◌, ◌<◌, ◌≡◌, ◌∙◌, false, Option, none, some, List, [], ◌∷◌, ◌++◌, arith,
  ◌==◌, Bool-cases, inl, inr, length, get_elem?, set, length-append, length-set, get_elem?-set_self,
  get_elem?-set_ne, get_elem?-concat, get_elem?_out, store_in,
}
use native.Mathlib.Decide.{ℕ_discrete}
use linfo1341_project.Segment.{Pkt}
use linfo1341_project.Queue.{Queue, add, peek, dequeue, is_empty, is_higher_or_equal}
use linfo1341_project.Queue.Model.{Holds, covers}

module _ (list : Queue) (xs : List Pkt) (h : Holds list xs) where
  -- What `add` leaves, where there is room
  abbrev added : Option Pkt → Queue
  added packet = record list {
    window = set list.window list.ptr_add packet;
    ptr_add = (list.ptr_add + 1) % 31;
    size = (list.size + 1) % 2 ^ 32;
  }

  added-at :
      (x : Pkt) (k : ℕ)
      → length xs < 31
      → k < 31
      → get_elem? (set list.window list.ptr_add (some x)) ((list.ptr_pop + k) % 31)
        ≡ some (get_elem? (xs ++ x ∷ []) k)
  added-at x k room small = elim (ℕ_discrete k (length xs)) [
    | yes e ↦ ground (
      arith,
      get_elem?-set_self list.window list.ptr_add (some x),
      get_elem?-concat xs x k,
      h.slots,
      h.add_at,
      h.pop_in,
    )
    | no ne ↦ ground (
      arith,
      get_elem?-set_ne list.window list.ptr_add ((list.ptr_pop + k) % 31) (some x),
      get_elem?-concat xs x k,
      h.at k small,
      h.add_at,
      h.pop_in,
    )
  ]

  -- On a queue that holds fewer than 31 packets, `add` returns a queue that holds the same
  -- packets in order with the new one behind them.
  pub add_refines :
      (x : Pkt)
      → length xs < 31
      → (list' : Queue) × (add list (some x) ≡ some list') × Holds list' (xs ++ x ∷ [])
  unfolding add
  add_refines x room = (
    added (some x),
    rw (store_in list.window list.ptr_add (some x) (omega (arith, h.slots, h.add_at))),
    record {
      slots = length-set list.window list.ptr_add (some x) ∙ h.slots;
      pop_in = h.pop_in;
      bounded = omega (arith, length-append xs (x ∷ []));
      counted = omega (arith, length-append xs (x ∷ []), h.counted);
      add_at = omega (arith, length-append xs (x ∷ []), h.add_at);
      at = λ k small. added-at x k room small;
    },
  )

  -- On a queue, `peek` gives the oldest packet that it holds, and NULL if there is none.
  pub peek_refines : peek list ≡ some (get_elem? xs 0)
  unfolding peek
  peek_refines = elim (Bool-cases (list.size == 0)) [
    | inl e ↦ ground (arith, h.counted, get_elem?_out xs 0)
    | inr e ↦ ground (arith, h.at 0, h.pop_in)
  ]

  pub is_empty_refines : is_empty list ≡ (length xs == 0)
  unfolding is_empty
  is_empty_refines = rw (h.counted)

dequeued-at :
    (list : Queue) (x : Pkt) (xs : List Pkt) (h : Holds list (x ∷ xs)) (k : ℕ)
    → k < 31
    → get_elem? (set list.window list.ptr_pop none) (((1 + list.ptr_pop) % 31 + k) % 31)
      ≡ some (get_elem? xs k)
dequeued-at list x xs h k small = elim (ℕ_discrete k 30) [
  | yes e ↦ ground (
    arith,
    get_elem?-set_self list.window list.ptr_pop none,
    get_elem?_out xs k,
    h.slots,
    h.pop_in,
    h.bounded,
  )
  | no ne ↦ ground (
    arith,
    get_elem?-set_ne list.window list.ptr_pop ((list.ptr_pop + suc k) % 31) none,
    h.at (suc k),
    h.pop_in,
  )
]

-- On a queue that holds a packet at least, `dequeue` returns a queue that holds the others in
-- order: it removes the oldest packet, and only that one.
pub dequeue_refines :
    (list : Queue) (x : Pkt) (xs : List Pkt)
    → Holds list (x ∷ xs)
    → (list' : Queue) × (dequeue list ≡ some list') × Holds list' xs
unfolding dequeue
dequeue_refines list x xs h = (
  record list {
    window = set list.window list.ptr_pop none;
    ptr_pop = (1 + list.ptr_pop) % 31;
    size = (list.size + 2 ^ 32 - 1) % 2 ^ 32;
  },
  rw (store_in list.window list.ptr_pop none (omega (arith, h.slots, h.pop_in))),
  record {
    slots = length-set list.window list.ptr_pop none ∙ h.slots;
    pop_in = omega arith;
    bounded = omega (arith, h.bounded);
    counted = omega (arith, h.counted, h.bounded);
    add_at = omega (arith, h.add_at);
    at = dequeued-at list x xs h;
  },
)

-- On a queue, `is_higher_or_equal` never reads through NULL: it compares the number with that of
-- the oldest packet, and refuses if there is none.
pub is_higher_or_equal_refines :
    (seqnum : ℕ) (list : Queue) (xs : List Pkt)
    → Holds list xs
    → is_higher_or_equal seqnum list ≡ some (covers seqnum xs)
unfolding is_higher_or_equal
is_higher_or_equal_refines seqnum list [] h = rw (is_empty_refines list [] h)
is_higher_or_equal_refines seqnum list (x ∷ xs) h =
    let some_left : is_empty list ≡ false = ground (arith, is_empty_refines list (x ∷ xs) h) in
    rw (some_left, peek_refines list (x ∷ xs) h)
