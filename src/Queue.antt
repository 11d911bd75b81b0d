-- ===== src/Queue.antt =====
-- src/lib/queue/queue.c: the sending window, a ring of pointers to packets. A slot holds the packet
-- that its pointer leads to, `none` for NULL; a pointer to a packet of the window is its index.
pub mod Model
pub mod Order
pub mod Refine
pub mod Get
pub mod Search
pub mod Update
pub mod Samples
mod Tests
use mathlib.Core.Option
use linfo1341_project.Common.{
  map, ℕ, zero, suc, ◌+◌, ◌-◌, ◌%◌, ◌^◌, Bool, true, false, not, ◌&&◌, Option, none, some, List,
  ltb, leb, ◌==◌, if◌then◌else◌, replicate, load, store, ◌>>=◌,
}
use linfo1341_project.Segment.{Pkt, max_window_size, pkt_get_seqnum}

-- `struct list`. `size` is the bit pattern of an `int`.
pub record Queue : Type 0 where
  pub window : List (Option Pkt)
  pub size : ℕ
  pub ptr_add : ℕ
  pub ptr_pop : ℕ

unfoldable pub new_list : Queue
new_list = record { window = replicate 31 none; size = 0; ptr_add = 0; ptr_pop = 0 }

unfoldable pub add : Queue → Option Pkt → Option Queue
add list packet = do
  window ← store list.window list.ptr_add packet
  some (record list {
    window = window;
    ptr_add = (list.ptr_add + 1) % max_window_size;
    size = (list.size + 1) % 2 ^ 32;
  })

-- The inner `none` is NULL.
unfoldable pub peek : Queue → Option (Option Pkt)
peek list = if list.size == 0 then some none else load list.window list.ptr_pop

unfoldable pub dequeue : Queue → Option Queue
dequeue list = do
  window ← store list.window list.ptr_pop none
  some (record list {
    window = window;
    ptr_pop = (1 + list.ptr_pop) % max_window_size;
    size = (list.size + 2 ^ 32 - 1) % 2 ^ 32;
  })

unfoldable pub is_empty : Queue → Bool
is_empty list = list.size == 0

-- The comparison of two sequence numbers in `is_higher_or_equal`
unfoldable pub higher : ℕ → ℕ → Bool
higher seqnum ref_seqnum =
    if ltb seqnum ref_seqnum && ltb 100 (ref_seqnum - seqnum)
    then true
    else if ltb ref_seqnum seqnum && ltb 100 (seqnum - ref_seqnum)
    then false
    else leb ref_seqnum seqnum

-- A packet read through a NULL pointer is a fault.
unfoldable pub is_higher_or_equal : ℕ → Queue → Option Bool
is_higher_or_equal seqnum list =
    if is_empty list
    then some false
    else do ref ← peek list; pkt ← ref; some (higher seqnum (pkt_get_seqnum pkt))

-- The loop of `get` on fuel: the index at which it finds the packet, or `none` for `return 0`.
unfoldable pub get_loop : ℕ → Queue → ℕ → Bool → ℕ → Option (Option ℕ)
get_loop zero list receive_seqnum first_time index = none
get_loop (suc fuel) list receive_seqnum first_time index =
    let next = get_loop fuel list receive_seqnum false ((index + 1) % max_window_size) in
    do
      slot ← load list.window index
      elim slot [
        | none ↦ some none
        | some pkt ↦
            if pkt_get_seqnum pkt == receive_seqnum
            then some (some index)
            else if not first_time && index == list.ptr_pop
            then some none
            else next
      ]

-- Where the search begins: at the oldest packet if `*supportIt` is -1, which is `none` here.
unfoldable pub first_index : Queue → Option ℕ → ℕ
first_index list none = list.ptr_pop
first_index list (some i) = i

-- The result is the pointer left in `*tmpPtk` with the new
-- `*supportIt`, or `none` for `return 0`. The loop comes back to `ptrPop` in 32 rounds at most.
unfoldable pub get : Queue → ℕ → Option ℕ → Option (Option (ℕ × ℕ))
get list receive_seqnum support_it = do
  found ← get_loop 33 list receive_seqnum true (first_index list support_it)
  elim found [ none ↦ some none | some index ↦ some (some (index, (index + 1) % max_window_size)) ]

-- The sequence number that each slot prints, `none` for `nul`
unfoldable pub print_seqnums : Queue → List (Option ℕ)
print_seqnums list = map (Option.map pkt_get_seqnum) list.window
