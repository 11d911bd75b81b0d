-- ===== src/SortedList.antt =====
-- src/lib/sorted_list/sorted_list.c: the receiving window. A slot holds the block that its pointer
-- leads to, `none` for NULL.
pub mod Count
pub mod Slots
pub mod Reset
pub mod Insert
mod Tests
use linfo1341_project.Common.{
  ℕ, zero, suc, ◌+◌, ◌-◌, ◌%◌, ◌^◌, Bool, true, false, ◌&&◌, Option, none, some, List, ltb, ◌==◌,
  if◌then◌else◌, load, store, ◌>>=◌,
}
use linfo1341_project.Common.Memory.{read_bytes, write_bytes}
use linfo1341_project.Segment.{
  Pkt, max_window_size, pkt_get_seqnum, pkt_get_length, pkt_get_timestamp, pkt_get_payload,
}

-- `pstl_t`
pub record Pstl : Type 0 where
  pub payload : List ℕ
  pub length : ℕ
  pub seqnum : ℕ
  pub timestamp : ℕ

-- `struct list`. `size` is the bit pattern of an `int`.
pub record SortedList : Type 0 where
  pub window : List (Option Pstl)
  pub size : ℕ
  pub ptr : ℕ

-- The results 0, 1 and -1 of `add`
pub data AddResult : Type 0 where
  added duplicate failed : AddResult

unfoldable pub ind : ℕ → ℕ → ℕ
ind to_place waited = if ltb to_place waited then to_place + 256 - waited else to_place - waited

-- `malloc` does not clear the block: `window` is what it holds.
unfoldable pub new_list : (window : List (Option Pstl)) → SortedList
new_list window = record { window = window; size = 0; ptr = 0 }

-- `fresh` is the block that `malloc` hands back, `none` for NULL.
unfoldable pub add : SortedList → Pkt → ℕ → (fresh : Option Pstl) → Option (AddResult × SortedList)
add list packet waited fresh =
    let index = ind (pkt_get_seqnum packet) waited in
    do
      slot ← load list.window index
      elim slot [
        | some _ ↦ some (duplicate, list)
        | none ↦ elim fresh [
          | none ↦ some (failed, list)
          | some block ↦ do
            source ← pkt_get_payload packet
            bytes ← read_bytes source 0 (pkt_get_length packet)
            payload ← write_bytes block.payload 0 bytes
            window ← store list.window index (
                some (record {
                  payload = payload;
                  length = pkt_get_length packet;
                  seqnum = pkt_get_seqnum packet;
                  timestamp = pkt_get_timestamp packet;
                }))
            some (added, record list { window = window; size = (list.size + 1) % 2 ^ 32 })
        ]
      ]

-- The loop of `peek` on fuel: where `ptr` stops, and the block there.
unfoldable pub peek_loop : ℕ → List (Option Pstl) → ℕ → Option (Pstl × ℕ)
peek_loop zero window ptr = none
peek_loop (suc fuel) window ptr =
    let next = peek_loop fuel window ((ptr + 1) % 2 ^ 8) in
    do slot ← load window ptr; elim slot [ none ↦ next | some block ↦ some (block, ptr) ]

-- The inner `none` is NULL. `ptr` leaves the array after 31 rounds at most, which is a fault.
unfoldable pub peek : SortedList → Option (Option Pstl × SortedList)
peek list = if list.size == 0 then some (none, list) else do
  (block, ptr) ← peek_loop 32 list.window list.ptr
  some (some block, record list { ptr = ptr })

unfoldable pub pop : SortedList → Option SortedList
pop list = do
  window ← store list.window list.ptr none
  some (record list { window = window; size = (list.size + 2 ^ 32 - 1) % 2 ^ 32 })

-- The loop of `reset`, with `rounds` indices left below `MAX_WINDOW_SIZE`.
unfoldable pub reset_loop :
    (rounds : ℕ) → ℕ → ℕ → ℕ → ℕ → List (Option Pstl) → Option (List (Option Pstl))
reset_loop zero shift size i nb window = some window
reset_loop (suc rounds) shift size i nb window =
    let moved = λ (block : Pstl). (do
      window1 ← store window (i - shift) (some block)
      window2 ← store window1 i none
      reset_loop rounds shift size (i + 1) (nb + 1) window2) in
    let skipped = reset_loop rounds shift size (i + 1) nb window in
    let step = (do slot ← load window i; elim slot [ none ↦ skipped | some block ↦ moved block ]) in
    if ltb nb size then step else some window

unfoldable pub reset : SortedList → ℕ → ℕ → Option SortedList
reset list new_waited old_waited =
    let shift = ind new_waited old_waited in
    do
      window ← reset_loop (max_window_size - shift) shift list.size shift 0 list.window
      some (record list { window = window; ptr = 0 })

unfoldable pub is_empty : SortedList → Bool
is_empty list = list.size == 0
