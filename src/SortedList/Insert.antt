-- ===== src/SortedList/Insert.antt =====
-- `add` of src/lib/sorted_list/sorted_list.c, on every branch.
use linfo1341_project.Common.{
  ℕ, suc, true, ◌==◌, Option-cases, inl, inr, ◌+◌, ◌%◌, ◌^◌, ◌≤◌, ◌<◌, ◌≡◌, refl, sym, ap, ◌∙◌,
  Option, none, some, List, ◌++◌, arith, length, length-append, length-take, length-drop, take,
  drop, take-append, get_elem?, get_elem?_in, get_elem?_out, set, store_in, Returns, returns,
}
use linfo1341_project.Common.Memory.{read_bytes, write_bytes, read_bytes_in, write_bytes_in}
use linfo1341_project.Segment.{
  Pkt, pkt_get_seqnum, pkt_get_length, pkt_get_timestamp, pkt_get_payload,
}
use linfo1341_project.SortedList.{Pstl, SortedList, AddResult, added, duplicate, failed, ind, add}
use linfo1341_project.SortedList.Count.{occupied, occupied-set-some, occupied-le}

-- The block holds what the packet holds.
pub record Copies (packet : Pkt) (block : Pstl) : Type 0 where
  pub same_length : block.length ≡ packet.length
  pub same_seqnum : block.seqnum ≡ packet.seqnum
  pub same_timestamp : block.timestamp ≡ packet.timestamp
  pub size : length block.payload ≡ 512
  pub same_bytes : take packet.length block.payload ≡ take packet.length packet.payload

-- What `add` gives at slot `i`
pub data Inserted (list : SortedList) (packet : Pkt) (i : ℕ) (fresh : Option Pstl)
    : AddResult × SortedList → Type 0 where
  was_filled :
      (old : Pstl)
      → get_elem? list.window i ≡ some (some old)
      → Inserted list packet i fresh (duplicate, list)
  no_memory :
      get_elem? list.window i ≡ some none
      → fresh ≡ none
      → Inserted list packet i fresh (failed, list)
  inserted :
      (block : Pstl)
      → get_elem? list.window i ≡ some none
      → Copies packet block
      → suc (occupied list.window) ≡ occupied (set list.window i (some block))
      → Inserted list packet i fresh (
        added,
        record list { window = set list.window i (some block); size = suc (occupied list.window) },
      )

module _ (packet : Pkt) (block : Pstl) (array : length packet.payload ≡ 512)
    (fits : packet.length ≤ 512) (whole : packet.tr ≡ 0) (room : length block.payload ≡ 512) where
  abbrev copied : List ℕ
  copied = take packet.length packet.payload

  size_lem : length copied ≡ packet.length
  size_lem = omega (arith, length-take packet.length packet.payload, array, fits)

  abbrev copy : Pstl
  copy = record {
    payload = copied ++ drop (length copied) block.payload;
    length = packet.length;
    seqnum = packet.seqnum;
    timestamp = packet.timestamp;
  }

  Copies-copy : Copies packet copy
  Copies-copy = record {
    same_length = refl;
    same_seqnum = refl;
    same_timestamp = refl;
    size = omega (
      arith,
      length-append copied (drop (length copied) block.payload),
      length-drop (length copied) block.payload,
      size_lem,
      fits,
    );
    same_bytes =
        take-append copied (drop (length copied) block.payload) packet.length (sym size_lem);
  }

  written : write_bytes block.payload 0 copied ≡ some (copied ++ drop (length copied) block.payload)
  written =
      (let start : 0 + length copied ≡ length copied = omega arith in
        rw start at (write_bytes_in block.payload 0 copied (omega (arith, size_lem, fits))))

  read : read_bytes packet.payload 0 packet.length ≡ some copied
  read = read_bytes_in packet.payload 0 packet.length (omega (arith, array, fits))

  present : (packet.tr == 0) ≡ true
  present = ground arith

module _ (list : SortedList) (packet : Pkt) (waited : ℕ) (slots : length list.window ≡ 31) where
  -- For a packet that is not truncated, with a length of at most 512 and a number less than 31
  -- ahead of the awaited one, on a window of 31 slots whose count is right, `add` returns on
  -- every branch: a copy of the packet in its free slot and one more in the count, the duplicate
  -- result with the window unchanged if the slot is filled, the failure result with the window
  -- unchanged if `malloc` fails.
  pub add_inserts :
      (fresh : Option Pstl)
      → length packet.payload ≡ 512
      → packet.length ≤ 512
      → packet.tr ≡ 0
      → ((block : Pstl) → fresh ≡ some block → length block.payload ≡ 512)
      → list.size ≡ occupied list.window
      → ind packet.seqnum waited < 31
      → Returns
          (Inserted list packet (ind packet.seqnum waited) fresh)
          (add list packet waited fresh)
  unfolding add pkt_get_payload pkt_get_length pkt_get_seqnum pkt_get_timestamp
  add_inserts fresh array fits whole room counted near =
      let i = ind packet.seqnum waited in
      let (slot, slot_is) = get_elem?_in list.window i (omega arith) in
      elim (Option-cases slot) [
        | inr (old, p) ↦ (let e = slot_is ∙ ap some p in rw e (returns (was_filled old e)))
        | inl p ↦
            let e = slot_is ∙ ap some p in
            elim (Option-cases fresh) [
              | inl f ↦ rw (e, f) (returns (no_memory e refl))
              | inr (block, f) ↦
                  let c = Copies-copy packet block array fits whole (room block f) in
                  let new = copy packet block array fits whole (room block f) in
                  let up = occupied-set-some list.window i new e in
                  let count : (list.size + 1) % 2 ^ 32 ≡ suc (occupied list.window) =
                    omega (arith, occupied-le list.window) in
                  rw
                    (
                      e,
                      f,
                      present packet block array fits whole (room block f),
                      read packet block array fits whole (room block f),
                      written packet block array fits whole (room block f),
                      store_in list.window i (some new) (omega arith),
                      count,
                    )
                    (returns (inserted new e c (sym up)))
            ]
      ]

  -- A packet 31 numbers ahead or more is not in the window: `add` reads behind its end.
  pub add-out_of_window :
      (fresh : Option Pstl) → 31 ≤ ind packet.seqnum waited → add list packet waited fresh ≡ none
  unfolding add pkt_get_seqnum
  add-out_of_window fresh far =
      rw (get_elem?_out list.window (ind packet.seqnum waited) (omega arith))
