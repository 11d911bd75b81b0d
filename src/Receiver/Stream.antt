-- ===== src/Receiver/Stream.antt =====
-- What the receiver of src/lib/send_data/read_write_loop_server.c is meant to deliver: a stream of
-- chunks, of which data packet `n` carries the `n`-th, with sequence number `n` modulo 256.
use linfo1341_project.Common.{
  ℕ, zero, suc, ◌+◌, ◌-◌, ◌%◌, ◌≤◌, ◌<◌, ◌≡◌, none, some, List, [], ◌∷◌, length, take, get_elem?,
}
use linfo1341_project.Segment.{Pkt}
use linfo1341_project.SortedList.{Pstl, SortedList}
use linfo1341_project.SortedList.Count.{occupied}
use linfo1341_project.Receiver.{Action, wrote, Drained}

module _ (chunk : ℕ → List ℕ) where
  -- A packet of the stream: not truncated, with the `n`-th chunk as its payload.
  pub record Carries (n : ℕ) (pkt : Pkt) : Type 0 where
    pub is_data : pkt.type ≡ 1
    pub whole : pkt.tr ≡ 0
    pub numbered : pkt.seqnum ≡ n % 256
    pub sized : pkt.length ≡ length (chunk n)
    pub some_bytes : 0 < length (chunk n)
    pub fits : length (chunk n) ≤ 512
    pub array : length pkt.payload ≡ 512
    pub bytes : take (length (chunk n)) pkt.payload ≡ chunk n

  -- A block of the window with the `n`-th chunk
  pub record IsBlock (n : ℕ) (block : Pstl) : Type 0 where
    pub numbered : block.seqnum ≡ n % 256
    pub sized : block.length ≡ length (chunk n)
    pub some_bytes : 0 < length (chunk n)
    pub fits : length (chunk n) ≤ 512
    pub array : length block.payload ≡ 512
    pub bytes : take (length (chunk n)) block.payload ≡ chunk n

  -- Between two packets, with chunk `n` awaited: slot `i` is NULL or has chunk `n + i`, and the
  -- slot of the awaited chunk is NULL.
  pub record Waiting (n : ℕ) (list : SortedList) : Type 0 where
    pub slots : length list.window ≡ 31
    pub counted : list.size ≡ occupied list.window
    pub start : list.ptr ≡ 0
    pub free : get_elem? list.window 0 ≡ some none
    pub at :
        (i : ℕ) (block : Pstl) → get_elem? list.window i ≡ some (some block) → IsBlock (n + i) block

  -- While the window is emptied: it still stands as it did for chunk `n`, and chunk `m` is next.
  pub record Draining (n m : ℕ) (d : Drained) : Type 0 where
    pub past : n < m
    pub within : m ≤ n + 31
    pub last : 0 < length (chunk (m - 1))
    pub waited : d.waited ≡ m % 256
    pub slots : length d.list.window ≡ 31
    pub counted : d.list.size ≡ occupied d.list.window
    pub empty : (j : ℕ) → j < m - n → get_elem? d.list.window j ≡ some none
    pub at :
        (i : ℕ) (block : Pstl)
        → get_elem? d.list.window i ≡ some (some block)
        → IsBlock (n + i) block

  -- Chunk `m` is not in the window.
  pub record Finished (n m : ℕ) (d : Drained) : Type 0 where
    pub draining : Draining n m d
    pub missing : m - n < 31 → get_elem? d.list.window (m - n) ≡ some none

  -- The chunks from `m` on are written, `count` of them in order.
  unfoldable pub deliveries : (m count : ℕ) → List Action
  deliveries m zero = []
  deliveries m (suc count) = wrote (chunk m) ∷ deliveries (m + 1) count
