-- ===== src/Receiver/Drain.antt =====
-- The loop that empties the window in src/lib/send_data/read_write_loop_server.c.
use linfo1341_project.Common.{
  ℕ, zero, suc, ◌+◌, ◌-◌, ◌%◌, ◌^◌, ◌≤◌, ◌<◌, ◌≡◌, ◌≢◌, refl, ap, ◌∙◌, subst, ◌⊎◌, inl, inr, true,
  false, Option, none, some, List, ◌∷◌, arith, ◌==◌, if◌then◌else◌, length, get_elem?, set,
  length-set, get_elem?_out, get_elem?-set_self, get_elem?-set_ne, store_in, Returns, returns,
  Returns-bind,
}
use linfo1341_project.Common.Memory.{read_bytes, read_bytes_in}
use native.Mathlib.Decide.{ℕ_discrete, dec_lt}
use linfo1341_project.SortedList
use linfo1341_project.SortedList.{Pstl, SortedList}
use linfo1341_project.SortedList.Count.{occupied-zero, occupied-le, occupied-set-none}
use linfo1341_project.SortedList.Slots.{FirstFrom, peek_first, first_filled}
use linfo1341_project.Receiver.{Action, wrote, Drained, DrainEnd, drained, next_block, drain_loop}
use linfo1341_project.Receiver.Stream.{IsBlock, Draining, Finished, deliveries}

module _ (chunk : ℕ → List ℕ) (n m : ℕ) (d : Drained) (h : Draining chunk n m d)
    (low : d.list.ptr ≤ m - n) where
  -- The awaited block is there, or the loop is done.
  abbrev Awaited : Pstl → Type 0
  Awaited block =
      (get_elem? d.list.window (m - n) ≡ some (some block))
      × (next_block d.list d.waited ≡ some (some block, record d.list { ptr = m - n }))

  abbrev Over : SortedList → Type 0
  Over list =
      (next_block d.list d.waited ≡ some (none, list))
      × Finished chunk n m (record d { list = list })

  next_block-empty : d.list.size ≡ 0 → Over d.list
  unfolding next_block SortedList.is_empty
  next_block-empty e = (
    rw e,
    record {
      draining = h;
      missing = λ k.
          occupied-zero d.list.window (m - n) (omega (arith, h.counted)) (omega (arith, h.slots));
    },
  )

  inside_of : (i : ℕ) (block : Pstl) → get_elem? d.list.window i ≡ some (some block) → i < 31
  inside_of i block e = elim (dec_lt i 31) [
    | yes k ↦ k
    | no k ↦ cc (e, get_elem?_out d.list.window i (omega (arith, h.slots)))
  ]

  behind_of : (i : ℕ) (block : Pstl) → get_elem? d.list.window i ≡ some (some block) → m - n ≤ i
  behind_of i block e = elim (dec_lt i (m - n)) [ yes k ↦ cc (e, h.empty i k) | no k ↦ omega arith ]

  -- A window that is not empty: `peek` moves `ptr` to its first block.
  next_block-filled :
      d.list.size ≢ 0 → ((block : Pstl) × Awaited block) ⊎ ((list : SortedList) × Over list)
  unfolding next_block SortedList.is_empty
  next_block-filled ne =
      let (i, (block, e, below)) = first_filled d.list.window (omega (arith, h.counted)) in
      let first : FirstFrom d.list.window d.list.ptr i block = record {
        above = omega (arith, behind_of i block e, low);
        inside = inside_of i block e;
        at = e;
        below = λ j _ k. below j k;
      } in
      let test : (d.list.size == 0) ≡ false = ground arith in
      let seen = peek_first d.list i block ne first in
      let number = (h.at i block e).numbered in
      elim (ℕ_discrete i (m - n)) [
        | yes p ↦
            let same : (d.waited == block.seqnum) ≡ true =
              ground (arith, number, h.waited, h.past) in
            inl (block, (rw p at e, rw (test, seen, same, p)))
        | no p ↦
            let other : (d.waited == block.seqnum) ≡ false = ground (
              arith,
              number,
              h.waited,
              h.past,
              h.within,
              behind_of i block e,
              inside_of i block e,
            ) in
            let missing : m - n < 31 → get_elem? d.list.window (m - n) ≡ some none =
              λ _. below (m - n) (omega (arith, behind_of i block e)) in
            inr (
              record d.list { ptr = i },
              (
                rw (test, seen, other),
                record {
                  draining = record {
                    past = h.past;
                    within = h.within;
                    last = h.last;
                    waited = h.waited;
                    slots = h.slots;
                    counted = h.counted;
                    empty = h.empty;
                    at = h.at;
                  };
                  missing = missing;
                },
              ),
            )
      ]

next_block_cases :
    (chunk : ℕ → List ℕ) (n m : ℕ) (d : Drained) (h : Draining chunk n m d)
    (low : d.list.ptr ≤ m - n)
    → ((block : Pstl) × Awaited chunk n m d h low block)
      ⊎ ((list : SortedList) × Over chunk n m d h low list)
next_block_cases chunk n m d h low = elim (ℕ_discrete d.list.size 0) [
  | yes e ↦ inr (d.list, next_block-empty chunk n m d h low e)
  | no ne ↦ next_block-filled chunk n m d h low ne
]

-- One block delivered: its slot is NULL now.
module _ (chunk : ℕ → List ℕ) (n m : ℕ) (d : Drained) (h : Draining chunk n m d) (block : Pstl)
    (e : get_elem? d.list.window (m - n) ≡ some (some block)) where
  abbrev popped : SortedList
  popped = record d.list {
    window = set d.list.window (m - n) none;
    ptr = m - n;
    size = (d.list.size + 2 ^ 32 - 1) % 2 ^ 32;
  }

  small : m - n < 31
  small = elim (dec_lt (m - n) 31) [
    | yes k ↦ k
    | no k ↦ cc (e, get_elem?_out d.list.window (m - n) (omega (arith, h.slots)))
  ]

  pop-awaited : SortedList.pop (record d.list { ptr = m - n }) ≡ some popped
  unfolding SortedList.pop
  pop-awaited = rw (store_in d.list.window (m - n) none (omega (arith, small, h.slots)))

  is_chunk : IsBlock chunk m block
  is_chunk =
      let place : n + (m - n) ≡ m = omega (arith, h.past) in
      subst (λ k. IsBlock chunk k block) place (h.at (m - n) block e)

  slot_after :
      (j : ℕ)
      → get_elem? popped.window j ≡ (if j == m - n then some none else get_elem? d.list.window j)
  slot_after j = elim (ℕ_discrete (m - n) j) [
    | yes p ↦ ground (arith, get_elem?-set_self d.list.window (m - n) none, small, h.slots)
    | no p ↦ ground (arith, get_elem?-set_ne d.list.window (m - n) j none)
  ]

  Draining-next :
      (received : ℕ)
      → Draining chunk n (m + 1) (record {
        list = popped;
        waited = (d.waited + 1) % 256;
        timestamp_ack = block.timestamp;
        received = received;
      })
  Draining-next received = record {
    past = omega (arith, h.past);
    within = omega (arith, small, h.past);
    last = (let here : m + 1 - 1 ≡ m = omega arith in rw here is_chunk.some_bytes);
    waited = omega (arith, h.waited);
    slots = length-set d.list.window (m - n) none ∙ h.slots;
    counted = omega (
      arith,
      h.counted,
      h.slots,
      occupied-le d.list.window,
      occupied-set-none d.list.window (m - n) block e,
    );
    empty = λ j k. ground (arith, slot_after j, h.empty j, h.past);
    at = λ i b f. h.at i b (ground (arith, slot_after i));
  }

-- The loop has written `count` chunks from `m` on and stopped where the next one is missing.
pub record Delivered (chunk : ℕ → List ℕ) (n m : ℕ) (r : List Action × DrainEnd) : Type 0 where
  pub count : ℕ
  pub final : Drained
  pub ends : r.1 ≡ drained final
  pub written : r.0 ≡ deliveries chunk m count
  pub finished : Finished chunk n (m + count) final

module _ (chunk : ℕ → List ℕ) (write_result : ℕ → ℕ) (writes : (k : ℕ) → write_result k ≢ 0) where
  drain_over :
      (fuel k n m : ℕ) (d : Drained) (list : SortedList)
      → next_block d.list d.waited ≡ some (none, list)
      → Finished chunk n m (record d { list = list })
      → Returns (Delivered chunk n m) (drain_loop (suc fuel) write_result k d)
  unfolding drain_loop deliveries
  drain_over fuel k n m d list e f =
      let same : m + 0 ≡ m = omega arith in
      rw e (
        returns (record {
          count = 0;
          final = record d { list = list };
          ends = refl;
          written = refl;
          finished = rw same f;
        }))

  -- Where the writes succeed, the loop writes the consecutive chunks in order and ends.
  pub drain_delivers :
      (fuel k n m : ℕ) (d : Drained)
      → Draining chunk n m d
      → d.list.ptr ≤ m - n
      → n + 31 < m + fuel
      → Returns (Delivered chunk n m) (drain_loop fuel write_result k d)
  unfolding drain_loop deliveries
  drain_delivers zero k n m d h low f = absurd (omega (arith, h.within))
  drain_delivers (suc fuel) k n m d h low f = elim (next_block_cases chunk n m d h low) [
    | inr (list, (e, over)) ↦ drain_over fuel k n m d list e over
    | inl (block, (e, next)) ↦
        let b = is_chunk chunk n m d h block e in
        let after : Drained = record {
          list = popped chunk n m d h block e;
          waited = (d.waited + 1) % 256;
          timestamp_ack = block.timestamp;
          received = (d.received + 1) % 2 ^ 64;
        } in
        let ih =
          drain_delivers fuel (k + 1) n (m + 1) after
            (Draining-next chunk n m d h block e ((d.received + 1) % 2 ^ 64))
            (omega (arith, h.past)) (omega arith) in
        let full : (block.length == 0) ≡ false = ground (arith, b.sized, b.some_bytes) in
        let done : (write_result k == 0) ≡ false = ground (arith, writes k) in
        let bytes : read_bytes block.payload 0 block.length ≡ some (chunk m) = rw (
          b.sized,
          read_bytes_in block.payload 0 (length (chunk m)) (omega (arith, b.fits, b.array)),
          b.bytes,
        ) in
        rw (next, full, bytes, pop-awaited chunk n m d h block e, done)
          (Returns-bind ih λ r p. returns (record {
            count = suc p.count;
            final = p.final;
            ends = p.ends;
            written = ap (◌∷◌ (wrote (chunk m))) p.written;
            finished =
                (let shift : m + suc p.count ≡ m + 1 + p.count = omega arith in
                  rw shift p.finished);
          }))
  ]

-- The run of the loop as an equation
pub Delivered-run :
    {chunk : ℕ → List ℕ} {n m : ℕ} {r : Option (List Action × DrainEnd)}
    → Returns (Delivered chunk n m) r
    → (count : ℕ) × ((final : Drained) × (r ≡ some (deliveries chunk m count, drained final))
        × Finished chunk n (m + count) final)
Delivered-run (returns p) = (p.count, (p.final, ap some (cc (p.ends, p.written)), p.finished))
