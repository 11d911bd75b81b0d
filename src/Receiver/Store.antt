-- ===== src/Receiver/Store.antt =====
-- The packets that are not awaited in src/lib/send_data/read_write_loop_server.c.
use linfo1341_project.Common.{
  ℕ, suc, ◌+◌, ◌-◌, ◌%◌, ◌≤◌, ◌<◌, ◌≡◌, ◌≢◌, refl, sym, ◌∙◌, subst, ◌⊎◌, inl, inr, Bool, true,
  false, Bool-cases, Option, none, some, List, [], ◌∷◌, ◌++◌, arith, ◌==◌, length, get_elem?,
  get_elem?_out, get_elem?-replicate, replicate, get_elem?-set_self, get_elem?-set_ne, length-set,
  Returns, returns, Returns-map, set, drop,
}
use native.Mathlib.Decide.{ℕ_discrete, dec_lt}
use linfo1341_project.Segment.{Pkt, Zlib, IsPkt, pkt_new, pkt_get_seqnum, pkt_get_timestamp}
use linfo1341_project.Segment.Wire.{wire}
use linfo1341_project.SortedList
use linfo1341_project.SortedList.{Pstl, SortedList, AddResult, added, duplicate, failed, ind}
use linfo1341_project.SortedList.Count.{occupied}
use linfo1341_project.SortedList.Slots.{ind_lem}
use linfo1341_project.SortedList.Insert.{
  Copies, Inserted, was_filled, no_memory, inserted, add_inserts, add-out_of_window,
}
use linfo1341_project.Stats.{Logger, add_ack_sent, add_packet_ignored}
use linfo1341_project.Receiver.{
  Receiver, Round, Action, sent, Outcome, running, build_ack, in_window, ack_again, on_unawaited,
  start,
}
use linfo1341_project.Receiver.Stream.{Carries, IsBlock, Waiting}
use linfo1341_project.Receiver.Ack.{IsAck, build_ack-IsAck, send_ack_lem, length-ack_buffer}
use linfo1341_project.Receiver.Deliver.{Receiving}

-- Nothing goes out, or the acknowledgement of chunk `n` alone
pub data Answers (z : Zlib) (n : ℕ) : List Action → Type 0 where
  silent : Answers z n []
  acknowledges : (ack : Pkt) → IsAck 2 (n % 256) ack → Answers z n (sent (wire z ack) ∷ [])

module _ (chunk : ℕ → List ℕ) where
  -- Chunk `n` is awaited still, and the window is `window`.
  pub record Keeps (z : Zlib) (n : ℕ) (window : SortedList) (out : List Action × Outcome)
      : Type 0 where
    pub after : Receiver
    pub goes_on : out.1 ≡ running after
    pub answers : Answers z n (out.0)
    pub same_window : after.window ≡ window
    pub receiving : Receiving chunk n after

  -- The slot of chunk `n + k` is filled now.
  pub record Stores (z : Zlib) (n k : ℕ) (out : List Action × Outcome) : Type 0 where
    pub window : SortedList
    pub keeps : Keeps z n window out
    pub block : Pstl
    pub filled : get_elem? window.window k ≡ some (some block)

  -- The receiver starts with chunk 0 awaited and its invariant true, if `malloc` hands back a
  -- block of NULL pointers for the window the buffer for acknowledgements has 10 bytes and the
  -- block of the packet is well-formed.
  pub start-Receiving :
      (buffer : List ℕ) (pkt : Pkt) (has_file : Bool) (fresh : Logger)
      → length buffer ≡ 10
      → IsPkt pkt
      → Receiving chunk 0 (start (replicate 31 none) buffer pkt has_file fresh)
  unfolding start SortedList.new_list occupied pkt_new
  start-Receiving buffer pkt has_file fresh room pkt_ok = record {
    waiting = record {
      slots = refl;
      counted = refl;
      start = refl;
      free = refl;
      at = λ i block e. elim (dec_lt i 31) [
        | yes k ↦ cc (e, get_elem?-replicate {A = Option Pstl} 31 i none k)
        | no k ↦ cc (e, get_elem?_out {A = Option Pstl} (replicate 31 none) i (omega arith))
      ];
    };
    waited = refl;
    ack_room = refl;
    buffer_room = room;
    pkt_ok = pkt_ok;
  }

  -- The invariant does not read the counters.
  pub Receiving-with :
      (n : ℕ) (r : Receiver) (window : SortedList) (logger : Logger)
      → Receiving chunk n r
      → Waiting chunk n window
      → Receiving chunk n (record r { window = window; logger = logger })
  Receiving-with n r window logger v w = record {
    waiting = w;
    waited = v.waited;
    ack_room = v.ack_room;
    buffer_room = v.buffer_room;
    pkt_ok = v.pkt_ok;
  }

  -- The packet is in slot `k` after `add`.
  pub record Placed (n k : ℕ) (window : SortedList) : Type 0 where
    pub waiting : Waiting chunk n window
    pub block : Pstl
    pub filled : get_elem? window.window k ≡ some (some block)

  Carries-Copies :
      (m : ℕ) (pkt : Pkt) (block : Pstl)
      → Carries chunk m pkt
      → Copies pkt block
      → IsBlock chunk m block
  Carries-Copies m pkt block c p = record {
    numbered = p.same_seqnum ∙ c.numbered;
    sized = p.same_length ∙ c.sized;
    some_bytes = c.some_bytes;
    fits = c.fits;
    array = p.size;
    bytes = rw (rw c.sized at p.same_bytes) c.bytes;
  }

  Waiting-inserted :
      (n k : ℕ) (list : SortedList) (block : Pstl)
      → Waiting chunk n list
      → IsBlock chunk (n + k) block
      → 0 < k
      → k < 31
      → suc (occupied list.window) ≡ occupied (set list.window k (some block))
      → Waiting chunk n (record list {
        window = set list.window k (some block);
        size = suc (occupied list.window);
      })
  Waiting-inserted n k list block w b low high count = record {
    slots = length-set list.window k (some block) ∙ w.slots;
    counted = count;
    start = w.start;
    free = get_elem?-set_ne list.window k 0 (some block) (omega arith) ∙ w.free;
    at = λ i other e. elim (ℕ_discrete i k) [
      | yes p ↦
          let here : get_elem? (set list.window k (some block)) i ≡ some (some block) =
            rw p (get_elem?-set_self list.window k (some block) (omega (arith, w.slots))) in
          let same : block ≡ other = cc (here, e) in subst (IsBlock chunk (n + i)) same (rw p b)
      | no p ↦ w.at i other (sym (get_elem?-set_ne list.window k i (some block) (omega arith)) ∙ e)
    ];
  }

  -- The run of `add` as an equation
  add-Placed :
      (n k : ℕ) (list : SortedList) (pkt : Pkt) (slot : Option Pstl) (fresh : Pstl)
      {out : Option (AddResult × SortedList)}
      → slot ≡ some fresh
      → Waiting chunk n list
      → Carries chunk (n + k) pkt
      → 0 < k
      → k < 31
      → Returns (Inserted list pkt k slot) out
      → (window : SortedList) × ((out ≡ some (added, window)) ⊎ (out ≡ some (duplicate, window)))
        × Placed n k window
  add-Placed n k list pkt slot fresh f w c low high (returns (was_filled old e)) =
      (list, inr refl, record { waiting = w; block = old; filled = e })
  add-Placed n k list pkt slot fresh f w c low high (returns (no_memory e g)) = cc (f, g)
  add-Placed n k list pkt slot fresh f w c low high (returns (inserted block e copies count)) = (
    _,
    inl refl,
    record {
      waiting =
          Waiting-inserted n k list block w (Carries-Copies (n + k) pkt block c copies) low high
            count;
      block = block;
      filled = get_elem?-set_self list.window k (some block) (omega (arith, w.slots));
    },
  )

  module _ (z : Zlib) (round : Round) (block_ok : IsPkt round.ack_block)
      (sends : round.send_result ≢ 0) where
    ack_again-Keeps :
        (n : ℕ) (r : Receiver)
        → Receiving chunk n r
        → Returns (Keeps z n r.window) (ack_again z round r)
    unfolding ack_again
    ack_again-Keeps n r v =
        let small : r.waited_seqnum < 256 = omega (arith, v.waited) in
        let time = pkt_get_timestamp r.pkt in
        let ack = build_ack round.ack_block time r.waited_seqnum 2 in
        let is_ack =
          build_ack-IsAck round.ack_block time r.waited_seqnum 2 block_ok (inl refl) small in
        elim (Bool-cases (r.receive_pkt == 0)) [
          | inl e ↦ rw e (
              returns (record {
                after = r;
                goes_on = refl;
                answers = silent;
                same_window = refl;
                receiving = v;
              }))
          | inr e ↦
              rw
                (
                  e,
                  send_ack_lem z round block_ok sends r time 2 add_ack_sent v.ack_room v.buffer_room
                      small (inl refl),
                )
                (returns (record {
                  after = record r {
                    buffer = wire z ack ++ drop 10 r.buffer;
                    ack_size = 10;
                    logger = add_ack_sent r.logger;
                  };
                  goes_on = refl;
                  answers = acknowledges ack (rw (← v.waited) is_ack);
                  same_window = refl;
                  receiving = record {
                    waiting = v.waiting;
                    waited = v.waited;
                    ack_room = refl;
                    buffer_room =
                        length-ack_buffer z round block_ok sends r time 2 v.buffer_room small
                          (inl refl);
                    pkt_ok = v.pkt_ok;
                  };
                }))
        ]

    -- A decoded packet whose number is more than 32 ahead of the awaited chunk n, round 256,
    -- leaves the window of the receiver as it was and writes nothing: chunk n is awaited still
    -- with the invariant kept, and what is sent is at most the acknowledgement of n, when `send`
    -- succeeds and the block of the acknowledgement is well-formed.
    pub on_unawaited_ignores :
        (n : ℕ) (r : Receiver)
        → Receiving chunk n r
        → r.pkt.seqnum < 256
        → 32 < (r.pkt.seqnum + 256 - n % 256) % 256
        → Returns (Keeps z n r.window) (on_unawaited z round r)
    unfolding on_unawaited in_window pkt_get_seqnum
    on_unawaited_ignores n r v small far =
        let out : in_window r.waited_seqnum r.pkt.seqnum ≡ false = ground (arith, v.waited) in
        rw out (
          ack_again-Keeps n (record r { logger = add_packet_ignored r.logger })
            (Receiving-with n r r.window _ v v.waiting))

    -- A packet of the stream 1 to 30 numbers ahead is in the window after this, whether it was
    -- there before or not; nothing is written, and chunk `n` is awaited still.
    pub on_unawaited-Stores :
        (n k : ℕ) (r : Receiver)
        → Receiving chunk n r
        → Carries chunk (n + k) r.pkt
        → 0 < k
        → k < 31
        → (fresh : Pstl) → round.slot_block ≡ some fresh
        → length fresh.payload ≡ 512
        → Returns (Stores z n k) (on_unawaited z round r)
    unfolding on_unawaited in_window pkt_get_seqnum
    on_unawaited-Stores n k r v c low high fresh f room =
        let near : in_window r.waited_seqnum r.pkt.seqnum ≡ true =
          ground (arith, v.waited, c.numbered) in
        let place : ind r.pkt.seqnum r.waited_seqnum ≡ k =
          ind_lem r.pkt.seqnum r.waited_seqnum (omega (arith, c.numbered)) (omega (arith, v.waited))
          ∙ omega (arith, v.waited, c.numbered) in
        let adding =
          add_inserts r.window r.pkt r.waited_seqnum v.waiting.slots round.slot_block c.array
            (omega (arith, c.sized, c.fits)) c.whole (λ block e. cc (e, f, room)) v.waiting.counted
            (omega arith) in
        let (window, ran, placed) =
          add-Placed n k r.window r.pkt round.slot_block fresh f v.waiting c low high
            (rw place at adding) in
        let again = λ (logger : Logger).
          ack_again-Keeps n (record r { window = window; logger = logger })
            (Receiving-with n r window logger v placed.waiting) in
        let stored : (out : List Action × Outcome) → Keeps z n window out → Stores z n k out =
          λ out keeps. record {
            window = window;
            keeps = keeps;
            block = placed.block;
            filled = placed.filled;
          } in
        elim ran [
          | inl p ↦ rw (near, p) (Returns-map (again _) stored)
          | inr p ↦ rw (near, p) (Returns-map (again _) stored)
        ]

-- A packet whose number is 31 or 32 ahead of the awaited one passes `in_window`, and storing it
-- in a window of 31 slots is an access out of bounds.
pub on_unawaited_overruns :
    (z : Zlib) (round : Round) (r : Receiver) (k : ℕ)
    → length r.window.window ≡ 31
    → r.waited_seqnum < 256
    → (k ≡ 31) ⊎ (k ≡ 32)
    → r.pkt.seqnum ≡ (r.waited_seqnum + k) % 256
    → (in_window r.waited_seqnum r.pkt.seqnum ≡ true) × (on_unawaited z round r ≡ none)
unfolding on_unawaited in_window pkt_get_seqnum
on_unawaited_overruns z round r k slots small far e =
    let near : in_window r.waited_seqnum r.pkt.seqnum ≡ true = elim far [
      | inl p ↦ ground arith
      | inr p ↦ ground arith
    ] in
    let place : 31 ≤ ind r.pkt.seqnum r.waited_seqnum = elim far [
      | inl p ↦ omega (arith, ind_lem r.pkt.seqnum r.waited_seqnum)
      | inr p ↦ omega (arith, ind_lem r.pkt.seqnum r.waited_seqnum)
    ] in
    (near, rw (near, add-out_of_window r.window r.pkt r.waited_seqnum slots round.slot_block place))
