-- ===== src/Receiver/Deliver.antt =====
-- The awaited packet in src/lib/send_data/read_write_loop_server.c.
use linfo1341_project.Common.{
  ℕ, suc, ◌+◌, ◌-◌, ◌%◌, ◌<◌, ◌≡◌, ◌≢◌, refl, ◌∙◌, subst, inl, true, false, some, List, [], ◌∷◌,
  ◌++◌, arith, ◌==◌, length, get_elem?, get_elem?_out, Returns, returns, Returns-map, Returns-inv,
  drop,
}
use native.Mathlib.Decide.{dec_lt}
use linfo1341_project.Common.Memory.{read_bytes, read_bytes_in}
use linfo1341_project.Segment.{Pkt, Zlib, IsPkt, pkt_get_payload, pkt_get_length, pkt_get_timestamp}
use linfo1341_project.Segment.Wire.{wire}
use linfo1341_project.SortedList
use linfo1341_project.SortedList.{Pstl, SortedList, ind}
use linfo1341_project.SortedList.Slots.{ind_lem}
use linfo1341_project.SortedList.Reset.{IsShift, reset_shifts}
use linfo1341_project.Stats.{add_ack_sent}
use linfo1341_project.Receiver.{
  Receiver, Round, Action, sent, Outcome, running, Drained, build_ack, send_ack, on_awaited,
}
use linfo1341_project.Receiver.Stream.{Carries, IsBlock, Waiting, Draining, Finished, deliveries}
use linfo1341_project.Receiver.Drain.{Delivered-run, drain_delivers}
use linfo1341_project.Receiver.Ack.{IsAck, build_ack-IsAck, send_ack_lem, length-ack_buffer}

module _ (chunk : ℕ → List ℕ) where
  -- The receiver has delivered the chunks below `n`.
  pub record Receiving (n : ℕ) (r : Receiver) : Type 0 where
    pub waiting : Waiting chunk n r.window
    pub waited : r.waited_seqnum ≡ n % 256
    pub ack_room : r.ack_size ≡ 10
    pub buffer_room : length r.buffer ≡ 10
    pub pkt_ok : IsPkt r.pkt

  -- The window moved down by the chunks delivered
  Waiting-shift :
      (n m : ℕ) (d : Drained) (after : SortedList)
      → Finished chunk n m d
      → IsShift d.list.window (m - n) after
      → Waiting chunk m after
  Waiting-shift n m d after f s = record {
    slots = s.slots;
    counted = s.counted;
    start = s.start;
    free = elim (dec_lt (m - n) 31) [
      | yes k ↦ ground (arith, s.at 0, f.missing k)
      | no k ↦ ground (arith, s.at 0)
    ];
    at = λ i block e. elim (dec_lt i 31) [
      | yes k ↦
          let test : (i + (m - n) < 31)
              × (get_elem? d.list.window (i + (m - n)) ≡ some (some block)) =
            ground (arith, s.at i k) in
          let place : n + (i + (m - n)) ≡ m + i = omega (arith, f.draining.past) in
          subst (λ j. IsBlock chunk j block) place (f.draining.at (i + (m - n)) block test.1)
      | no k ↦ cc (e, get_elem?_out after.window i (omega (arith, s.slots)))
    ];
  }

  shift_lem : (n m : ℕ) (d : Drained) → Draining chunk n m d → ind (m % 256) (n % 256) ≡ m - n
  shift_lem n m d h =
      ind_lem (m % 256) (n % 256) (omega arith) (omega arith) ∙ omega (arith, h.past, h.within)

  reset_delivered :
      (n m : ℕ) (d : Drained) (old : ℕ)
      → Finished chunk n m d
      → old ≡ n % 256
      → Returns (Waiting chunk m) (SortedList.reset d.list d.waited old)
  reset_delivered n m d old f e =
      let shift : ind d.waited old ≡ m - n =
        rw (f.draining.waited, e) (shift_lem n m d f.draining) in
      Returns-map
        (reset_shifts d.list d.waited old f.draining.slots f.draining.counted
          (omega (arith, f.draining.past)) (omega (arith, f.draining.within))
          (λ j k. f.draining.empty j (omega arith)))
        λ after (s, _). Waiting-shift n m d after f (rw shift at s)

  -- The chunks from `n` on are written, one at least, and the number behind them is acknowledged.
  pub record Advanced (z : Zlib) (n : ℕ) (out : List Action × Outcome) : Type 0 where
    pub count : ℕ
    pub after : Receiver
    pub ack : Pkt
    pub goes_on : out.1 ≡ running after
    pub actions : out.0 ≡ deliveries chunk n (suc count) ++ (sent (wire z ack) ∷ [])
    pub is_ack : IsAck 2 ((n + suc count) % 256) ack
    pub last : 0 < length (chunk (n + count))
    pub receiving : Receiving (n + suc count) after

  module _ (z : Zlib) (round : Round) (block_ok : IsPkt round.ack_block)
      (sends : round.send_result ≢ 0) (writes : (k : ℕ) → round.write_result k ≢ 0) where
    -- The acknowledgement after the window is emptied
    IsAck-sent :
        (m : ℕ) (r : Receiver) (window : SortedList) (d : Drained)
        → Receiving m
            (record r { window = window; waited_seqnum = d.waited; receive_pkt = d.received })
        → (ack : Pkt) × IsAck 2 (m % 256) ack
          × ((after : Receiver) × Receiving m after
              × (send_ack z round
                    (record r {
                      window = window;
                      waited_seqnum = d.waited;
                      receive_pkt = d.received;
                    })
                    d.timestamp_ack
                    2
                    add_ack_sent
                  ≡ some (sent (wire z ack) ∷ [], running after)))
    IsAck-sent m r window d v =
        let s = record r { window = window; waited_seqnum = d.waited; receive_pkt = d.received } in
        let small : d.waited < 256 = omega (arith, v.waited) in
        let ack = build_ack round.ack_block d.timestamp_ack d.waited 2 in
        (
          ack,
          rw (← v.waited) (
              build_ack-IsAck round.ack_block d.timestamp_ack d.waited 2 block_ok (inl refl) small),
          (
            record s {
              buffer = wire z ack ++ drop 10 r.buffer;
              ack_size = 10;
              logger = add_ack_sent r.logger;
            },
            record {
              waiting = v.waiting;
              waited = v.waited;
              ack_room = refl;
              buffer_room =
                  length-ack_buffer z round block_ok sends s d.timestamp_ack 2 v.buffer_room small
                    (inl refl);
              pkt_ok = v.pkt_ok;
            },
            send_ack_lem z round block_ok sends s d.timestamp_ack 2 add_ack_sent v.ack_room
                v.buffer_room small (inl refl),
          ),
        )

    first_drained : Receiver → Drained
    first_drained r = record {
      list = r.window;
      waited = (r.waited_seqnum + 1) % 256;
      timestamp_ack = pkt_get_timestamp r.pkt;
      received = 1;
    }

    Draining-first :
        (n : ℕ) (r : Receiver)
        → Receiving n r
        → 0 < length (chunk n)
        → Draining chunk n (n + 1) (first_drained r)
    unfolding first_drained
    Draining-first n r v some_bytes = record {
      past = omega arith;
      within = omega arith;
      last = (let here : n + 1 - 1 ≡ n = omega arith in rw here some_bytes);
      waited = omega (arith, v.waited);
      slots = v.waiting.slots;
      counted = v.waiting.counted;
      empty = λ j k. (let lowest : j ≡ 0 = omega arith in rw lowest v.waiting.free);
      at = v.waiting.at;
    }

    -- The awaited packet of the stream is written with all that the window has behind it, the
    -- window moves on, and the next number is acknowledged.
    pub on_awaited_advances :
        (n : ℕ) (r : Receiver)
        → Receiving n r
        → Carries chunk n r.pkt
        → Returns (Advanced z n) (on_awaited z round r)
    unfolding on_awaited first_drained pkt_get_length pkt_get_payload deliveries
    on_awaited_advances n r v c =
        let first = Draining-first n r v c.some_bytes in
        let drain =
          drain_delivers chunk round.write_result writes 32 1 n (n + 1) (first_drained r) first
            (omega (arith, v.waiting.start)) (omega arith) in
        let (count, (final, ran, finished)) = Delivered-run drain in
        let (window, is_reset, waiting) =
          Returns-inv (reset_delivered n (n + 1 + count) final r.waited_seqnum finished v.waited) in
        let receiving : Receiving (n + 1 + count) (record r {
          window = window;
          waited_seqnum = final.waited;
          receive_pkt = final.received;
        }) =
          record {
            waiting = waiting;
            waited = finished.draining.waited;
            ack_room = v.ack_room;
            buffer_room = v.buffer_room;
            pkt_ok = v.pkt_ok;
          } in
        let (ack, is_ack, (after, receiving', acked)) =
          IsAck-sent (n + 1 + count) r window final receiving in
        let full : (r.pkt.length == 0) ≡ false = ground (arith, c.sized, c.some_bytes) in
        let present : (r.pkt.tr == 0) ≡ true = ground (arith, c.whole) in
        let bytes : read_bytes r.pkt.payload 0 r.pkt.length ≡ some (chunk n) = rw (
          c.sized,
          read_bytes_in r.pkt.payload 0 (length (chunk n)) (omega (arith, c.fits, c.array)),
          c.bytes,
        ) in
        let done : (round.write_result 0 == 0) ≡ false = ground (arith, writes 0) in
        let total : n + suc count ≡ n + 1 + count = omega arith in
        let end : n + 1 + count - 1 ≡ n + count = omega arith in
        rw (full, present, bytes, done, ran, is_reset, acked)
          (returns (record {
            count = count;
            after = after;
            ack = ack;
            goes_on = refl;
            actions = refl;
            is_ack = rw total is_ack;
            last = rw end at finished.draining.last;
            receiving = rw total receiving';
          }))
