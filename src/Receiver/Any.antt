-- ===== src/Receiver/Any.antt =====
-- Any data packet of the stream that arrives in src/lib/send_data/read_write_loop_server.c: awaited,
-- early or late.
use linfo1341_project.Common.{
  ℕ, suc, ◌+◌, ◌-◌, ◌%◌, ◌≤◌, ◌<◌, ◌≡◌, ◌≢◌, ◌⊎◌, inl, inr, refl, subst, true, false, some, List,
  [], ◌∷◌, ◌++◌, arith, ◌==◌, length, Returns, Returns-map,
}
use native.Mathlib.Decide.{dec_lt, ℕ_discrete}
use linfo1341_project.Segment.{Pkt, Zlib, IsPkt, pkt_get_type, pkt_get_tr, pkt_get_seqnum}
use linfo1341_project.Segment.Wire.{wire, IsCoherent}
use linfo1341_project.Segment.DecodeWire.{decoded}
use linfo1341_project.Stats.{add_data_received}
use linfo1341_project.SortedList.{Pstl}
use linfo1341_project.Receiver.{Receiver, Round, Action, sent, Outcome, running, on_packet, step}
use linfo1341_project.Receiver.Stream.{Carries, deliveries}
use linfo1341_project.Receiver.Ack.{IsAck}
use linfo1341_project.Receiver.Deliver.{Receiving, Advanced}
use linfo1341_project.Receiver.Store.{Answers, acknowledges, Keeps, on_unawaited_ignores}
use linfo1341_project.Receiver.Step.{
  Arrives, Carries-decoded, decoded-IsPkt, step-Arrives, step_advances, step-Stores,
}

-- What the tests of the code ask of the calls of a round: no `write` and no `send` gives 0 (the
-- code takes -1 for a success as well), and the two `malloc` do not fail.
pub record Passes (round : Round) : Type 0 where
  pub ack_ok : IsPkt round.ack_block
  pub sends : round.send_result ≢ 0
  pub writes : (k : ℕ) → round.write_result k ≢ 0
  pub fresh : Pstl
  pub slot : round.slot_block ≡ some fresh
  pub slot_room : length fresh.payload ≡ 512

-- The two `malloc` of a round do not fail.
pub record Allocates (round : Round) : Type 0 where
  pub ack_ok : IsPkt round.ack_block
  pub fresh : Pstl
  pub slot : round.slot_block ≡ some fresh
  pub slot_room : length fresh.payload ≡ 512

module _ (chunk : ℕ → List ℕ) (z : Zlib) where
  -- The chunks from `n` on are written, `count` of them, and what is sent is at most the
  -- acknowledgement of the next one.
  pub record Delivers (n : ℕ) (out : List Action × Outcome) : Type 0 where
    pub count : ℕ
    pub after : Receiver
    pub goes_on : out.1 ≡ running after
    pub receiving : Receiving chunk (n + count) after
    pub answer : List Action
    pub actions : out.0 ≡ deliveries chunk n count ++ answer
    pub answers : Answers z (n + count) answer
    pub last : (count ≡ 0) ⊎ (0 < length (chunk (n + count - 1)))
    pub acked :
        0 < count
        → (ack : Pkt) × IsAck 2 ((n + count) % 256) ack × (answer ≡ sent (wire z ack) ∷ [])

  Advanced-Delivers :
      (n : ℕ) (out : List Action × Outcome) → Advanced chunk z n out → Delivers n out
  Advanced-Delivers n out a = record {
    count = suc a.count;
    after = a.after;
    goes_on = a.goes_on;
    receiving = a.receiving;
    answer = sent (wire z a.ack) ∷ [];
    actions = a.actions;
    answers = acknowledges a.ack a.is_ack;
    last = (let end : n + suc a.count - 1 ≡ n + a.count = omega arith in inr (rw end a.last));
    acked = λ _. (a.ack, a.is_ack, refl);
  }

  pub Keeps-Delivers :
      (n : ℕ) {window : _} (out : List Action × Outcome)
      → Keeps chunk z n window out
      → Delivers n out
  unfolding deliveries
  Keeps-Delivers n out k =
      let same : n ≡ n + 0 = omega arith in
      record {
        count = 0;
        after = k.after;
        goes_on = k.goes_on;
        receiving = subst (λ m. Receiving chunk m k.after) same k.receiving;
        answer = out.0;
        actions = refl;
        answers = subst (λ m. Answers z m (out.0)) same k.answers;
        last = inl refl;
        acked = λ none_new. absurd (omega arith);
      }

  module _ (round : Round) (works : Passes round) where
    step-ignores :
        (n m : ℕ) (r : Receiver) (pkt : Pkt)
        → Receiving chunk n r
        → Carries chunk m pkt
        → IsCoherent pkt
        → Arrives z pkt round
        → m < n
        → n ≤ m + 223
        → Returns (Keeps chunk z n r.window) (step z round r)
    unfolding on_packet pkt_get_type pkt_get_tr pkt_get_seqnum
    step-ignores n m r pkt v c s a late near =
        let d = Carries-decoded chunk z m pkt r.pkt s v.pkt_ok c in
        let q = decoded z pkt r.pkt in
        let t = record r { pkt = q; logger = add_data_received r.logger } in
        let is_data : (q.type == 1) ≡ true = ground (arith, d.is_data) in
        let whole : (q.tr == 1) ≡ false = ground (arith, d.whole) in
        let other : (q.seqnum == r.waited_seqnum) ≡ false = ground (arith, d.numbered, v.waited) in
        let u : Receiving chunk n t = record {
          waiting = v.waiting;
          waited = v.waited;
          ack_room = v.ack_room;
          buffer_room = v.buffer_room;
          pkt_ok = decoded-IsPkt chunk z pkt r.pkt s v.pkt_ok;
        } in
        rw
          (
            step-Arrives chunk z round works.ack_ok works.sends works.writes r pkt s v.pkt_ok a,
            is_data,
            whole,
            other,
          )
          (on_unawaited_ignores chunk z round works.ack_ok works.sends n t u
            (omega (arith, d.numbered)) (omega (arith, d.numbered)))

    -- When a round of the receiver is handed the datagram of a data packet of the stream, at
    -- most 223 chunks behind the awaited chunk n and at most 30 ahead, no `write` or `send` of
    -- the round gives 0, and the blocks of `malloc` are well-formed, it returns without a fault:
    -- it writes no chunk or some from n on, in order, sends at most the acknowledgement of the
    -- chunk that is awaited then, and exactly that one when it writes, and goes on with its
    -- invariant kept.
    pub step-Delivers :
        (n m : ℕ) (r : Receiver) (pkt : Pkt)
        → Receiving chunk n r
        → Carries chunk m pkt
        → IsCoherent pkt
        → Arrives z pkt round
        → n ≤ m + 223
        → m ≤ n + 30
        → Returns (Delivers n) (step z round r)
    step-Delivers n m r pkt v c s a old early = elim (dec_lt m n) [
      | yes late ↦
          Returns-map (step-ignores n m r pkt v c s a late old) λ out k. Keeps-Delivers n out k
      | no later ↦ elim (ℕ_discrete m n) [
        | yes e ↦
            Returns-map
              (step_advances chunk z round works.ack_ok works.sends works.writes n r pkt v
                (rw e at c) s a)
              λ out k. Advanced-Delivers n out k
        | no ne ↦
            let place : m ≡ n + (m - n) = omega arith in
            Returns-map
              (step-Stores chunk z round works.ack_ok works.sends works.writes n (m - n) r pkt v
                (rw place at c) s a (omega arith) (omega arith) works.fresh works.slot
                works.slot_room)
              λ out k. Keeps-Delivers n out k.keeps
      ]
    ]
