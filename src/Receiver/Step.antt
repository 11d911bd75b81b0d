-- ===== src/Receiver/Step.antt =====
-- A datagram that arrives in src/lib/send_data/read_write_loop_server.c, from the bytes on.
use linfo1341_project.Common.{
  ℕ, ◌+◌, ◌^◌, ◌<◌, ◌≡◌, ◌≢◌, ◌∙◌, true, false, Bool-cases, inl, inr, ◌&&◌, some, List, ◌++◌, arith,
  ◌==◌, ltb, length, length-append, length-drop, take-append, drop, Returns,
}
use linfo1341_project.Segment.{Pkt, pkt_ok, Zlib, IsPkt, pkt_get_type, pkt_get_tr, pkt_get_seqnum}
use linfo1341_project.Segment.Decode.{pkt_decode}
use linfo1341_project.Segment.Wire.{wire, payload_of, length-payload_of, IsCoherent}
use linfo1341_project.Segment.Encode.{encoded_size}
use linfo1341_project.Segment.EncodeWire.{encoded_size-length-wire}
use linfo1341_project.Segment.DecodeWire.{decoded, decode_coherent}
use linfo1341_project.Stats.{add_data_received}
use linfo1341_project.SortedList.{Pstl}
use linfo1341_project.Receiver.{Receiver, Round, size_of_int, on_packet, step}
use linfo1341_project.Receiver.Stream.{Carries}
use linfo1341_project.Receiver.Deliver.{Receiving, Advanced, on_awaited_advances}
use linfo1341_project.Receiver.Store.{Receiving-with, Stores, on_unawaited-Stores}

-- The datagram of `pkt` arrives in this round.
pub record Arrives (z : Zlib) (pkt : Pkt) (round : Round) : Type 0 where
  pub polled : round.is_running ≢ 0
  pub event : round.revents ≢ 0
  pub received : round.nb ≡ length (wire z pkt)
  pub rest : List ℕ
  pub bytes : round.data_buffer ≡ wire z pkt ++ rest

module _ (chunk : ℕ → List ℕ) (z : Zlib) where
  -- The decoded packet carries what the sent one does.
  pub Carries-decoded :
      (m : ℕ) (pkt q : Pkt)
      → IsCoherent pkt
      → IsPkt q
      → Carries chunk m pkt
      → Carries chunk m (decoded z pkt q)
  Carries-decoded m pkt q s v c =
      let present : (pkt.tr == 0 && ltb 0 pkt.length) ≡ true =
        ground (arith, c.whole, c.sized, c.some_bytes) in
      let size = length-payload_of pkt s.pkt_fits in
      rw present record {
        is_data = c.is_data;
        whole = c.whole;
        numbered = c.numbered;
        sized = c.sized;
        some_bytes = c.some_bytes;
        fits = c.fits;
        array = omega (
          arith,
          length-append (payload_of pkt) (drop pkt.length q.payload),
          length-drop pkt.length q.payload,
          v.payload_size,
          s.pkt_fits.length_fits,
        );
        bytes =
            take-append (payload_of pkt) (drop pkt.length q.payload) (length (chunk m))
              (omega (arith, c.sized))
            ∙ rw c.sized c.bytes;
      }

  -- The block that a packet is decoded into is well-formed still.
  pub decoded-IsPkt : (pkt q : Pkt) → IsCoherent pkt → IsPkt q → IsPkt (decoded z pkt q)
  decoded-IsPkt pkt q s v =
      let f = s.pkt_fits in
      let size = length-payload_of pkt f in
      elim (Bool-cases (pkt.tr == 0 && ltb 0 pkt.length)) [
        | inl e ↦ rw e record {
          type_fits = f.type_fits;
          tr_fits = f.tr_fits;
          window_fits = f.window_fits;
          length_fits = f.length_fits;
          seqnum_fits = f.seqnum_fits;
          timestamp_fits = f.timestamp_fits;
          payload_size = omega (
            arith,
            length-append (payload_of pkt) (drop pkt.length q.payload),
            length-drop pkt.length q.payload,
            v.payload_size,
            f.length_fits,
          );
        }
        | inr e ↦ rw e record {
          type_fits = f.type_fits;
          tr_fits = f.tr_fits;
          window_fits = f.window_fits;
          length_fits = f.length_fits;
          seqnum_fits = f.seqnum_fits;
          timestamp_fits = f.timestamp_fits;
          payload_size = v.payload_size;
        }
      ]

  module _ (round : Round) (block_ok : IsPkt round.ack_block) (sends : round.send_result ≢ 0)
      (writes : (k : ℕ) → round.write_result k ≢ 0) where
    length-wire_between :
        (pkt : Pkt) → IsCoherent pkt → (0 < length (wire z pkt)) × (length (wire z pkt) < 2 ^ 31)
    unfolding encoded_size
    length-wire_between pkt s = (
      ground (arith, encoded_size-length-wire z pkt s.pkt_fits),
      ground (arith, encoded_size-length-wire z pkt s.pkt_fits, s.pkt_fits.length_fits),
    )

    -- A round in which the datagram of a packet arrives is `on_packet` on the decoded packet.
    pub step-Arrives :
        (r : Receiver) (pkt : Pkt)
        → IsCoherent pkt
        → IsPkt r.pkt
        → Arrives z pkt round
        → step z round r ≡ on_packet z round (record r { pkt = decoded z pkt r.pkt })
    unfolding step
    step-Arrives r pkt s v a =
        let (some_left, small) = length-wire_between pkt s in
        let polled : (round.is_running == 0) ≡ false = ground (arith, a.polled) in
        let event : (round.revents == 0) ≡ false = ground (arith, a.event) in
        let some_bytes : (round.nb == 0) ≡ false = ground (arith, a.received, some_left) in
        let size : size_of_int round.nb ≡ length (wire z pkt) = ground (arith, a.received, small) in
        let came : pkt_decode z round.data_buffer (size_of_int round.nb) r.pkt
            ≡ some (pkt_ok, decoded z pkt r.pkt) =
          rw (a.bytes, size)
            (decode_coherent z pkt s r.pkt v a.rest (length (wire z pkt)) (omega arith) small) in
        rw (polled, event, some_bytes, came)

    on_packet_awaited :
        (n : ℕ) (r : Receiver)
        → Receiving chunk n r
        → Carries chunk n r.pkt
        → Returns (Advanced chunk z n) (on_packet z round r)
    unfolding on_packet pkt_get_type pkt_get_tr pkt_get_seqnum
    on_packet_awaited n r v c =
        let is_data : (r.pkt.type == 1) ≡ true = ground (arith, c.is_data) in
        let whole : (r.pkt.tr == 1) ≡ false = ground (arith, c.whole) in
        let awaited : (r.pkt.seqnum == r.waited_seqnum) ≡ true =
          ground (arith, c.numbered, v.waited) in
        let counted = Receiving-with chunk n r r.window (add_data_received r.logger) v v.waiting in
        rw (is_data, whole, awaited)
          (on_awaited_advances chunk z round block_ok sends writes n
            (record r { logger = add_data_received r.logger }) counted c)

    on_packet_ahead :
        (n k : ℕ) (r : Receiver)
        → Receiving chunk n r
        → Carries chunk (n + k) r.pkt
        → 0 < k
        → k < 31
        → (fresh : Pstl) → round.slot_block ≡ some fresh
        → length fresh.payload ≡ 512
        → Returns (Stores chunk z n k) (on_packet z round r)
    unfolding on_packet pkt_get_type pkt_get_tr pkt_get_seqnum
    on_packet_ahead n k r v c low high fresh f room =
        let is_data : (r.pkt.type == 1) ≡ true = ground (arith, c.is_data) in
        let whole : (r.pkt.tr == 1) ≡ false = ground (arith, c.whole) in
        let other : (r.pkt.seqnum == r.waited_seqnum) ≡ false =
          ground (arith, c.numbered, v.waited) in
        let counted = Receiving-with chunk n r r.window (add_data_received r.logger) v v.waiting in
        rw (is_data, whole, other)
          (on_unawaited-Stores chunk z round block_ok sends n k
            (record r { logger = add_data_received r.logger }) counted c low high fresh f room)

    -- When a round of the receiver is handed the datagram of the awaited packet (the wire format
    -- of a data packet, with fields that fit, that carries chunk n of the stream), the window
    -- holds only chunks of the stream, `poll` reports an event, the blocks of packets are
    -- well-formed, and every `write` and `send` of the round succeeds, the round returns without
    -- a fault: it writes chunk n and the `count` chunks behind it that the window has, in order,
    -- then sends one acknowledgement that carries the number of the next missing chunk, and the
    -- receiver goes on with that chunk awaited and its invariant kept.
    pub step_advances :
        (n : ℕ) (r : Receiver) (pkt : Pkt)
        → Receiving chunk n r
        → Carries chunk n pkt
        → IsCoherent pkt
        → Arrives z pkt round
        → Returns (Advanced chunk z n) (step z round r)
    step_advances n r pkt v c s a =
        let ready : Receiving chunk n (record r { pkt = decoded z pkt r.pkt }) = record {
          waiting = v.waiting;
          waited = v.waited;
          ack_room = v.ack_room;
          buffer_room = v.buffer_room;
          pkt_ok = decoded-IsPkt pkt r.pkt s v.pkt_ok;
        } in
        rw (step-Arrives r pkt s v.pkt_ok a) (
          on_packet_awaited n (record r { pkt = decoded z pkt r.pkt }) ready
            (Carries-decoded n pkt r.pkt s v.pkt_ok c))

    -- When a round of the receiver is handed the datagram of a packet 1 to 30 numbers ahead of
    -- the awaited chunk n, and its `poll` reports an event, its `malloc` of a slot and its
    -- `send` succeed, and the blocks of packets are well-formed, the round returns without a
    -- fault and writes nothing: the chunk is in its slot of the window afterwards, whether it
    -- was there before or not, chunk n is awaited still with the invariant kept, and what is
    -- sent is at most the acknowledgement of n.
    pub step-Stores :
        (n k : ℕ) (r : Receiver) (pkt : Pkt)
        → Receiving chunk n r
        → Carries chunk (n + k) pkt
        → IsCoherent pkt
        → Arrives z pkt round
        → 0 < k
        → k < 31
        → (fresh : Pstl) → round.slot_block ≡ some fresh
        → length fresh.payload ≡ 512
        → Returns (Stores chunk z n k) (step z round r)
    step-Stores n k r pkt v c s a low high fresh f room =
        let ready : Receiving chunk n (record r { pkt = decoded z pkt r.pkt }) = record {
          waiting = v.waiting;
          waited = v.waited;
          ack_room = v.ack_room;
          buffer_room = v.buffer_room;
          pkt_ok = decoded-IsPkt pkt r.pkt s v.pkt_ok;
        } in
        rw (step-Arrives r pkt s v.pkt_ok a) (
          on_packet_ahead n k (record r { pkt = decoded z pkt r.pkt }) ready
            (Carries-decoded (n + k) pkt r.pkt s v.pkt_ok c) low high fresh f room)
