-- ===== src/Sender/Window.antt =====
-- What the window of src/lib/send_data/read_write_loop_sender.c holds, and new data in it.
use linfo1341_project.Common.{
  ℕ, suc, ◌+◌, ◌-◌, ◌%◌, ◌^◌, ◌≤◌, ◌<◌, ◌≡◌, refl, ap, if◌then◌else◌, ◌∙◌, true, false, ◌&&◌, some,
  List, [], ◌∷◌, ◌++◌, arith, ◌==◌, ltb, inl, length, length-append, length-drop, take, take-append,
  drop, Returns, returns,
}
use linfo1341_project.Common.Memory.{read_bytes, read_bytes_in, write_bytes_in, read_bytes_next}
use linfo1341_project.Segment.{
  Pkt, Zlib, IsPkt, pkt_new, pkt_set_type, pkt_set_tr, pkt_set_window, pkt_set_seqnum,
  pkt_set_length, pkt_set_timestamp, pkt_set_payload,
}
use linfo1341_project.Segment.Encode.{encoded_size}
use linfo1341_project.Segment.Wire.{wire, IsCoherent}
use linfo1341_project.Segment.EncodeWire.{encode_wire, encoded_size-length-wire}
use linfo1341_project.Queue.Model.{Holds}
use linfo1341_project.Queue.Refine.{add_refines}
use linfo1341_project.Stats.{int_lt, add_data_sent}
use linfo1341_project.Receiver.Stream.{Carries}
use linfo1341_project.Sender.{
  Sender, Round, Outcome, running, returned, send_error, build_header, build_pkt, send_data,
  on_input,
}

module _ (chunk : ℕ → List ℕ) where
  -- The packets carry the chunks from `base` on, in order.
  unfoldable pub InFlight : ℕ → List Pkt → Type 0
  InFlight base [] = Unit {0}
  InFlight base (x ∷ xs) = Carries chunk base x × IsCoherent x × InFlight (base + 1) xs

  -- The chunks below `base` are acknowledged, and `xs` are on their way.
  pub record Sending (base : ℕ) (xs : List Pkt) (s : Sender) : Type 0 where
    pub holds : Holds s.window xs
    pub counted : s.pkt_in_window ≡ length xs
    pub open_window : s.sending_window_size ≤ 31
    pub room : length s.pkt_buffer ≡ 528
    pub numbered : s.seqnum ≡ (base + length xs) % 256
    pub in_flight : InFlight base xs

  pub InFlight-append :
      (base : ℕ) (xs : List Pkt) (x : Pkt)
      → InFlight base xs
      → Carries chunk (base + length xs) x
      → IsCoherent x
      → InFlight base (xs ++ x ∷ [])
  unfolding InFlight
  InFlight-append base [] x h c s =
      let same : base + 0 ≡ base = omega arith in (rw same at c, s, tt)
  InFlight-append base (y ∷ ys) x h c s =
      let same : base + suc (length ys) ≡ base + 1 + length ys = omega arith in
      (h.0, h.1, InFlight-append (base + 1) ys x (h.2) (rw same at c) s)

  -- `read` gave the next chunk of the input.
  pub record Reads (n : ℕ) (round : Round) : Type 0 where
    pub sized : round.input_nb ≡ length (chunk n)
    pub some_bytes : 0 < length (chunk n)
    pub fits : length (chunk n) ≤ 512
    pub array : length round.input_buffer ≡ 512
    pub bytes : take (length (chunk n)) round.input_buffer ≡ chunk n

  -- The header of a data packet, with the rest of the block as it was
  abbrev pub header : Pkt → (window_size seqnum size timestamp : ℕ) → Pkt
  header block window_size seqnum size timestamp = record {
    type = 1;
    tr = 0;
    window = window_size % 32;
    length = size;
    seqnum = seqnum % 2 ^ 8;
    timestamp = timestamp % 2 ^ 32;
    crc1 = block.crc1;
    payload = block.payload;
    crc2 = block.crc2;
  }

  pub build_header_lem :
      (block : Pkt) (window_size seqnum size timestamp : ℕ)
      → IsPkt block
      → window_size ≤ 31
      → size ≤ 512
      → build_header block window_size seqnum size timestamp
        ≡ header block window_size seqnum size timestamp
  unfolding build_header pkt_set_type pkt_set_tr pkt_set_window pkt_set_seqnum pkt_set_length
      pkt_set_timestamp
  build_header_lem block window_size seqnum size timestamp v w fits =
      let tr_ok : ltb 1 block.tr ≡ false = ground (arith, v.tr_fits) in
      let open_ok : ltb 31 window_size ≡ false = ground arith in
      let short : ltb 512 (size % 2 ^ 16) ≡ false = ground arith in
      let cut : size % 2 ^ 16 ≡ size = omega arith in rw (tr_ok, open_ok, short, cut)

  built :
      (n window_size seqnum timestamp : ℕ) (round : Round)
      → IsPkt round.data_block
      → window_size ≤ 31
      → seqnum ≡ n % 256
      → Reads n round
      → (pkt : Pkt) × (build_pkt round.data_block window_size seqnum round.input_nb
            round.input_buffer timestamp
          ≡ some pkt)
        × Carries chunk n pkt
        × IsCoherent pkt
  unfolding build_pkt pkt_set_length pkt_set_payload
  built n window_size seqnum timestamp round v w e r =
      let bytes = chunk n in
      let size = r.sized in
      let short : ltb 512 (length bytes % 2 ^ 16) ≡ false = ground (arith, r.fits) in
      let cut : length bytes % 2 ^ 16 ≡ length bytes = omega (arith, r.fits) in
      let read : read_bytes round.input_buffer 0 (length bytes) ≡ some bytes =
        read_bytes_in round.input_buffer 0 (length bytes) (omega (arith, r.fits, r.array))
        ∙ ap some r.bytes in
      let write =
        write_bytes_in round.data_block.payload 0 bytes (omega (arith, r.fits, v.payload_size)) in
      let pkt : Pkt = record (header round.data_block window_size seqnum (length bytes) timestamp) {
        payload = bytes ++ drop (0 + length bytes) round.data_block.payload;
      } in
      let array : length pkt.payload ≡ 512 = omega (
        arith,
        length-append bytes (drop (0 + length bytes) round.data_block.payload),
        length-drop (0 + length bytes) round.data_block.payload,
        v.payload_size,
        r.fits,
      ) in
      (
        pkt,
        rw (
          size,
          build_header_lem round.data_block window_size seqnum (length bytes) timestamp v w r.fits,
          short,
          cut,
          read,
          write,
        ),
        record {
          is_data = refl;
          whole = refl;
          numbered = omega (arith, e);
          sized = refl;
          some_bytes = r.some_bytes;
          fits = r.fits;
          array = array;
          bytes =
              take-append bytes (drop (0 + length bytes) round.data_block.payload) (length bytes)
                refl;
        },
        record {
          pkt_fits = record {
            type_fits = omega arith;
            tr_fits = omega arith;
            window_fits = omega arith;
            length_fits = r.fits;
            seqnum_fits = omega arith;
            timestamp_fits = omega arith;
            payload_size = array;
          };
          plain = inl refl;
        },
      )

  pub length-wire_le : (z : Zlib) (pkt : Pkt) → IsCoherent pkt → length (wire z pkt) ≤ 528
  unfolding encoded_size
  length-wire_le z pkt s =
      ground (arith, encoded_size-length-wire z pkt s.pkt_fits, s.pkt_fits.length_fits)

  -- The next chunk goes out, and its packet is the newest of the window.
  pub record Sent (z : Zlib) (base : ℕ) (xs : List Pkt) (out : List (List ℕ) × Outcome)
      : Type 0 where
    pub pkt : Pkt
    pub after : Sender
    pub goes_on : out.1 ≡ running after
    pub sends : out.0 ≡ wire z pkt ∷ []
    pub carries : Carries chunk (base + length xs) pkt
    pub coherent_ok : IsCoherent pkt
    pub sending : Sending base (xs ++ pkt ∷ []) after

  -- The datagram of the next chunk is handed to `send`, and what follows depends on its result.
  pub record Handed (z : Zlib) (round : Round) (base : ℕ) (xs : List Pkt) (s : Sender)
      : Type 0 where
    pub pkt : Pkt
    pub after : Sender
    pub carries : Carries chunk (base + length xs) pkt
    pub coherent_ok : IsCoherent pkt
    pub sending : Sending base (xs ++ pkt ∷ []) after
    pub at :
        on_input z round s
        ≡ some (
          wire z pkt ∷ [],
          (if int_lt round.send_result 0 then returned send_error [] else running after),
        )

  module _ (z : Zlib) (round : Round) (base : ℕ) (xs : List Pkt) (s : Sender) where
    pub on_input-Handed :
        Sending base xs s
        → IsPkt round.data_block
        → Reads (base + length xs) round
        → round.input_ready ≡ true
        → s.pkt_in_window < s.sending_window_size
        → Handed z round base xs s
    unfolding on_input send_data pkt_new
    on_input-Handed h v r ready place =
        let open_places = (s.sending_window_size + 256 - s.pkt_in_window) % 256 in
        let test : (round.input_ready && ltb s.pkt_in_window s.sending_window_size) ≡ true =
          ground arith in
        let full : (round.input_nb == 0) ≡ false = ground (arith, r.sized, r.some_bytes) in
        let (pkt, is_built, carries, coherent) =
          built (base + length xs) open_places s.seqnum round.data_time round v
            (omega (arith, h.open_window)) h.numbered r in
        let (window, is_added, holds) =
          add_refines s.window xs h.holds pkt (omega (arith, h.counted, h.open_window)) in
        let size = length-wire_le z pkt coherent in
        let bytes =
          read_bytes_next [] (wire z pkt) (drop (length (wire z pkt)) s.pkt_buffer) 0
            (length (wire z pkt)) refl refl in
        record {
          pkt = pkt;
          after = record s {
            window = window;
            payload_buffer = round.input_buffer;
            nb = round.input_nb;
            pkt_buffer = wire z pkt ++ drop (length (wire z pkt)) s.pkt_buffer;
            pkt_in_window = (s.pkt_in_window + 1) % 256;
            seqnum = (s.seqnum + 1) % 256;
            logger = add_data_sent s.logger;
          };
          carries = carries;
          coherent_ok = coherent;
          sending = record {
            holds = holds;
            counted = omega (arith, h.counted, h.open_window, length-append xs (pkt ∷ []));
            open_window = h.open_window;
            room = omega (
              arith,
              length-append (wire z pkt) (drop (length (wire z pkt)) s.pkt_buffer),
              length-drop (length (wire z pkt)) s.pkt_buffer,
              h.room,
            );
            numbered = omega (arith, h.numbered, length-append xs (pkt ∷ []));
            in_flight = InFlight-append base xs pkt h.in_flight carries coherent;
          };
          at =
              rw
                (
                  test,
                  full,
                  is_built,
                  encode_wire z pkt coherent s.pkt_buffer 528 size (omega arith)
                      (omega (arith, h.room)),
                  is_added,
                  bytes,
                )
                refl;
        }

    -- When the input is ready, the window has room, `read` gives the next chunk (1 to 512
    -- bytes), the block of the packet is well-formed and `send` does not fail, the sender sends
    -- exactly one datagram, the wire format of a packet that carries the next chunk of the
    -- stream, and that packet is the newest of the window behind the others, with the invariant
    -- of the sender kept: no access leaves the queue.
    pub on_input_sends :
        Sending base xs s
        → IsPkt round.data_block
        → Reads (base + length xs) round
        → round.input_ready ≡ true
        → s.pkt_in_window < s.sending_window_size
        → round.send_result < 2 ^ 31
        → Returns (Sent z base xs) (on_input z round s)
    on_input_sends h v r ready place ok =
        let p = on_input-Handed h v r ready place in
        let done : int_lt round.send_result 0 ≡ false = ground arith in
        rw (p.at, done)
          (returns (record {
            pkt = p.pkt;
            after = p.after;
            goes_on = refl;
            sends = refl;
            carries = p.carries;
            coherent_ok = p.coherent_ok;
            sending = p.sending;
          }))
