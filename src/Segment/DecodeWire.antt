-- ===== src/Segment/DecodeWire.antt =====
-- `pkt_decode` of src/lib/segment/packet_implem.c on the wire format.
use linfo1341_project.Common.{
  ℕ, ◌+◌, ◌*◌, ◌/◌, ◌%◌, ◌^◌, ◌≤◌, ◌<◌, ◌≡◌, refl, sym, ap, ◌∙◌, true, false, ◌&&◌, ◌⊎◌, inl, inr,
  some, List, ◌∷◌, ◌++◌, arith, ltb, ◌==◌, if◌then◌else◌, Bool-cases, length, drop, append_assoc,
}
use native.Mathlib.Nat.{zero-add}
use linfo1341_project.Common.Memory.{
  net16, net32, host32, read_bytes_in, net_value-net16, net_value-net32, host_value-host32,
}
use linfo1341_project.Segment.{
  Pkt, pkt_ok, ptype_data, Zlib, checksum, IsPkt, pkt_set_tr, pkt_set_length, pkt_set_crc1,
  pkt_get_crc1,
}
use linfo1341_project.Segment.Encode.{size_below, clear_tr, encoded_size}
use linfo1341_project.Segment.Decode.{
  length_field, expected_size, decode_fields, decode_payload, decode_body, pkt_decode,
}
use linfo1341_project.Segment.Wire.{
  wire_header, header_checksum, payload_of, wire_payload, wire, IsCoherent, IsSendable,
  length-payload_of,
}
use linfo1341_project.Segment.DecodePayload.{==_refl, decode_payload-cut, decode_payload-none}
use linfo1341_project.Segment.EncodeWire.{encoded_size-length-wire, clear_tr-first, fits_not_below}

-- The packet that a buffer block `q` holds once `pkt` is decoded into it: a payload covers the
-- start of the array, and what the packet does not carry stays.
abbrev pub decoded : Zlib → Pkt → Pkt → Pkt
decoded z pkt q =
    if pkt.tr == 0 && ltb 0 pkt.length
    then record pkt {
      crc1 = header_checksum z pkt;
      payload = payload_of pkt ++ drop pkt.length q.payload;
      crc2 = checksum z (payload_of pkt);
    }
    else record pkt { crc1 = header_checksum z pkt; payload = q.payload; crc2 = q.crc2 }

pub set_tr_zero : (p : Pkt) → p.tr < 2 → (pkt_set_tr p 0).1 ≡ record p { tr = 0 }
unfolding pkt_set_tr
set_tr_zero p h = ground arith

pub set_length_small :
    (p : Pkt) (n : ℕ) → n ≤ 512 → (pkt_set_length p n).1 ≡ record p { length = n }
unfolding pkt_set_length
set_length_small p n h = ground arith

pub set_tr_back :
    (p : Pkt) (tr : ℕ)
    → p.tr ≡ 0
    → (p.type ≡ 1) ⊎ (tr ≡ 0)
    → tr < 2
    → (pkt_set_tr p tr).1 ≡ record p { tr = tr }
unfolding pkt_set_tr
set_tr_back p tr zero_now h small = ground arith

module _ (z : Zlib) (pkt : Pkt) (v : IsCoherent pkt) (q : Pkt) (b : ℕ)
    (e : b ≡ pkt.type * 64 + pkt.tr * 32 + pkt.window) where
  type_bits : b / 64 ≡ pkt.type
  type_bits = omega (arith, v.type_fits, v.tr_fits, v.window_fits)

  tr_bit : b / 32 % 2 ≡ pkt.tr
  tr_bit = omega (arith, v.type_fits, v.tr_fits, v.window_fits)

  window_bits : b % 32 ≡ pkt.window
  window_bits = omega (arith, v.type_fits, v.tr_fits, v.window_fits)

  -- What the first fields leave in the block
  abbrev fields_read : Pkt
  fields_read = record pkt { tr = 0; crc1 = q.crc1; payload = q.payload; crc2 = q.crc2 }

  pub decode_fields-data :
      (more : List ℕ)
      → (pkt.type == ptype_data) ≡ true
      → decode_fields (b ∷ net16 pkt.length ++ (pkt.seqnum ∷ host32 pkt.timestamp ++ more)) b q
        ≡ some (2, fields_read)
  unfolding decode_fields
  decode_fields-data more t =
      let src : List ℕ = b ∷ net16 pkt.length ++ (pkt.seqnum ∷ host32 pkt.timestamp ++ more) in
      let start : Pkt = record q { type = b / 64; tr = b / 32 % 2; window = b % 32 } in
      rw (
        set_tr_zero start (omega arith),
        type_bits,
        window_bits,
        t,
        read_bytes_in src 1 2 (omega arith),
        net_value-net16 pkt.length (omega (arith, v.length_fits)),
        set_length_small (record start { type = pkt.type; window = pkt.window; tr = 0 }) pkt.length
            v.length_fits,
        read_bytes_in src 3 1 (omega arith),
        read_bytes_in src 4 4 (omega arith),
        host_value-host32 pkt.timestamp v.timestamp_fits,
        zero-add,
      )

  pub decode_fields-control :
      (more : List ℕ)
      → (pkt.type == ptype_data) ≡ false
      → pkt.length ≡ 0
      → decode_fields (b ∷ pkt.seqnum ∷ host32 pkt.timestamp ++ more) b q ≡ some (0, fields_read)
  unfolding decode_fields
  decode_fields-control more t l =
      let src : List ℕ = b ∷ pkt.seqnum ∷ host32 pkt.timestamp ++ more in
      let start : Pkt = record q { type = b / 64; tr = b / 32 % 2; window = b % 32 } in
      rw (
        set_tr_zero start (omega arith),
        type_bits,
        window_bits,
        t,
        read_bytes_in src 1 1 (omega arith),
        read_bytes_in src 2 4 (omega arith),
        host_value-host32 pkt.timestamp v.timestamp_fits,
        zero-add,
        ← l,
      )

  -- Behind the header comes its checksum `crc`; then TR is set again and the payload is left.
  module _ (crc : ℕ) (more : List ℕ) where
    abbrev header_read : Pkt
    header_read = record pkt { crc1 = crc; payload = q.payload; crc2 = q.crc2 }

    abbrev front-data : List ℕ
    front-data = net16 pkt.length ++ (pkt.seqnum ∷ host32 pkt.timestamp)

    abbrev front-control : List ℕ
    front-control = pkt.seqnum ∷ host32 pkt.timestamp

    pub decode_body-data :
        (pkt.type == ptype_data) ≡ true
        → crc ≡ checksum z ((pkt.type * 64 + 0 * 32 + pkt.window) ∷ front-data)
        → decode_body z (b ∷ front-data ++ (net32 crc ++ more)) b q
          ≡ decode_payload z (b ∷ front-data ++ (net32 crc ++ more)) 2 header_read
    unfolding decode_body pkt_set_crc1 pkt_get_crc1
    decode_body-data t c =
        let src : List ℕ = b ∷ front-data ++ (net32 crc ++ more) in
        let small : crc % 2 ^ 32 ≡ crc = omega arith in
        let is_data : (b / 64 == ptype_data) ≡ true = rw type_bits t in
        let cleared : (if b / 32 % 2 == 1 then clear_tr (b ∷ front-data) else b ∷ front-data)
            ≡ (pkt.type * 64 + 0 * 32 + pkt.window) ∷ front-data =
          rw (tr_bit, e) (clear_tr-first pkt v.pkt_fits front-data) in
        rw (
          decode_fields-data (net32 crc ++ more) t,
          read_bytes_in src 8 4 (omega arith),
          is_data,
          read_bytes_in src 0 8 (omega arith),
          cleared,
          ← c,
          net_value-net32 crc (omega arith),
          tr_bit,
          small,
          ==_refl crc,
          set_tr_back (record fields_read { crc1 = crc }) pkt.tr refl (inl (ground arith))
              v.tr_fits,
        )

    pub decode_body-control :
        (pkt.type == ptype_data) ≡ false
        → (pkt.length ≡ 0) × (pkt.tr ≡ 0)
        → crc ≡ checksum z ((pkt.type * 64 + 0 * 32 + pkt.window) ∷ front-control)
        → decode_body z (b ∷ front-control ++ (net32 crc ++ more)) b q
          ≡ decode_payload z (b ∷ front-control ++ (net32 crc ++ more)) 0 header_read
    unfolding decode_body pkt_set_crc1 pkt_get_crc1
    decode_body-control t (l, r) c =
        let src : List ℕ = b ∷ front-control ++ (net32 crc ++ more) in
        let small : crc % 2 ^ 32 ≡ crc = omega arith in
        let is_data : (b / 64 == ptype_data) ≡ false = rw type_bits t in
        let cleared : (if b / 32 % 2 == 1 then clear_tr (b ∷ front-control) else b ∷ front-control)
            ≡ (pkt.type * 64 + 0 * 32 + pkt.window) ∷ front-control =
          rw (tr_bit, e) (clear_tr-first pkt v.pkt_fits front-control) in
        rw (
          decode_fields-control (net32 crc ++ more) t l,
          read_bytes_in src 6 4 (omega arith),
          is_data,
          read_bytes_in src 0 6 (omega arith),
          cleared,
          ← c,
          net_value-net32 crc (omega arith),
          tr_bit,
          small,
          ==_refl crc,
          set_tr_back (record fields_read { crc1 = crc }) pkt.tr refl (inr r) v.tr_fits,
        )

module _ (z : Zlib) (pkt : Pkt) (v : IsCoherent pkt) (q : Pkt) (qv : IsPkt q) where
  abbrev carried : Pkt
  carried = record pkt { crc1 = header_checksum z pkt; payload = q.payload; crc2 = q.crc2 }

  -- Behind a front of `10 + inc` bytes the payload and its checksum are taken, if there are any.
  decode_payload-wire :
      (pre rest : List ℕ) (inc : ℕ)
      → 10 + inc ≡ length pre
      → decode_payload z (pre ++ (wire_payload z pkt ++ rest)) inc carried
        ≡ some (pkt_ok, decoded z pkt q)
  decode_payload-wire pre rest inc e = elim (Bool-cases (pkt.tr == 0 && ltb 0 pkt.length)) [
    | inr c ↦ rw c (decode_payload-none z (pre ++ rest) inc carried c)
    | inl c ↦
        let crc = checksum z (payload_of pkt) in
        let value = net_value-net32 crc (omega arith) in
        let ran =
          decode_payload-cut z pre (payload_of pkt) (net32 crc) rest inc carried
            (omega (arith, v.pkt_fits, qv.payload_size)) c e
            (sym (length-payload_of pkt v.pkt_fits)) refl (omega (arith, value)) in
        let came = (rw (value, ==_refl crc) at ran) in
        rw (c, append_assoc (payload_of pkt) (net32 crc) rest) came
  ]

  expected_size-eq-encoded : expected_size pkt.type pkt.tr pkt.length ≡ encoded_size pkt
  unfolding expected_size encoded_size
  expected_size-eq-encoded = refl

  wire_shape :
      (rest : List ℕ) {header : List ℕ}
      → wire_header pkt ≡ header
      → wire z pkt ++ rest
        ≡ header ++ (net32 (header_checksum z pkt) ++ (wire_payload z pkt ++ rest))
  unfolding wire
  wire_shape rest e =
      append_assoc (wire_header pkt) (net32 (header_checksum z pkt) ++ wire_payload z pkt) rest
      ∙ ap (λ xs. xs ++ (net32 (header_checksum z pkt) ++ (wire_payload z pkt ++ rest))) e

  module _ (rest : List ℕ) (len : ℕ) (whole : length (wire z pkt) ≤ len)
      (small : len < 2 ^ 31) where
    first : ℕ
    first = pkt.type * 64 + pkt.tr * 32 + pkt.window

    big_enough : size_below len (encoded_size pkt) ≡ false
    big_enough =
        fits_not_below len (encoded_size pkt)
          (omega (arith, encoded_size-length-wire z pkt v.pkt_fits)) small

    decode_coherent-data :
        (pkt.type == ptype_data) ≡ true
        → pkt_decode z (wire z pkt ++ rest) len q ≡ some (pkt_ok, decoded z pkt q)
    unfolding pkt_decode length_field first
    decode_coherent-data t =
        let crc = header_checksum z pkt in
        let more : List ℕ = wire_payload z pkt ++ rest in
        let front : List ℕ = net16 pkt.length ++ (pkt.seqnum ∷ host32 pkt.timestamp) in
        let header : wire_header pkt ≡ first ∷ front = rw t in
        let is_data : (first / 64 == ptype_data) ≡ true = rw (type_bits z pkt v q first refl) t in
        let src : List ℕ = first ∷ front ++ (net32 crc ++ more) in
        rw
          (
            wire_shape rest header,
            is_data,
            read_bytes_in src 1 2 (omega arith),
            net_value-net16 pkt.length (omega (arith, v.length_fits)),
            type_bits z pkt v q first refl,
            tr_bit z pkt v q first refl,
            expected_size-eq-encoded,
            big_enough,
            decode_body-data z pkt v q first refl crc more t (rw t),
          )
          (decode_payload-wire (first ∷ front ++ net32 crc) rest 2 refl)

    decode_coherent-control :
        (pkt.type == ptype_data) ≡ false
        → (pkt.length ≡ 0) × (pkt.tr ≡ 0)
        → pkt_decode z (wire z pkt ++ rest) len q ≡ some (pkt_ok, decoded z pkt q)
    unfolding pkt_decode length_field first
    decode_coherent-control t plain =
        let crc = header_checksum z pkt in
        let more : List ℕ = wire_payload z pkt ++ rest in
        let front : List ℕ = pkt.seqnum ∷ host32 pkt.timestamp in
        let header : wire_header pkt ≡ first ∷ front = rw t in
        let is_data : (first / 64 == ptype_data) ≡ false = rw (type_bits z pkt v q first refl) t in
        let no_length : expected_size pkt.type pkt.tr 0 ≡ encoded_size pkt =
          rw (← plain.0) expected_size-eq-encoded in
        rw
          (
            wire_shape rest header,
            is_data,
            type_bits z pkt v q first refl,
            tr_bit z pkt v q first refl,
            no_length,
            big_enough,
            decode_body-control z pkt v q first refl crc more t plain (rw t),
          )
          (decode_payload-wire (first ∷ front ++ net32 crc) rest 0 refl)

    -- The same for type 0 too, which `pkt_decode` does not refuse
    pub decode_coherent : pkt_decode z (wire z pkt ++ rest) len q ≡ some (pkt_ok, decoded z pkt q)
    decode_coherent = elim (Bool-cases (pkt.type == ptype_data)) [
      | inl t ↦ decode_coherent-data t
      | inr t ↦ decode_coherent-control t (ground arith)
    ]

-- `pkt_decode` accepts the wire format of every packet that the protocol sends (a data packet,
-- or an ACK or NACK without payload and TR, with fields that fit), with anything behind it and
-- any length from the packet's own up to 2^31, in a well-formed block of any content, and
-- rebuilds the packet there: what the packet does not carry stays as it was in the block.
pub decode_wire :
    (z : Zlib) (pkt : Pkt) (q : Pkt) (rest : List ℕ) (len : ℕ)
    → IsSendable pkt
    → IsPkt q
    → length (wire z pkt) ≤ len
    → len < 2 ^ 31
    → pkt_decode z (wire z pkt ++ rest) len q ≡ some (pkt_ok, decoded z pkt q)
decode_wire z pkt q rest len v qv enough small =
    decode_coherent z pkt v.coherent q qv rest len enough small
