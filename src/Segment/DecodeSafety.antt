-- ===== src/Segment/DecodeSafety.antt =====
-- `pkt_decode` of src/lib/segment/packet_implem.c on arbitrary bytes: no access out of bounds, and
-- a well-formed block afterwards.
use linfo1341_project.Common.{
  ℕ, ◌+◌, ◌/◌, ◌%◌, ◌^◌, ◌≤◌, ◌<◌, ◌≡◌, refl, Bool, true, false, ◌&&◌, some, List, [], ◌∷◌, ◌++◌,
  arith, ltb, ◌==◌, if◌then◌else◌, Bool-cases, inl, inr, length, take, drop, length-append,
  length-drop, ◌>>=◌, Returns, returns, Returns-bind, Returns-if,
}
use native.Mathlib.Nat.{le_trans}
use linfo1341_project.Common.Memory.{
  read_bytes, net_value, host_value, IsBytes, read_bytes-Returns, read_bytes_in, write_bytes_in,
  net_value-lt_byte, host_value-lt,
}
use linfo1341_project.Segment.{
  Pkt, PktStatusCode, ptype_data, Zlib, checksum, IsPkt, pkt_set_tr, pkt_set_length, pkt_set_crc1,
  pkt_set_crc2, pkt_get_crc1,
}
use linfo1341_project.Segment.Encode.{size_below, clear_tr}
use linfo1341_project.Segment.DecodeWire.{set_tr_zero}
use linfo1341_project.Segment.Decode.{
  length_field, expected_size, decode_fields, decode_payload, decode_body, pkt_decode,
}

-- Any status, with a well-formed packet
abbrev pub Decoded : PktStatusCode × Pkt → Type 0
Decoded r = IsPkt r.1

set_tr-IsPkt : {p : Pkt} (tr : ℕ) → IsPkt p → IsPkt (pkt_set_tr p tr).1
unfolding pkt_set_tr
set_tr-IsPkt tr v = ground arith

set_length-IsPkt : {p : Pkt} (n : ℕ) → IsPkt p → IsPkt (pkt_set_length p n).1
unfolding pkt_set_length
set_length-IsPkt n v = ground arith

set_length-le : (p : Pkt) (n : ℕ) → IsPkt p → (pkt_set_length p n).1.length ≤ n
unfolding pkt_set_length
set_length-le p n v = ground arith

type-set_length : (p : Pkt) (n : ℕ) → (pkt_set_length p n).1.type ≡ p.type
unfolding pkt_set_length
type-set_length p n = ground arith

pub stored-IsPkt :
    (p : Pkt) (payload : List ℕ) (crc2 : ℕ)
    → IsPkt p
    → length payload ≡ 512
    → IsPkt (record p { payload = payload; crc2 = crc2 })
stored-IsPkt p payload crc2 v size = omega arith

Decoded-if :
    (b : Bool) (s t : PktStatusCode) {p : Pkt} → IsPkt p → Decoded (if b then (s, p) else (t, p))
Decoded-if true s t v = v
Decoded-if false s t v = v

module _ (z : Zlib) (src : List ℕ) (bytes : IsBytes src) where
  decode_payload-safe :
      (inc : ℕ) (p : Pkt)
      → IsPkt p
      → (p.tr ≡ 0 → 0 < p.length → 14 + inc + p.length ≤ length src)
      → Returns Decoded (decode_payload z src inc p)
  unfolding decode_payload pkt_set_crc2
  decode_payload-safe inc p v room =
      Returns-if (p.tr == 0 && ltb 0 p.length)
        (λ c.
          let inside : 14 + inc + p.length ≤ length src = room (ground arith) (ground arith) in
          Returns-bind (read_bytes-Returns src (10 + inc) p.length bytes (omega arith))
            λ payload at.
              let size : length (payload ++ drop (0 + length payload) p.payload) ≡ 512 = omega (
                arith,
                length-append payload (drop (0 + length payload) p.payload),
                length-drop (0 + length payload) p.payload,
                at.size,
                v.length_fits,
                v.payload_size,
              ) in
              rw
                (write_bytes_in p.payload 0 payload
                  (omega (arith, at.size, v.length_fits, v.payload_size)))
                (Returns-bind (read_bytes-Returns src (10 + inc + p.length) 4 bytes (omega arith))
                  λ crc2 _.
                    rw
                      (read_bytes_in (payload ++ drop (0 + length payload) p.payload) 0 p.length
                        (omega (arith, size, v.length_fits)))
                      (returns (Decoded-if _ _ _ (stored-IsPkt p _ _ v size)))))
        (λ _. returns v)

  -- What the first fields leave, for a first byte `b` and a length field of `n`
  record FieldsRead (b n : ℕ) (r : ℕ × Pkt) : Type 0 where
    valid : IsPkt r.1
    shift : r.0 ≡ (if b / 64 == ptype_data then 2 else 0)
    kept : r.1.length ≤ n
    type_is : r.1.type ≡ b / 64

  module _ (b : ℕ) (byte : b < 256) (q : Pkt) (v : IsPkt q) where
    start-IsPkt : IsPkt (record q { type = b / 64; tr = b / 32 % 2; window = b % 32 })
    start-IsPkt = omega arith

    abbrev start : Pkt
    start = record q { type = b / 64; tr = b / 32 % 2; window = b % 32 }

    fields_tail :
        (inc n : ℕ) (p : Pkt)
        → IsPkt p
        → p.length ≤ n
        → p.type ≡ b / 64
        → inc ≡ (if b / 64 == ptype_data then 2 else 0)
        → 6 + inc ≤ length src
        → Returns (FieldsRead b n) (do
          seqnum ← read_bytes src (1 + inc) 1
          timestamp ← read_bytes src (2 + inc) 4
          some (inc, record p { seqnum = net_value seqnum; timestamp = host_value timestamp }))
    fields_tail inc n p v k ty e h =
        Returns-bind (read_bytes-Returns src (1 + inc) 1 bytes (omega arith)) λ seqnum s.
          Returns-bind (read_bytes-Returns src (2 + inc) 4 bytes (omega arith)) λ timestamp t.
            let seq = net_value-lt_byte seqnum s.is_bytes s.size in
            let time = host_value-lt timestamp t.is_bytes t.size in
            returns (record { valid = omega arith; shift = e; kept = k; type_is = ty })

    length_field_lem :
        (b / 64 == ptype_data) ≡ true
        → 3 ≤ length src
        → length_field src (b / 64) ≡ some (net_value (take 2 (drop 1 src)))
    unfolding length_field
    length_field_lem t h = rw (t, read_bytes_in src 1 2 (omega arith))

    decode_fields-safe :
        (n : ℕ)
        → length_field src (b / 64) ≡ some n
        → (if b / 64 == ptype_data then 12 else 10) ≤ length src
        → Returns (FieldsRead b n) (decode_fields src b q)
    unfolding decode_fields
    decode_fields-safe n e h = elim (Bool-cases (b / 64 == ptype_data)) [
      | inl t ↦
          let field = net_value (take 2 (drop 1 src)) in
          let enough : 12 ≤ length src = ground arith in
          let is_field : field ≡ n = cc (length_field_lem t (omega arith)) in
          rw (set_tr_zero start (omega arith), t, read_bytes_in src 1 2 (omega arith))
            (fields_tail 2 n (pkt_set_length (record start { tr = 0 }) field).1
              (set_length-IsPkt field (omega arith))
              (le_trans (set_length-le (record start { tr = 0 }) field (omega arith)) (omega arith))
              (type-set_length (record start { tr = 0 }) field) (rw t) (omega arith))
      | inr t ↦
          rw (set_tr_zero start (omega arith), t)
            (fields_tail 0 n (record start { tr = 0; length = 0 }) (omega arith) (omega arith) refl
              (rw t) (ground arith))
    ]

    length_field-control :
        (n : ℕ) → (b / 64 == ptype_data) ≡ false → length_field src (b / 64) ≡ some n → n ≡ 0
    unfolding length_field
    length_field-control n t e = ground arith

    -- The size check leaves room for the payload that is then read.
    payload_room :
        (n inc : ℕ) (p : Pkt)
        → length_field src (b / 64) ≡ some n
        → expected_size (b / 64) (b / 32 % 2) n ≤ length src
        → FieldsRead b n (inc, p)
        → let p' = (pkt_set_tr p (b / 32 % 2)).1 in
          p'.tr ≡ 0 → 0 < p'.length → 14 + inc + p'.length ≤ length src
    unfolding expected_size pkt_set_tr
    payload_room n inc p e h f = ground (arith, f, length_field-control n)

    crc1-FieldsRead :
        (n inc crc1 : ℕ) (p : Pkt)
        → FieldsRead b n (inc, p)
        → FieldsRead b n (inc, record p { crc1 = crc1 })
    crc1-FieldsRead n inc crc1 p f = omega arith

    -- With the bytes that the size check asks for in the buffer, the body runs to its end.
    decode_body-safe :
        (n : ℕ)
        → length_field src (b / 64) ≡ some n
        → expected_size (b / 64) (b / 32 % 2) n ≤ length src
        → Returns Decoded (decode_body z src b q)
    unfolding decode_body expected_size pkt_set_crc1 pkt_get_crc1
    decode_body-safe n e h = Returns-bind (decode_fields-safe n e (ground arith)) λ (inc, p) f.
        Returns-bind (read_bytes-Returns src (6 + inc) 4 bytes (ground (arith, f))) λ crc1 _.
          Returns-bind (read_bytes-Returns src 0 _ bytes (ground arith)) λ header _.
            let summed = record p { crc1 = net_value crc1 % 2 ^ 32 } in
            let g = crc1-FieldsRead n inc (net_value crc1 % 2 ^ 32) p f in
            Returns-if
              (checksum z (if b / 32 % 2 == 1 then clear_tr header else header)
                == net_value crc1 % 2 ^ 32)
              (λ _.
                decode_payload-safe inc _ (set_tr-IsPkt {p = summed} (b / 32 % 2) g.valid)
                  (payload_room n inc summed e h g))
              (λ _. returns g.valid)

    length_field_total : 3 ≤ length src → (n : ℕ) × (length_field src (b / 64) ≡ some n)
    length_field_total h = elim (Bool-cases (b / 64 == ptype_data)) [
      | inl t ↦ (net_value (take 2 (drop 1 src)), length_field_lem t h)
      | inr t ↦ (0, unfold length_field in rw t)
    ]

pub size_below-le : (len n m : ℕ) → size_below len n ≡ false → len ≤ m → n ≤ m
size_below-le len n m e k = ground arith

-- Whatever bytes arrive, `pkt_decode` stays inside the buffer when `len` of them are there and
-- at least the three that it looks at first, and leaves a well-formed packet in a block that was
-- well-formed.
pub decode_safe :
    (z : Zlib) (src : List ℕ) (len : ℕ) (q : Pkt)
    → IsBytes src
    → 3 ≤ length src
    → len ≤ length src
    → IsPkt q
    → Returns Decoded (pkt_decode z src len q)
unfolding pkt_decode
decode_safe z [] len q bytes h k v = absurd (omega arith)
decode_safe z (b ∷ rest) len q bytes h k v =
    let (n, field) = length_field_total z (b ∷ rest) bytes b bytes.0 q v h in
    rw field (
      Returns-if (size_below len (expected_size (b / 64) (b / 32 % 2) n)) (λ _. returns v)
        (λ fits.
          decode_body-safe z (b ∷ rest) bytes b bytes.0 q v n field
            (size_below-le len _ (length (b ∷ rest)) fits k)))
