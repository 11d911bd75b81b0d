-- ===== src/Segment/EncodeWire.antt =====
-- What `pkt_encode` of src/lib/segment/packet_implem.c writes is the wire format.
use linfo1341_project.Common.{
  ℕ, ◌+◌, ◌*◌, ◌^◌, ◌≤◌, ◌<◌, ◌≡◌, refl, sym, ap, subst, true, false, ◌&&◌, inl, inr, some, List,
  [], ◌∷◌, ◌++◌, arith, ltb, ◌==◌, if◌then◌else◌, Bool-cases, length, length-append, take, drop,
  append-nil, append_assoc,
}
use linfo1341_project.Common.Memory.{
  read_bytes, write_bytes, net16, net32, host32, write_bytes_next, read_bytes_in,
}
use linfo1341_project.Segment.{Pkt, pkt_ok, e_nomem, ptype_data, Zlib, checksum, IsPkt}
use linfo1341_project.Segment.Encode.{
  size_below, clear_tr, encoded_size, first_byte, encode_header, encode_crc1, encode_payload,
  pkt_encode,
}
use linfo1341_project.Segment.Wire.{
  wire_header, header_checksum, payload_of, wire_payload, wire, IsCoherent, first_byte_lem,
  length-payload_of,
}

module _ (pkt : Pkt) (v : IsPkt pkt) (buf : List ℕ) where
  encode_header-data :
      (pkt.type == ptype_data) ≡ true
      → 12 ≤ length buf
      → encode_header pkt buf ≡ some (2, wire_header pkt ++ drop 8 buf)
  unfolding encode_header
  encode_header-data e h = rw (
    e,
    ← first_byte_lem pkt v,
    write_bytes_next buf [] (first_byte pkt ∷ []) 0 refl (omega arith),
    write_bytes_next buf (first_byte pkt ∷ []) (net16 pkt.length) 1 refl (omega arith),
    write_bytes_next buf (first_byte pkt ∷ net16 pkt.length) (pkt.seqnum ∷ []) 3 refl (omega arith),
    write_bytes_next buf (first_byte pkt ∷ net16 pkt.length ++ pkt.seqnum ∷ [])
        (host32 pkt.timestamp) 4 refl (omega arith),
  )

  encode_header-control :
      (pkt.type == ptype_data) ≡ false
      → 10 ≤ length buf
      → encode_header pkt buf ≡ some (0, wire_header pkt ++ drop 6 buf)
  unfolding encode_header
  encode_header-control e h = rw (
    e,
    ← first_byte_lem pkt v,
    write_bytes_next buf [] (first_byte pkt ∷ []) 0 refl (omega arith),
    write_bytes_next buf (first_byte pkt ∷ []) (pkt.seqnum ∷ []) 1 refl (omega arith),
    write_bytes_next buf (first_byte pkt ∷ pkt.seqnum ∷ []) (host32 pkt.timestamp) 2 refl
        (omega arith),
  )

-- The rest of a packet behind a header `pre` of `10 + inc` bytes.
module _ (z : Zlib) (pkt : Pkt) (v : IsPkt pkt) (buf pre : List ℕ) (inc : ℕ)
    (e : 10 + inc ≡ length pre) where
  abbrev Rest : List ℕ → Type 0
  Rest rest =
      encode_payload z pkt inc (pre ++ drop (10 + inc) buf)
      ≡ some (pkt_ok, (pre ++ rest) ++ drop (10 + inc + length rest) buf, 10 + inc + length rest)

  payload_bytes : read_bytes pkt.payload 0 pkt.length ≡ some (payload_of pkt)
  payload_bytes =
      read_bytes_in pkt.payload 0 pkt.length (omega (arith, v.payload_size, v.length_fits))

  encode_payload-truncated : (pkt.tr == 0) ≡ false → Rest []
  unfolding encode_payload
  encode_payload-truncated t =
      let none : 10 + inc + 0 ≡ 10 + inc = omega arith in rw (t, append-nil, none)

  encode_payload-empty : (pkt.tr == 0) ≡ true → pkt.length ≡ 0 → 10 + inc ≤ length buf → Rest []
  unfolding encode_payload
  encode_payload-empty t l h =
      let bytes : payload_of pkt ≡ [] = ap (λ n. take n pkt.payload) l in
      let none : 10 + inc + 0 ≡ 10 + inc = omega arith in
      rw (
        t,
        payload_bytes,
        bytes,
        write_bytes_next buf pre [] (10 + inc) e (omega arith),
        l,
        append-nil,
        none,
      )

  encode_payload-full :
      (pkt.tr == 0) ≡ true
      → 0 < pkt.length
      → inc ≡ 2
      → 14 + inc + pkt.length ≤ length buf
      → Rest (payload_of pkt ++ net32 (checksum z (payload_of pkt)))
  unfolding encode_payload
  encode_payload-full t l i h =
      let size = length-payload_of pkt v in
      let positive : (pkt.length == 0) ≡ false = ground arith in
      let crc = net32 (checksum z (payload_of pkt)) in
      let total : 16 + pkt.length ≡ 10 + inc + length (payload_of pkt ++ crc) =
        omega (arith, length-append (payload_of pkt) crc) in
      let behind : 10 + inc + pkt.length + 4 ≡ 10 + inc + length (payload_of pkt ++ crc) =
        omega (arith, length-append (payload_of pkt) crc) in
      let first : write_bytes (pre ++ drop (10 + inc) buf) (10 + inc) (payload_of pkt)
          ≡ some ((pre ++ payload_of pkt) ++ drop (10 + inc + pkt.length) buf) =
        rw size at (write_bytes_next buf pre (payload_of pkt) (10 + inc) e (omega arith)) in
      let second =
        write_bytes_next buf (pre ++ payload_of pkt) crc (10 + inc + pkt.length)
          (omega (arith, length-append pre (payload_of pkt))) (omega arith) in
      rw (t, payload_bytes, first, positive, second, total, behind)
        (ap
          (λ bytes. some (
            pkt_ok,
            bytes ++ drop (10 + inc + length (payload_of pkt ++ crc)) buf,
            10 + inc + length (payload_of pkt ++ crc),
          ))
          (append_assoc pre (payload_of pkt) crc))

module _ (z : Zlib) (pkt : Pkt) (v : IsPkt pkt) where
  length-wire_header : length (wire_header pkt) ≡ (if pkt.type == ptype_data then 8 else 6)
  length-wire_header = elim (Bool-cases (pkt.type == ptype_data)) [ inl e ↦ rw e | inr e ↦ rw e ]

  length-wire_payload :
      length (wire_payload z pkt) ≡ (if pkt.tr == 0 && ltb 0 pkt.length then pkt.length + 4 else 0)
  length-wire_payload = elim (Bool-cases (pkt.tr == 0 && ltb 0 pkt.length)) [
    | inl e ↦ rw e (
        omega (
          arith,
          length-append (payload_of pkt) (net32 (checksum z (payload_of pkt))),
          length-payload_of pkt v,
        ))
    | inr e ↦ rw e
  ]

  -- The size that `pkt_encode` asks for is that of the packet on the wire.
  pub encoded_size-length-wire : encoded_size pkt ≡ length (wire z pkt)
  unfolding encoded_size wire
  encoded_size-length-wire =
      let front = net32 (header_checksum z pkt) ++ wire_payload z pkt in
      ground (arith, length-wire_header, length-wire_payload, length-append (wire_header pkt) front)

pub encoded_size_bounds :
    (pkt : Pkt)
    → IsPkt pkt
    → ((if pkt.type == ptype_data then 12 else 10) ≤ encoded_size pkt) × (encoded_size pkt ≤ 528)
unfolding encoded_size
encoded_size_bounds pkt v = ground arith

pub fits_not_below : (len n : ℕ) → n ≤ len → len < 2 ^ 31 → size_below len n ≡ false
fits_not_below len n h k = ground arith

pub clear_tr-first :
    (pkt : Pkt)
    → IsPkt pkt
    → (rest : List ℕ)
    → (if pkt.tr == 1
        then clear_tr ((pkt.type * 64 + pkt.tr * 32 + pkt.window) ∷ rest)
        else (pkt.type * 64 + pkt.tr * 32 + pkt.window) ∷ rest)
      ≡ (pkt.type * 64 + 0 * 32 + pkt.window) ∷ rest
clear_tr-first pkt v rest = ground arith

module _ (z : Zlib) (pkt : Pkt) (v : IsPkt pkt) (buf : List ℕ) where
  encode_crc1-data :
      (pkt.type == ptype_data) ≡ true
      → 12 ≤ length buf
      → encode_crc1 z pkt buf
        ≡ some (2, (wire_header pkt ++ net32 (header_checksum z pkt)) ++ drop 12 buf)
  unfolding encode_crc1
  encode_crc1-data e h =
      let first = pkt.type * 64 + pkt.tr * 32 + pkt.window in
      let tail : List ℕ = net16 pkt.length ++ pkt.seqnum ∷ host32 pkt.timestamp in
      rw (
        encode_header-data pkt v buf e h,
        e,
        read_bytes_in (first ∷ tail ++ drop 8 buf) 0 8 (omega arith),
        clear_tr-first pkt v tail,
        write_bytes_next buf (first ∷ tail)
            (net32 (checksum z ((pkt.type * 64 + 0 * 32 + pkt.window) ∷ tail))) 8 refl
            (omega arith),
      )

  encode_crc1-control :
      (pkt.type == ptype_data) ≡ false
      → 10 ≤ length buf
      → encode_crc1 z pkt buf
        ≡ some (0, (wire_header pkt ++ net32 (header_checksum z pkt)) ++ drop 10 buf)
  unfolding encode_crc1
  encode_crc1-control e h =
      let first = pkt.type * 64 + pkt.tr * 32 + pkt.window in
      let tail : List ℕ = pkt.seqnum ∷ host32 pkt.timestamp in
      rw (
        encode_header-control pkt v buf e h,
        e,
        read_bytes_in (first ∷ tail ++ drop 6 buf) 0 6 (omega arith),
        clear_tr-first pkt v tail,
        write_bytes_next buf (first ∷ tail)
            (net32 (checksum z ((pkt.type * 64 + 0 * 32 + pkt.window) ∷ tail))) 6 refl
            (omega arith),
      )

module _ (z : Zlib) (pkt : Pkt) (v : IsCoherent pkt) (buf : List ℕ) where
  encode_payload-wire :
      (pre : List ℕ) (inc : ℕ) (e : 10 + inc ≡ length pre)
      → (0 < pkt.length → inc ≡ 2)
      → 10 + inc + length (wire_payload z pkt) ≤ length buf
      → Rest z pkt v.pkt_fits buf pre inc e (wire_payload z pkt)
  encode_payload-wire pre inc e i h = elim (Bool-cases (pkt.tr == 0)) [
    | inr t ↦
        let none : wire_payload z pkt ≡ [] = rw t in
        subst (Rest z pkt v.pkt_fits buf pre inc e) (sym none)
          (encode_payload-truncated z pkt v.pkt_fits buf pre inc e t)
    | inl t ↦ elim (Bool-cases (ltb 0 pkt.length)) [
      | inr l ↦
          let none : wire_payload z pkt ≡ [] = rw (t, l) in
          subst (Rest z pkt v.pkt_fits buf pre inc e) (sym none)
            (encode_payload-empty z pkt v.pkt_fits buf pre inc e t (ground arith) (omega arith))
      | inl l ↦
          let full : wire_payload z pkt ≡ payload_of pkt ++ net32 (checksum z (payload_of pkt)) =
            rw (t, l) in
          subst (Rest z pkt v.pkt_fits buf pre inc e) (sym full) (
            encode_payload-full z pkt v.pkt_fits buf pre inc e t (ground arith) (i (ground arith))
              (ground (arith, length-wire_payload z pkt v.pkt_fits)))
    ]
  ]

  -- With the front of the packet written, the rest completes the wire format.
  encode_whole :
      (inc len : ℕ)
      → 10 + inc ≡ length (wire_header pkt ++ net32 (header_checksum z pkt))
      → (0 < pkt.length → inc ≡ 2)
      → encode_crc1 z pkt buf
        ≡ some (inc, (wire_header pkt ++ net32 (header_checksum z pkt)) ++ drop (10 + inc) buf)
      → length (wire z pkt) ≤ len
      → len < 2 ^ 31
      → len ≤ length buf
      → pkt_encode z pkt buf len
        ≡ some (pkt_ok, wire z pkt ++ drop (length (wire z pkt)) buf, length (wire z pkt))
  unfolding pkt_encode
  encode_whole inc len e i front fits small room =
      let pre = wire_header pkt ++ net32 (header_checksum z pkt) in
      let whole : pre ++ wire_payload z pkt ≡ wire z pkt =
        unfold wire in
        append_assoc (wire_header pkt) (net32 (header_checksum z pkt)) (wire_payload z pkt) in
      let size : 10 + inc + length (wire_payload z pkt) ≡ length (wire z pkt) =
        omega (arith, ap length whole, length-append pre (wire_payload z pkt)) in
      let asked = encoded_size-length-wire z pkt v.pkt_fits in
      rw
        (
          fits_not_below len (encoded_size pkt) (omega arith) small,
          front,
          encode_payload-wire pre inc e i (omega arith),
          size,
        )
        (ap (λ bytes. some (pkt_ok, bytes ++ drop (length (wire z pkt)) buf, length (wire z pkt)))
          whole)

  -- In a buffer with room for it (a length below 2^31 that the buffer has), `pkt_encode` writes
  -- exactly the wire format of a packet whose fields fit and of which only a data packet has a
  -- payload or TR, leaves what is behind it alone, and reports `PKT_OK` with the number of bytes
  -- written.
  pub encode_wire :
      (len : ℕ)
      → length (wire z pkt) ≤ len
      → len < 2 ^ 31
      → len ≤ length buf
      → pkt_encode z pkt buf len
        ≡ some (pkt_ok, wire z pkt ++ drop (length (wire z pkt)) buf, length (wire z pkt))
  encode_wire len fits small room =
      let size = encoded_size-length-wire z pkt v.pkt_fits in
      let bounds = encoded_size_bounds pkt v.pkt_fits in
      elim (Bool-cases (pkt.type == ptype_data)) [
        | inl e ↦
            encode_whole 2 len (rw e) (λ _. refl)
              (encode_crc1-data z pkt v.pkt_fits buf e (ground arith)) fits small room
        | inr e ↦
            encode_whole 0 len (rw e) (λ l. absurd (ground arith))
              (encode_crc1-control z pkt v.pkt_fits buf e (ground arith)) fits small room
      ]

  -- With less room than the wire format takes of a packet whose fields fit and of which only a
  -- data packet has a payload or TR, `pkt_encode` writes nothing and reports `E_NOMEM`.
  pub encode_nomem :
      (len : ℕ) → len < length (wire z pkt) → pkt_encode z pkt buf len ≡ some (e_nomem, buf, len)
  unfolding pkt_encode
  encode_nomem len short =
      ground (arith, encoded_size-length-wire z pkt v.pkt_fits, encoded_size_bounds pkt v.pkt_fits)
