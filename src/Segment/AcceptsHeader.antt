-- ===== src/Segment/AcceptsHeader.antt =====
-- What `pkt_decode` of src/lib/segment/packet_implem.c accepts: the header, its checksum and the size.
use linfo1341_project.Common.{
  ℕ, ◌+◌, ◌/◌, ◌%◌, ◌^◌, ◌≤◌, ◌<◌, ◌≡◌, refl, sym, ap, ◌∙◌, inl, inr, Option, none, some, List, ◌∷◌,
  ◌++◌, arith, ◌==◌, if◌then◌else◌, Bool-cases, length, subst, ==_iff, length-append, append_assoc,
}
use linfo1341_project.Common.Memory.{read_bytes, net32, IsBytes, net_value}
use linfo1341_project.Segment.{Pkt, pkt_ok, ptype_data, Zlib, checksum, pkt_set_crc1, pkt_get_crc1}
use linfo1341_project.Segment.Encode.{size_below, encoded_size}
use linfo1341_project.Segment.EncodeWire.{encoded_size-length-wire}
use linfo1341_project.Segment.DecodeSafety.{stored-IsPkt, size_below-le}
use linfo1341_project.Segment.Decode.{
  length_field, expected_size, decode_fields, decode_payload, decode_body, pkt_decode,
}
use linfo1341_project.Segment.Wire.{wire_header, header_checksum, wire_payload, wire, IsCoherent}
use linfo1341_project.Segment.AcceptsPayload.{decode_payload-accepts}

module _ (z : Zlib) where
  wire_lem :
      (p : Pkt) → wire z p ≡ wire_header p ++ (net32 (header_checksum z p) ++ wire_payload z p)
  unfolding wire
  wire_lem p = refl

  stored-encoded_size :
      (p : Pkt) (payload : List ℕ) (crc2 : ℕ)
      → encoded_size (record p { payload = payload; crc2 = crc2 }) ≡ encoded_size p
  unfolding encoded_size
  stored-encoded_size p payload crc2 = refl

  -- The buffer starts with the packet as it is sent, and the packet is one that the protocol sends.
  pub record Accepted (src : List ℕ) (len : ℕ) (p : Pkt) : Type 0 where
    pub rest : List ℕ
    pub whole : src ≡ wire z p ++ rest
    pub coherent : IsCoherent p
    pub fits : length (wire z p) ≤ len

  module _ (b : ℕ) (front : List ℕ) (crc : ℕ) (more : List ℕ) (q before p : Pkt)
      (v : IsCoherent before) where
    pub payload-Accepted :
        (len inc : ℕ)
        → before.tr ≡ 0
        → wire_header before ≡ b ∷ front
        → wire_header (record before { tr = 0 }) ≡ b ∷ front
        → crc ≡ checksum z (b ∷ front)
        → 5 + inc ≡ length front
        → IsBytes more
        → (0 < before.length → before.length + 4 ≤ length more)
        → encoded_size before ≤ len
        → decode_payload z (b ∷ front ++ (net32 crc ++ more)) inc before ≡ some (pkt_ok, p)
        → Accepted (b ∷ front ++ (net32 crc ++ more)) len p
    payload-Accepted len inc plain header cleared sum at bytes room enough e =
        let src : List ℕ = b ∷ front ++ net32 crc in
        let a =
          decode_payload-accepts z src more inc before p v.pkt_fits plain
            (omega (arith, length-append front (net32 crc))) bytes room
            (rw (append_assoc front (net32 crc) more) e) in
        let h : wire_header p ≡ b ∷ front = ap (λ x. wire_header x) a.same ∙ header in
        let c : header_checksum z p ≡ crc =
          ap (λ x. header_checksum z x) a.same ∙ (rw cleared (sym sum)) in
        let s : IsCoherent p = subst IsCoherent (sym a.same) (record {
          pkt_fits = stored-IsPkt before p.payload p.crc2 v.pkt_fits a.array;
          plain = v.plain;
        }) in
        let payload = wire_payload z p in
        let sent : wire z p ≡ b ∷ front ++ (net32 crc ++ payload) =
          wire_lem p
          ∙ ap (λ x. x ++ (net32 (header_checksum z p) ++ payload)) h
          ∙ ap (λ k. b ∷ front ++ (net32 k ++ payload)) c in
        let size : encoded_size p ≡ encoded_size before =
          ap (λ x. encoded_size x) a.same ∙ stored-encoded_size before p.payload p.crc2 in
        record {
          rest = a.rest;
          whole =
              ap (λ m. b ∷ front ++ (net32 crc ++ m)) a.whole
              ∙ sym (append_assoc (b ∷ front) (net32 crc ++ payload) a.rest)
              ∙ ap (λ w. w ++ a.rest) (sym sent);
          coherent = s;
          fits = omega (arith, encoded_size-length-wire z p s.pkt_fits);
        }

  -- A body that is accepted passed the check of the header.
  pub decode_body-crc1 :
      (src : List ℕ) (b inc : ℕ) (q fields p : Pkt) (four header : List ℕ)
      → decode_fields src b q ≡ some (inc, fields)
      → read_bytes src (6 + inc) 4 ≡ some four
      → read_bytes src 0 (if b / 64 == ptype_data then 8 else 6) ≡ some header
      → b / 32 % 2 ≡ 0
      → decode_body z src b q ≡ some (pkt_ok, p)
      → checksum z header ≡ net_value four % 2 ^ 32
  unfolding decode_body pkt_set_crc1 pkt_get_crc1
  decode_body-crc1 src b inc q fields p four header f r h plain e =
      let checked = (rw (f, r, h, plain) at e) in
      elim (Bool-cases (checksum z header == net_value four % 2 ^ 32)) [
        | inl agrees ↦ (==_iff _ _).0 agrees
        | inr differs ↦ cc ((rw differs at checked))
      ]

  -- A packet that is accepted passed the check of the size.
  pub record Fits (src : List ℕ) (b len : ℕ) (q p : Pkt) : Type 0 where
    pub length : ℕ
    pub field : length_field src (b / 64) ≡ some length
    pub enough : expected_size (b / 64) (b / 32 % 2) length ≤ len
    pub ran : decode_body z src b q ≡ some (pkt_ok, p)

  pub pkt_decode-Fits :
      (b : ℕ) (rest : List ℕ) (len : ℕ) (q p : Pkt)
      → len ≤ 528
      → pkt_decode z (b ∷ rest) len q ≡ some (pkt_ok, p)
      → Fits (b ∷ rest) b len q p
  unfolding pkt_decode
  pkt_decode-Fits b rest len q p small e = from_field (length_field (b ∷ rest) (b / 64)) refl
    where
      from_field :
          (field : Option ℕ) → length_field (b ∷ rest) (b / 64) ≡ field → Fits (b ∷ rest) b len q p
      from_field none f = let refused = (rw f at e) in cc refused
      from_field (some length) f =
          let found = (rw f at e) in
          elim (Bool-cases (size_below len (expected_size (b / 64) (b / 32 % 2) length))) [
            | inl below ↦ let refused = (rw below at found) in cc refused
            | inr fits ↦ record {
              length = length;
              field = f;
              enough = size_below-le len _ len fits (omega arith);
              ran = (rw fits at found);
            }
          ]
