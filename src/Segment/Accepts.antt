-- ===== src/Segment/Accepts.antt =====
-- `pkt_decode` of src/lib/segment/packet_implem.c on arbitrary bytes without
-- the bit TR.
use linfo1341_project.Common.{
  ℕ, suc, ◌+◌, ◌*◌, ◌/◌, ◌%◌, ◌^◌, ◌≤◌, ◌<◌, ◌≡◌, refl, sym, ap, ◌∙◌, true, false, inl, inr, some,
  List, [], ◌∷◌, ◌++◌, arith, ◌==◌, subst, Bool-cases, length,
}
use linfo1341_project.Common.Memory.{
  net16, net32, host32, read_bytes_in, IsBytes, net_value, host_value,
}
use linfo1341_project.Segment.{Pkt, pkt_ok, ptype_data, Zlib, checksum, IsPkt}
use linfo1341_project.Segment.Encode.{encoded_size}
use linfo1341_project.Segment.Decode.{length_field, expected_size, decode_body, pkt_decode}
use linfo1341_project.Segment.Wire.{IsCoherent}
use linfo1341_project.Segment.DecodeWire.{
  decode_fields-data, decode_fields-control, decode_body-data, decode_body-control,
}
use linfo1341_project.Segment.AcceptsHeader.{
  Accepted, payload-Accepted, decode_body-crc1, Fits, pkt_decode-Fits,
}
use linfo1341_project.Segment.Fields.{net16-net_value, net32-net_value, host32-host_value}

module _ (z : Zlib) (q p : Pkt) (qv : IsPkt q) (len : ℕ) (crc : ℕ) (crc_fits : crc < 2 ^ 32)
    (more : List ℕ) (bytes : IsBytes more) (pkt : Pkt) (v : IsCoherent pkt) (plain : pkt.tr ≡ 0)
    (room : 0 < pkt.length → pkt.length + 4 ≤ length more) (enough : encoded_size pkt ≤ len) where
  abbrev first : ℕ
  first = pkt.type * 64 + pkt.tr * 32 + pkt.window

  -- The packet in the block `q`, before its payload
  abbrev before : Pkt
  before = record pkt { crc1 = crc; payload = q.payload; crc2 = q.crc2 }

  before-IsCoherent : IsCoherent before
  before-IsCoherent = record {
    pkt_fits = omega (arith, v.pkt_fits, qv.payload_size);
    plain = v.plain;
  }

  enough-before : encoded_size before ≤ len
  unfolding encoded_size
  enough-before = enough

  crc_read : net_value (net32 crc) % 2 ^ 32 ≡ crc
  crc_read = omega arith

  first_plain : first ≡ pkt.type * 64 + 0 * 32 + pkt.window
  first_plain = omega (arith, plain)

  tr_clear : first / 32 % 2 ≡ 0
  tr_clear = omega (arith, v.window_fits, plain)

  accepts-data :
      pkt.type ≡ 1
      → let src : List ℕ =
          first ∷ (net16 pkt.length ++ (pkt.seqnum ∷ host32 pkt.timestamp))
          ++ (net32 crc ++ more) in
        decode_body z src first q ≡ some (pkt_ok, p) → Accepted z src len p
  accepts-data kind e =
      let front : List ℕ = net16 pkt.length ++ (pkt.seqnum ∷ host32 pkt.timestamp) in
      let src : List ℕ = first ∷ front ++ (net32 crc ++ more) in
      let is_data : (pkt.type == ptype_data) ≡ true = rw kind refl in
      let is_data_bits : (first / 64 == ptype_data) ≡ true = ground (arith, v.window_fits) in
      let sum : checksum z (first ∷ front) ≡ crc =
        decode_body-crc1 z src first 2 q _ p (net32 crc) (first ∷ front)
          (decode_fields-data z pkt v q first refl (net32 crc ++ more) is_data)
          (read_bytes_in src 8 4 (omega arith))
          (rw is_data_bits (read_bytes_in src 0 8 (omega arith))) tr_clear e
        ∙ crc_read in
      let ran =
        decode_body-data z pkt v q first refl crc more is_data
          (sym sum ∙ ap (λ k. checksum z (k ∷ front)) first_plain) in
      payload-Accepted z first front crc more q before p before-IsCoherent len 2 plain
        (rw is_data refl) (rw (is_data, first_plain) refl) (sym sum) refl bytes room enough-before
        (sym ran ∙ e)

  accepts-control :
      (pkt.type == ptype_data) ≡ false
      → pkt.length ≡ 0
      → let src : List ℕ = first ∷ (pkt.seqnum ∷ host32 pkt.timestamp) ++ (net32 crc ++ more) in
        decode_body z src first q ≡ some (pkt_ok, p) → Accepted z src len p
  accepts-control other no_payload e =
      let front : List ℕ = pkt.seqnum ∷ host32 pkt.timestamp in
      let src : List ℕ = first ∷ front ++ (net32 crc ++ more) in
      let other_bits : (first / 64 == ptype_data) ≡ false = ground (arith, v.window_fits) in
      let sum : checksum z (first ∷ front) ≡ crc =
        decode_body-crc1 z src first 0 q _ p (net32 crc) (first ∷ front)
          (decode_fields-control z pkt v q first refl (net32 crc ++ more) other no_payload)
          (read_bytes_in src 6 4 (omega arith))
          (rw other_bits (read_bytes_in src 0 6 (omega arith))) tr_clear e
        ∙ crc_read in
      let ran =
        decode_body-control z pkt v q first refl crc more other (no_payload, plain)
          (sym sum ∙ ap (λ k. checksum z (k ∷ front)) first_plain) in
      payload-Accepted z first front crc more q before p before-IsCoherent len 0 plain
        (rw other refl) (rw (other, first_plain) refl) (sym sum) refl bytes room enough-before
        (sym ran ∙ e)

-- What the check of the size gives for a data packet without TR
data_size :
    (b n len more : ℕ)
    → (b / 64 == ptype_data) ≡ true
    → b / 32 % 2 ≡ 0
    → expected_size (b / 64) (b / 32 % 2) n ≤ len
    → len ≤ 12 + more
    → len ≤ 528
    → (expected_size 1 0 n ≤ len) × (n ≤ 512) × (0 < n → n + 4 ≤ more)
unfolding expected_size
data_size b n len more t plain enough inside small =
    (ground arith, ground arith, λ some_bytes. ground arith)

module _ (z : Zlib) (q p : Pkt) (qv : IsPkt q) (len : ℕ) (small : len ≤ 528) (b : ℕ)
    (plain : b / 32 % 2 ≡ 0) where
  whole-data :
      (src : List ℕ)
      → IsBytes (b ∷ src)
      → 11 ≤ length src
      → len ≤ suc (length src)
      → (b / 64 == ptype_data) ≡ true
      → Fits z (b ∷ src) b len q p
      → Accepted z (b ∷ src) len p
  unfolding length_field encoded_size expected_size
  whole-data (l ∷ m ∷ s ∷ t ∷ u ∷ v ∷ w ∷ c ∷ d ∷ e ∷ f ∷ more)
        (hb, (hl, (hm, (hs, (ht, (hu, (hv, (hw, (hc, (hd, (he, (hf, bytes)))))))))))) long inside
        kind fits =
      let n = net_value (l ∷ m ∷ []) in
      let crc = net_value (c ∷ d ∷ e ∷ f ∷ []) in
      let time = host_value (t ∷ u ∷ v ∷ w ∷ []) in
      let src : List ℕ = b ∷ l ∷ m ∷ s ∷ t ∷ u ∷ v ∷ w ∷ c ∷ d ∷ e ∷ f ∷ more in
      let field : length_field src (b / 64) ≡ some n =
        rw (kind, read_bytes_in src 1 2 (omega arith)) refl in
      let same_length : fits.length ≡ n = cc (field, fits.field) in
      let (enough, n_fits, room) =
        data_size b n len (length more) kind plain (rw (← same_length) fits.enough) (omega arith)
          small in
      let pkt : Pkt = record q {
        type = 1;
        tr = 0;
        window = b % 32;
        length = n;
        seqnum = s;
        timestamp = time;
      } in
      let valid : IsCoherent pkt = record {
        pkt_fits = omega (arith, qv.payload_size);
        plain = inl refl;
      } in
      let same_first : 64 + b % 32 ≡ b = ground arith in
      let same : (64 + b % 32) ∷ (net16 n ++ (s ∷ host32 time)) ++ (net32 crc ++ more) ≡ src = cc (
        same_first,
        net16-net_value l m hl hm,
        host32-host_value t u v w (ht, (hu, (hv, (hw, tt)))),
        net32-net_value c d e f (hc, (hd, (he, (hf, tt)))),
      ) in
      let ran : decode_body z src (64 + b % 32) q ≡ some (pkt_ok, p) = rw same_first fits.ran in
      subst (λ xs. Accepted z xs len p) same
        (accepts-data z q p qv len crc (omega arith) more bytes pkt valid refl room enough refl
          (subst (λ xs. decode_body z xs (64 + b % 32) q ≡ some (pkt_ok, p)) (sym same) ran))
  whole-data _ bytes long inside kind fits = absurd (omega arith)

  whole-control :
      (src : List ℕ)
      → IsBytes (b ∷ src)
      → 9 ≤ length src
      → (b / 64 == ptype_data) ≡ false
      → Fits z (b ∷ src) b len q p
      → Accepted z (b ∷ src) len p
  unfolding encoded_size expected_size
  whole-control (s ∷ t ∷ u ∷ v ∷ w ∷ c ∷ d ∷ e ∷ f ∷ more)
        (hb, (hs, (ht, (hu, (hv, (hw, (hc, (hd, (he, (hf, bytes)))))))))) long other fits =
      let crc = net_value (c ∷ d ∷ e ∷ f ∷ []) in
      let time = host_value (t ∷ u ∷ v ∷ w ∷ []) in
      let src : List ℕ = b ∷ s ∷ t ∷ u ∷ v ∷ w ∷ c ∷ d ∷ e ∷ f ∷ more in
      let pkt : Pkt = record q {
        type = b / 64;
        tr = 0;
        window = b % 32;
        length = 0;
        seqnum = s;
        timestamp = time;
      } in
      let valid : IsCoherent pkt = record {
        pkt_fits = omega (arith, qv.payload_size);
        plain = inr (refl, refl);
      } in
      let first = b / 64 * 64 + 0 * 32 + b % 32 in
      let same_first : first ≡ b = omega arith in
      let same : first ∷ (s ∷ host32 time) ++ (net32 crc ++ more) ≡ src = cc (
        same_first,
        host32-host_value t u v w (ht, (hu, (hv, (hw, tt)))),
        net32-net_value c d e f (hc, (hd, (he, (hf, tt)))),
      ) in
      let ran : decode_body z src first q ≡ some (pkt_ok, p) = rw same_first fits.ran in
      let enough : encoded_size pkt ≤ len = ground (arith, fits.enough) in
      subst (λ xs. Accepted z xs len p) same
        (accepts-control z q p qv len crc (omega arith) more bytes pkt valid refl
          (λ h. absurd (omega arith)) enough other refl
          (subst (λ xs. decode_body z xs first q ≡ some (pkt_ok, p)) (sym same) ran))
  whole-control _ bytes long other fits = absurd (omega arith)

-- When `pkt_decode` accepts at most 528 bytes of which the first has TR clear, into a
-- well-formed block, the fields of the packet that it leaves fit, only a data packet has a
-- payload or TR (the type may be 0, which the interface says is refused), and the bytes start
-- with exactly the wire format of that packet, checksums included, all of it within the given
-- length.
pub decode_accepts :
    (z : Zlib) (b : ℕ) (rest : List ℕ) (len : ℕ) (q p : Pkt)
    → IsBytes (b ∷ rest)
    → b / 32 % 2 ≡ 0
    → len ≤ length (b ∷ rest)
    → len ≤ 528
    → IsPkt q
    → pkt_decode z (b ∷ rest) len q ≡ some (pkt_ok, p)
    → Accepted z (b ∷ rest) len p
unfolding expected_size
decode_accepts z b rest len q p bytes plain inside small v e =
    let fits = pkt_decode-Fits z b rest len q p small e in
    elim (Bool-cases (b / 64 == ptype_data)) [
      | inl kind ↦
          whole-data z q p v len small b plain rest bytes (ground (arith, fits.enough)) inside kind
            fits
      | inr other ↦
          whole-control z q p v len small b plain rest bytes (ground (arith, fits.enough)) other
            fits
    ]
