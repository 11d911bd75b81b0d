-- ===== src/Segment/AcceptsPayload.antt =====
-- `pkt_decode` of src/lib/segment/packet_implem.c: the payload and the checksums of what it accepts.
use linfo1341_project.Common.{
  ℕ, zero, suc, ◌+◌, ◌≤◌, ◌<◌, ◌≡◌, refl, sym, ap, ◌∙◌, ◌&&◌, inl, inr, some, List, [], ◌∷◌, ◌++◌,
  arith, ltb, ◌==◌, if◌then◌else◌, Bool-cases, length, take, drop, length-drop, subst, ==_iff,
  length-append, append_assoc, take-append,
}
use linfo1341_project.Common.Memory.{IsBytes, net_value}
use linfo1341_project.Segment.{Pkt, pkt_ok, e_crc, Zlib, checksum, IsPkt}
use linfo1341_project.Segment.DecodePayload.{decode_payload-cut, decode_payload-none}
use linfo1341_project.Segment.Decode.{decode_payload}
use linfo1341_project.Segment.Wire.{wire_payload}
use linfo1341_project.Segment.Fields.{net32-net_value}

-- A buffer cut behind `n` bytes and four more
record Cut (n : ℕ) (more : List ℕ) : Type 0 where
  bytes : List ℕ
  a : ℕ
  b : ℕ
  c : ℕ
  d : ℕ
  rest : List ℕ
  whole : more ≡ bytes ++ ((a ∷ b ∷ c ∷ d ∷ []) ++ rest)
  size : length bytes ≡ n
  is_bytes : IsBytes (a ∷ b ∷ c ∷ d ∷ [])

cut : (n : ℕ) (more : List ℕ) → IsBytes more → n + 4 ≤ length more → Cut n more
cut zero (a ∷ b ∷ c ∷ d ∷ rest) (h0, (h1, (h2, (h3, h4)))) long = record {
  bytes = [];
  a = a;
  b = b;
  c = c;
  d = d;
  rest = rest;
  whole = refl;
  size = refl;
  is_bytes = (h0, (h1, (h2, (h3, tt))));
}
cut zero _ h long = absurd (omega arith)
cut (suc n) [] h long = absurd (omega arith)
cut (suc n) (x ∷ more) h long =
    let t = cut n more h.1 (omega arith) in
    record {
      bytes = x ∷ t.bytes;
      a = t.a;
      b = t.b;
      c = t.c;
      d = t.d;
      rest = t.rest;
      whole = ap (λ xs. x ∷ xs) t.whole;
      size = ap suc t.size;
      is_bytes = t.is_bytes;
    }

module _ (z : Zlib) where
  -- What a payload that `pkt_decode` accepts is
  pub record PayloadAccepted (more : List ℕ) (before p : Pkt) : Type 0 where
    pub rest : List ℕ
    pub whole : more ≡ wire_payload z p ++ rest
    pub same : p ≡ record before { payload = p.payload; crc2 = p.crc2 }
    pub array : length p.payload ≡ 512

  pub decode_payload-accepts :
      (pre more : List ℕ) (inc : ℕ) (before p : Pkt)
      → IsPkt before
      → before.tr ≡ 0
      → 10 + inc ≡ length pre
      → IsBytes more
      → (0 < before.length → before.length + 4 ≤ length more)
      → decode_payload z (pre ++ more) inc before ≡ some (pkt_ok, p)
      → PayloadAccepted more before p
  decode_payload-accepts pre more inc before p v plain at bytes room e =
      elim (Bool-cases (before.tr == 0 && ltb 0 before.length)) [
        | inr none_left ↦
            let same : before ≡ p =
              cc (e, decode_payload-none z (pre ++ more) inc before none_left) in
            subst (PayloadAccepted more before) same (record {
              rest = more;
              whole = rw none_left refl;
              same = refl;
              array = v.payload_size;
            })
        | inl some_left ↦
            let t = cut before.length more bytes (room (ground arith)) in
            let crc2 : List ℕ = t.a ∷ t.b ∷ t.c ∷ t.d ∷ [] in
            let after = record before {
              payload = t.bytes ++ drop before.length before.payload;
              crc2 = net_value crc2;
            } in
            let ran =
              decode_payload-cut z pre t.bytes crc2 t.rest inc before v some_left at (sym t.size)
                refl (omega (arith, t.is_bytes)) in
            let came : some
                  (if checksum z t.bytes == net_value crc2 then (pkt_ok, after) else (e_crc, after))
                ≡ some (pkt_ok, p) =
              sym ran ∙ (rw t.whole at e) in
            elim (Bool-cases (checksum z t.bytes == net_value crc2)) [
              | inr differs ↦ let refused = (rw differs at came) in cc refused
              | inl agrees ↦
                  let accepted = (rw agrees at came) in
                  let same : after ≡ p = cc accepted in
                  let sum : checksum z t.bytes ≡ net_value crc2 = (==_iff _ _).0 agrees in
                  let front : take before.length (t.bytes ++ drop before.length before.payload)
                      ≡ t.bytes =
                    take-append t.bytes (drop before.length before.payload) before.length
                      (sym t.size) in
                  subst (PayloadAccepted more before) same (record {
                    rest = t.rest;
                    whole =
                        rw
                          (
                            some_left,
                            front,
                            sum,
                            net32-net_value t.a t.b t.c t.d t.is_bytes,
                            append_assoc t.bytes crc2 t.rest,
                          )
                          t.whole;
                    same = refl;
                    array = omega (
                      arith,
                      length-append t.bytes (drop before.length before.payload),
                      length-drop before.length before.payload,
                      t.size,
                      v.payload_size,
                      v.length_fits,
                    );
                  })
            ]
      ]
