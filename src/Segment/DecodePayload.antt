-- ===== src/Segment/DecodePayload.antt =====
-- The payload in `pkt_decode` of src/lib/segment/packet_implem.c, when its bytes are there.
use linfo1341_project.Common.{
  ℕ, ◌+◌, ◌^◌, ◌<◌, ◌≡◌, refl, sym, true, false, ◌&&◌, some, List, [], ◌++◌, arith, ltb, ◌==◌,
  if◌then◌else◌, length, drop, length-append, append_assoc,
}
use native.Mathlib.Nat.{zero-add}
use linfo1341_project.Common.Memory.{
  read_bytes, write_bytes, write_bytes_in, read_bytes_next, net_value,
}
use linfo1341_project.Segment.{
  Pkt, pkt_ok, e_crc, pkt_set_crc2, pkt_get_crc2, Zlib, checksum, IsPkt,
}
use linfo1341_project.Segment.Decode.{decode_payload}

pub set_crc2_small : (p : Pkt) (n : ℕ) → n < 2 ^ 32 → (pkt_set_crc2 p n).1 ≡ record p { crc2 = n }
unfolding pkt_set_crc2
set_crc2_small p n h = ground arith

pub get_crc2_present : (p : Pkt) → p.tr ≡ 0 → pkt_get_crc2 p ≡ p.crc2
unfolding pkt_get_crc2
get_crc2_present p h = ground arith

pub ==_refl : (n : ℕ) → (n == n) ≡ true
==_refl n = ground arith

module _ (z : Zlib) where
  -- The payload and its checksum, when both are there
  pub decode_payload-cut :
      (pre bytes crc2 rest : List ℕ) (inc : ℕ) (before : Pkt)
      → IsPkt before
      → (before.tr == 0 && ltb 0 before.length) ≡ true
      → 10 + inc ≡ length pre
      → before.length ≡ length bytes
      → length crc2 ≡ 4
      → net_value crc2 < 2 ^ 32
      → let after = record before {
        payload = bytes ++ drop before.length before.payload;
        crc2 = net_value crc2;
      } in
        decode_payload z (pre ++ (bytes ++ (crc2 ++ rest))) inc before
        ≡ some (if checksum z bytes == net_value crc2 then (pkt_ok, after) else (e_crc, after))
  unfolding decode_payload
  decode_payload-cut pre bytes crc2 rest inc before v c at size four small =
      let src : List ℕ = pre ++ (bytes ++ (crc2 ++ rest)) in
      let first : read_bytes src (10 + inc) before.length ≡ some bytes =
        read_bytes_next pre bytes (crc2 ++ rest) (10 + inc) before.length at size in
      let second : read_bytes src (10 + inc + before.length) 4 ≡ some crc2 =
        rw (← append_assoc pre bytes (crc2 ++ rest)) (
          read_bytes_next (pre ++ bytes) crc2 rest (10 + inc + before.length) 4
            (omega (arith, length-append pre bytes)) (sym four)) in
      let stored : write_bytes before.payload 0 bytes
          ≡ some (bytes ++ drop before.length before.payload) =
        rw (
          write_bytes_in before.payload 0 bytes (omega (arith, v.payload_size, v.length_fits)),
          ← size,
          zero-add,
        ) in
      let support : read_bytes (bytes ++ drop before.length before.payload) 0 before.length
          ≡ some bytes =
        read_bytes_next [] bytes (drop before.length before.payload) 0 before.length refl size in
      let kept = record before { payload = bytes ++ drop before.length before.payload } in
      rw (
        c,
        first,
        stored,
        second,
        set_crc2_small kept (net_value crc2) small,
        support,
        get_crc2_present (record kept { crc2 = net_value crc2 }) (ground arith),
      )

  pub decode_payload-none :
      (src : List ℕ) (inc : ℕ) (before : Pkt)
      → (before.tr == 0 && ltb 0 before.length) ≡ false
      → decode_payload z src inc before ≡ some (pkt_ok, before)
  unfolding decode_payload
  decode_payload-none src inc before c = rw c refl
