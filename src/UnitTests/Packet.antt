-- ===== src/UnitTests/Packet.antt =====
-- tests/packet_test.c: a packet decoded and encoded again, and a truncated packet encoded and decoded.
use linfo1341_project.Common.{
  ℕ, zero, suc, ◌+◌, ◌*◌, ◌^◌, Bool, true, false, Option, some, List, [], ◌∷◌, ◌++◌, ◌==◌,
  replicate, load, ◌>>=◌,
}
use linfo1341_project.Segment.{
  Pkt, PktStatusCode, pkt_ok, Zlib, ptype_data, pkt_new, pkt_set_type, pkt_set_tr, pkt_set_window,
  pkt_set_seqnum, pkt_set_timestamp, pkt_set_payload, pkt_get_type, pkt_get_tr, pkt_get_window,
  pkt_get_seqnum, pkt_get_timestamp, pkt_get_length,
}
use linfo1341_project.Segment.Encode.{pkt_encode}
use linfo1341_project.Segment.Decode.{pkt_decode}

abbrev pub is_pkt_ok : PktStatusCode → Bool
is_pkt_ok pkt_ok = true
is_pkt_ok _ = false

abbrev pub hello_world : List ℕ
hello_world = b'h' ∷ b'e' ∷ b'l' ∷ b'l' ∷ b'o' ∷ b' ' ∷ b'w' ∷ b'o' ∷ b'r' ∷ b'l' ∷ b'd' ∷ []

abbrev pub to_encode : List ℕ
to_encode =
    0x5c ∷ 0x00 ∷ 0x0b ∷ 0x7b ∷ 0x17 ∷ 0x00 ∷ 0x00 ∷ 0x00 ∷ 0x4e ∷ 0xa0 ∷ 0x77 ∷ 0xdb ∷ hello_world
    ++ 0x0d ∷ 0x4a ∷ 0x11 ∷ 0x85 ∷ []

-- The loop over the bytes of two arrays, from `i` on
unfoldable pub same_bytes : (count i : ℕ) → (left right : List ℕ) → Option (List Bool)
same_bytes zero i left right = some []
same_bytes (suc count) i left right = do
  x ← load left i
  y ← load right i
  rest ← same_bytes count (i + 1) left right
  some ((x == y) ∷ rest)

-- `len` points to four bytes, and `pkt_encode` reads eight: `behind` is what the other four hold.
module _ (z : Zlib) (behind : ℕ) where
  unfoldable pub test_encode_decode : (fresh : Pkt) → Option (List Bool)
  test_encode_decode fresh = do
    (_, pkt) ← pkt_decode z to_encode 27 (pkt_new fresh)
    (status, for_decode, _) ← pkt_encode z pkt (replicate 27 0) (27 + behind * 2 ^ 32)
    bytes ← same_bytes 27 0 to_encode for_decode
    some (
        (ptype_data == pkt_get_type pkt)
        ∷ (0 == pkt_get_tr pkt)
        ∷ (28 == pkt_get_window pkt)
        ∷ (0x7b == pkt_get_seqnum pkt)
        ∷ is_pkt_ok status
        ∷ bytes)

  unfoldable pub test_decode_encode_tr : (fresh other : Pkt) → Option (List Bool)
  test_decode_encode_tr fresh other =
      let pkt1 = (pkt_set_type (pkt_new fresh) ptype_data).1 in
      let pkt2 = (pkt_set_tr pkt1 1).1 in
      let pkt3 = (pkt_set_window pkt2 28).1 in
      let pkt4 = (pkt_set_seqnum pkt3 0x7b).1 in
      let pkt5 = (pkt_set_timestamp pkt4 0x17).1 in
      do
        (_, pkt) ← pkt_set_payload pkt5 (hello_world ++ 0 ∷ []) 11
        (encoded, for_encode, _) ← pkt_encode z pkt (replicate 57 0) (57 + behind * 2 ^ 32)
        (status, for_decode) ← pkt_decode z for_encode 57 (pkt_new other)
        some (
            is_pkt_ok encoded
            ∷ is_pkt_ok status
            ∷ (ptype_data == pkt_get_type for_decode)
            ∷ (1 == pkt_get_tr for_decode)
            ∷ (28 == pkt_get_window for_decode)
            ∷ (0x7b == pkt_get_seqnum for_decode)
            ∷ (0x17 == pkt_get_timestamp for_decode)
            ∷ (11 == pkt_get_length for_decode)
            ∷ [])
