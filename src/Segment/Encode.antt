-- ===== src/Segment/Encode.antt =====
-- `pkt_encode` of src/lib/segment/packet_implem.c.
use linfo1341_project.Common.{
  ℕ, ◌+◌, ◌-◌, ◌*◌, ◌%◌, ◌^◌, bit_or, Bool, not, ◌||◌, Option, some, List, [], ◌∷◌, ltb, leb, ◌==◌,
  if◌then◌else◌, ◌>>=◌,
}
use linfo1341_project.Common.Memory.{read_bytes, write_bytes, net16, net32, host32}
use linfo1341_project.Segment.{Pkt, PktStatusCode, pkt_ok, e_nomem, ptype_data, Zlib, checksum}

-- `(int) len < base`, for a `size_t`: the conversion keeps 32 bits, the highest for the sign.
abbrev pub size_below : ℕ → ℕ → Bool
size_below len base = leb (2 ^ 31) (len % 2 ^ 32) || ltb (len % 2 ^ 32) base

-- `header[0]-=32`, on an `unsigned char`
abbrev pub clear_tr : List ℕ → List ℕ
clear_tr [] = []
clear_tr (b ∷ bs) = ((b + 256 - 32) % 256) ∷ bs

-- `base` of `pkt_encode`: the bytes that the check of the size asks for
unfoldable pub encoded_size : Pkt → ℕ
encoded_size pkt =
    let base = if pkt.type == ptype_data then 12 else 10 in
    if pkt.tr == 0
    then (if ltb 0 pkt.length then base + pkt.length + 4 else base + pkt.length)
    else base

-- The first byte: `(type << 6) | (tr << 5) | window`
unfoldable pub first_byte : Pkt → ℕ
first_byte pkt = bit_or (bit_or (pkt.type * 64) (pkt.tr * 32)) pkt.window % 256

-- The fields of the header up to the first checksum, with `inc`
unfoldable pub encode_header : Pkt → List ℕ → Option (ℕ × List ℕ)
encode_header pkt buf = do
  buf ← write_bytes buf 0 (first_byte pkt ∷ [])
  (inc, buf) ←
      (if pkt.type == ptype_data
        then (do buf ← write_bytes buf 1 (net16 pkt.length); some (2, buf))
        else some (0, buf))
  buf ← write_bytes buf (1 + inc) (pkt.seqnum ∷ [])
  buf ← write_bytes buf (2 + inc) (host32 pkt.timestamp)
  some (inc, buf)

-- The header and the first checksum, computed with TR at 0
unfoldable pub encode_crc1 : Zlib → Pkt → List ℕ → Option (ℕ × List ℕ)
encode_crc1 z pkt buf = do
  (inc, buf) ← encode_header pkt buf
  header ← read_bytes buf 0 (if pkt.type == ptype_data then 8 else 6)
  let cleared = if pkt.tr == 1 then clear_tr header else header
  buf ← write_bytes buf (6 + inc) (net32 (checksum z cleared))
  some (inc, buf)

-- The payload and the second checksum
unfoldable pub encode_payload : Zlib → Pkt → ℕ → List ℕ → Option (PktStatusCode × List ℕ × ℕ)
encode_payload z pkt inc buf = if not (pkt.tr == 0) then some (pkt_ok, buf, 10 + inc) else do
  bytes ← read_bytes pkt.payload 0 pkt.length
  buf ← write_bytes buf (10 + inc) bytes
  if pkt.length == 0 then some (pkt_ok, buf, 10 + inc) else do
    buf ← write_bytes buf (10 + inc + pkt.length) (net32 (checksum z bytes))
    some (pkt_ok, buf, 16 + pkt.length)

-- `len` is `*len`: the room in `buf` at the call, and the count of bytes at the return.
unfoldable pub pkt_encode : Zlib → Pkt → List ℕ → ℕ → Option (PktStatusCode × List ℕ × ℕ)
pkt_encode z pkt buf len =
    if size_below len (encoded_size pkt)
    then some (e_nomem, buf, len)
    else do (inc, buf) ← encode_crc1 z pkt buf; encode_payload z pkt inc buf
