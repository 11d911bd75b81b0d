-- ===== src/Segment/Decode.antt =====
-- `pkt_decode` of src/lib/segment/packet_implem.c. The type's sign does not matter: the bits of a
-- signed `char` shifted right agree with `b / 64` in the two low bits and at `PTYPE_DATA`.
use linfo1341_project.Common.{
  ℕ, ◌+◌, ◌/◌, ◌%◌, ◌&&◌, Option, some, List, ltb, ◌==◌, if◌then◌else◌, get_elem?, ◌>>=◌,
}
use linfo1341_project.Common.Memory.{read_bytes, write_bytes, net_value, host_value}
use linfo1341_project.Segment.Encode.{size_below, clear_tr}
use linfo1341_project.Segment.{
  Pkt, PktStatusCode, pkt_ok, e_crc, e_nomem, ptype_data, Zlib, checksum, pkt_set_tr,
  pkt_set_length, pkt_set_crc1, pkt_set_crc2, pkt_get_crc1, pkt_get_crc2,
}

-- The length field of a data packet, as the check of the size reads it; 0 for the other types.
unfoldable pub length_field : List ℕ → ℕ → Option ℕ
length_field src type =
    if type == ptype_data then (do bytes ← read_bytes src 1 2; some (net_value bytes)) else some 0

-- `base` of `pkt_decode`
unfoldable pub expected_size : ℕ → ℕ → ℕ → ℕ
expected_size type tr length =
    let base = if type == ptype_data then 12 else 10 in
    if tr == 0 then (if ltb 0 length then base + length + 4 else base + length) else base

-- The bit-fields, the length, the sequence number and the timestamp, with `tr` put to 0.
unfoldable pub decode_fields : List ℕ → ℕ → Pkt → Option (ℕ × Pkt)
decode_fields src b pkt = do
  let pkt1 = record pkt { type = b / 64; tr = b / 32 % 2; window = b % 32 }
  let pkt2 = (pkt_set_tr pkt1 0).1
  (inc, pkt3) ←
      (if pkt2.type == ptype_data
        then (do bytes ← read_bytes src 1 2; some (2, (pkt_set_length pkt2 (net_value bytes)).1))
        else some (0, record pkt2 { length = 0 }))
  seqnum ← read_bytes src (1 + inc) 1
  timestamp ← read_bytes src (2 + inc) 4
  some (inc, record pkt3 { seqnum = net_value seqnum; timestamp = host_value timestamp })

-- The payload and the second checksum, for a packet that is not truncated and has a payload.
unfoldable pub decode_payload : Zlib → List ℕ → ℕ → Pkt → Option (PktStatusCode × Pkt)
decode_payload z src inc pkt =
    if pkt.tr == 0 && ltb 0 pkt.length
    then (do
      bytes ← read_bytes src (10 + inc) pkt.length
      payload ← write_bytes pkt.payload 0 bytes
      crc2 ← read_bytes src (10 + inc + pkt.length) 4
      let pkt' = (pkt_set_crc2 (record pkt { payload = payload }) (net_value crc2)).1
      support ← read_bytes pkt'.payload 0 pkt'.length
      some (if checksum z support == pkt_get_crc2 pkt' then (pkt_ok, pkt') else (e_crc, pkt')))
    else some (pkt_ok, pkt)

-- From `DECODE BEGINS` on
unfoldable pub decode_body : Zlib → List ℕ → ℕ → Pkt → Option (PktStatusCode × Pkt)
decode_body z src b pkt = do
  (inc, pkt1) ← decode_fields src b pkt
  crc1 ← read_bytes src (6 + inc) 4
  let pkt2 = (pkt_set_crc1 pkt1 (net_value crc1)).1
  header ← read_bytes src 0 (if b / 64 == ptype_data then 8 else 6)
  let cleared = if b / 32 % 2 == 1 then clear_tr header else header
  let pkt3 = (pkt_set_tr pkt2 (b / 32 % 2)).1
  if checksum z cleared == pkt_get_crc1 pkt2
      then decode_payload z src inc pkt3
      else some (e_crc, pkt2)

-- `src` is the buffer that `data` points into, `len` the count of bytes received.
unfoldable pub pkt_decode : Zlib → List ℕ → ℕ → Pkt → Option (PktStatusCode × Pkt)
pkt_decode z src len pkt = do
  b ← get_elem? src 0
  length ← length_field src (b / 64)
  if size_below len (expected_size (b / 64) (b / 32 % 2) length)
      then some (e_nomem, pkt)
      else decode_body z src b pkt
