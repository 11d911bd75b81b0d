-- ===== src/Segment.antt =====
-- src/lib/segment/packet_implem.c and packet_interface.h: the packet, its accessors and setters.
-- A setter returns its status and the packet as it leaves it. Bit-fields keep their low bits.
pub mod Encode
pub mod Decode
pub mod Wire
pub mod EncodeWire
pub mod DecodePayload
pub mod DecodeWire
pub mod DecodeSafety
pub mod RoundTrip
pub mod Fields
pub mod AcceptsPayload
pub mod AcceptsHeader
pub mod Accepts
pub mod Again
pub mod Samples
mod Tests
use linfo1341_project.Common.{
  ℕ, ◌+◌, ◌%◌, ◌^◌, ◌≤◌, ◌<◌, ◌≡◌, Bool, true, false, not, ◌&&◌, Option, none, some, List, ltb,
  ◌==◌, if◌then◌else◌, length, ◌>>=◌,
}
use linfo1341_project.Common.Memory.{read_bytes, write_bytes}

-- `struct pkt`. A number stands for each field; `payload` is the array of 512 bytes.
pub record Pkt : Type 0 where
  pub type : ℕ
  pub tr : ℕ
  pub window : ℕ
  pub length : ℕ
  pub seqnum : ℕ
  pub timestamp : ℕ
  pub crc1 : ℕ
  pub payload : List ℕ
  pub crc2 : ℕ

-- `pkt_status_code`
pub data PktStatusCode : Type 0 where
  pkt_ok e_type e_tr e_length e_crc e_window e_seqnum e_nomem e_noheader e_unconsistent :
      PktStatusCode

-- `ptypes_t`
abbrev pub ptype_data : ℕ
ptype_data = 1

abbrev pub ptype_ack : ℕ
ptype_ack = 2

abbrev pub ptype_nack : ℕ
ptype_nack = 3

abbrev pub max_payload_size : ℕ
max_payload_size = 512

abbrev pub max_window_size : ℕ
max_window_size = 31

-- `fresh` is the content of the block that `malloc` hands back.
unfoldable pub pkt_new : (fresh : Pkt) → Pkt
pkt_new fresh = fresh

unfoldable pub pkt_get_type : Pkt → ℕ
pkt_get_type pkt = pkt.type

unfoldable pub pkt_get_tr : Pkt → ℕ
pkt_get_tr pkt = pkt.tr

unfoldable pub pkt_get_window : Pkt → ℕ
pkt_get_window pkt = pkt.window

unfoldable pub pkt_get_seqnum : Pkt → ℕ
pkt_get_seqnum pkt = pkt.seqnum

unfoldable pub pkt_get_length : Pkt → ℕ
pkt_get_length pkt = pkt.length

unfoldable pub pkt_get_timestamp : Pkt → ℕ
pkt_get_timestamp pkt = pkt.timestamp

unfoldable pub pkt_get_crc1 : Pkt → ℕ
pkt_get_crc1 pkt = pkt.crc1

unfoldable pub pkt_get_crc2 : Pkt → ℕ
pkt_get_crc2 pkt = if not (pkt.tr == 0) then 0 else pkt.crc2

-- `none` is the NULL pointer.
unfoldable pub pkt_get_payload : Pkt → Option (List ℕ)
pkt_get_payload pkt = if not (pkt.tr == 0) then none else some pkt.payload

unfoldable pub pkt_set_type : Pkt → ℕ → PktStatusCode × Pkt
pkt_set_type pkt type =
    if type == 0 then (e_type, pkt) else (pkt_ok, record pkt { type = type % 4 })

unfoldable pub pkt_set_tr : Pkt → ℕ → PktStatusCode × Pkt
pkt_set_tr pkt tr =
    if not (pkt.type == ptype_data) && not (tr == 0)
    then (e_tr, pkt)
    else if ltb 1 pkt.tr
    then (e_tr, pkt)
    else (pkt_ok, record pkt { tr = tr % 2 })

unfoldable pub pkt_set_window : Pkt → ℕ → PktStatusCode × Pkt
pkt_set_window pkt window =
    if ltb 31 window then (e_window, pkt) else (pkt_ok, record pkt { window = window % 32 })

unfoldable pub pkt_set_seqnum : Pkt → ℕ → PktStatusCode × Pkt
pkt_set_seqnum pkt seqnum = (pkt_ok, record pkt { seqnum = seqnum % 2 ^ 8 })

unfoldable pub pkt_set_length : Pkt → ℕ → PktStatusCode × Pkt
pkt_set_length pkt length =
    if ltb 512 (length % 2 ^ 16)
    then (e_length, pkt)
    else (pkt_ok, record pkt { length = length % 2 ^ 16 })

unfoldable pub pkt_set_timestamp : Pkt → ℕ → PktStatusCode × Pkt
pkt_set_timestamp pkt timestamp = (pkt_ok, record pkt { timestamp = timestamp % 2 ^ 32 })

unfoldable pub pkt_set_crc1 : Pkt → ℕ → PktStatusCode × Pkt
pkt_set_crc1 pkt crc1 = (pkt_ok, record pkt { crc1 = crc1 % 2 ^ 32 })

unfoldable pub pkt_set_crc2 : Pkt → ℕ → PktStatusCode × Pkt
pkt_set_crc2 pkt crc2 = (pkt_ok, record pkt { crc2 = crc2 % 2 ^ 32 })

-- `memcpy` faults if `source` holds fewer than `length` bytes.
unfoldable pub pkt_set_payload : Pkt → List ℕ → ℕ → Option (PktStatusCode × Pkt)
unfolding pkt_set_length
pkt_set_payload pkt source length = if ltb 512 (length % 2 ^ 16) then some (e_length, pkt) else do
  bytes ← read_bytes source 0 (length % 2 ^ 16)
  payload ← write_bytes pkt.payload 0 bytes
  some (pkt_ok, (pkt_set_length (record pkt { payload = payload }) length).1)

unfoldable pub predict_header_length : Pkt → ℕ
predict_header_length pkt = if pkt.type == ptype_data then 8 else 6

-- `crc32` of zlib: `crc32(0L, Z_NULL, 0)`, and `crc32(crc, buf, len)` on the bytes of `buf`.
pub record Zlib : Type 0 where
  pub crc32_initial : ℕ
  pub crc32 : ℕ → List ℕ → ℕ

-- The two calls that the code makes for a checksum, kept in a `uint32_t`.
abbrev pub checksum : Zlib → List ℕ → ℕ
checksum z bytes = z.crc32 (z.crc32_initial % 2 ^ 32) bytes % 2 ^ 32

-- What every packet in memory satisfies: the fields fit, and the length is within the array.
pub record IsPkt (pkt : Pkt) : Type 0 where
  pub type_fits : pkt.type < 4
  pub tr_fits : pkt.tr < 2
  pub window_fits : pkt.window < 32
  pub length_fits : pkt.length ≤ 512
  pub seqnum_fits : pkt.seqnum < 256
  pub timestamp_fits : pkt.timestamp < 2 ^ 32
  pub payload_size : length pkt.payload ≡ 512
