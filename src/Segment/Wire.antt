-- ===== src/Segment/Wire.antt =====
-- The wire format, described by itself: what src/lib/segment/packet_implem.c writes and reads.
use linfo1341_project.Common.{
  false, ℕ, zero, suc, ◌+◌, ◌*◌, ◌%◌, bit_or, ◌<◌, ◌≡◌, refl, Bool, true, ◌&&◌, ◌⊎◌, List, [], ◌∷◌,
  ◌++◌, arith, ltb, ◌==◌, ==_iff, if◌then◌else◌, length, take, length-take,
}
use linfo1341_project.Common.Memory.{net16, net32, host32}
use linfo1341_project.Segment.{Pkt, ptype_data, Zlib, checksum, IsPkt}
use linfo1341_project.Segment.Encode.{first_byte}

-- Type, TR and window in one byte, then the length of a data packet, the sequence number and the
-- timestamp.
abbrev pub wire_header : Pkt → List ℕ
wire_header pkt =
    (pkt.type * 64 + pkt.tr * 32 + pkt.window)
    ∷ (if pkt.type == ptype_data
        then net16 pkt.length ++ pkt.seqnum ∷ host32 pkt.timestamp
        else pkt.seqnum ∷ host32 pkt.timestamp)

-- The first checksum is that of the header with TR at 0.
abbrev pub header_checksum : Zlib → Pkt → ℕ
header_checksum z pkt = checksum z (wire_header (record pkt { tr = 0 }))

abbrev pub payload_of : Pkt → List ℕ
payload_of pkt = take pkt.length pkt.payload

-- The payload and its checksum, unless the packet is truncated or has none.
abbrev pub wire_payload : Zlib → Pkt → List ℕ
wire_payload z pkt =
    if pkt.tr == 0 && ltb 0 pkt.length
    then payload_of pkt ++ net32 (checksum z (payload_of pkt))
    else []

unfoldable pub wire : Zlib → Pkt → List ℕ
wire z pkt = wire_header pkt ++ (net32 (header_checksum z pkt) ++ wire_payload z pkt)

-- A packet whose fields fit, of which only a data packet is truncated or has a payload. The type
-- may be 0, which is none of PTYPE_DATA, PTYPE_ACK and PTYPE_NACK.
pub record IsCoherent (pkt : Pkt) : Type 0 where
  pub pkt_fits : IsPkt pkt
  pub open pkt_fits use *
  pub plain : (pkt.type ≡ 1) ⊎ ((pkt.length ≡ 0) × (pkt.tr ≡ 0))

-- A packet that the protocol sends: its type is one of the three.
pub record IsSendable (pkt : Pkt) : Type 0 where
  pub coherent : IsCoherent pkt
  pub typed : (pkt.type ≡ 1) ⊎ (pkt.type ≡ 2) ⊎ (pkt.type ≡ 3)

-- A test at every number under a bound
unfoldable pub passes_under : (test : ℕ → Bool) (bound : ℕ) → Bool
passes_under test zero = true
passes_under test (suc bound) = if test bound then passes_under test bound else false

pub passes_under_lem :
    (test : ℕ → Bool) {bound : ℕ} (n : ℕ)
    → n < bound
    → passes_under test bound ≡ true
    → test n ≡ true
unfolding passes_under
passes_under_lem test {bound = zero} n small passed = elim small [ ]
passes_under_lem test {bound = suc bound} n small passed =
    ground (arith, passes_under_lem test {bound = bound} n)

abbrev first_byte_at : ℕ → ℕ → ℕ → ℕ
first_byte_at t r w = bit_or (bit_or (t * 64) (r * 32)) w % 256

first_byte_table :
    passes_under
      (λ t. passes_under (λ r. passes_under (λ w. first_byte_at t r w == t * 64 + r * 32 + w) 32) 2)
      4
    ≡ true
unfolding passes_under
first_byte_table = refl

-- The three shifted fields do not overlap.
pub first_byte_lem :
    (pkt : Pkt) → IsPkt pkt → first_byte pkt ≡ pkt.type * 64 + pkt.tr * 32 + pkt.window
unfolding first_byte
first_byte_lem pkt v =
    let rows = passes_under_lem _ pkt.type v.type_fits first_byte_table in
    let row = passes_under_lem _ pkt.tr v.tr_fits rows in
    (==_iff _ _).0 (passes_under_lem _ pkt.window v.window_fits row)

pub length-payload_of : (pkt : Pkt) → IsPkt pkt → length (payload_of pkt) ≡ pkt.length
length-payload_of pkt v =
    omega (arith, length-take pkt.length pkt.payload, v.payload_size, v.length_fits)
