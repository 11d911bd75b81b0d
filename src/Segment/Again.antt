-- ===== src/Segment/Again.antt =====
-- `pkt_decode` followed by `pkt_encode` (src/lib/segment/packet_implem.c), on bytes that are accepted.
use linfo1341_project.Common.{
  ℕ, ◌/◌, ◌%◌, ◌≤◌, ◌≡◌, some, List, ◌∷◌, arith, length, take, drop, take-append, refl,
}
use linfo1341_project.Common.Memory.{IsBytes}
use linfo1341_project.Segment.{Pkt, pkt_ok, Zlib, IsPkt}
use linfo1341_project.Segment.Encode.{pkt_encode}
use linfo1341_project.Segment.Decode.{pkt_decode}
use linfo1341_project.Segment.Wire.{wire}
use linfo1341_project.Segment.EncodeWire.{encode_wire}
use linfo1341_project.Segment.Accepts.{decode_accepts}

-- The encoder writes the first bytes of `src` into the buffer `buf`.
pub record WritesBack (z : Zlib) (src : List ℕ) (len : ℕ) (p : Pkt) (buf : List ℕ) : Type 0 where
  pub size : ℕ
  pub out : List ℕ
  pub encoded : pkt_encode z p buf len ≡ some (pkt_ok, out, size)
  pub within : size ≤ len
  pub same : take size out ≡ take size src

-- When `pkt_decode` accepts at most 528 bytes of which the first has TR clear, into a
-- well-formed block, `pkt_encode` of the packet that it leaves, into a buffer with room for the
-- given length, succeeds and writes the same bytes again, as many as it reports.
pub encode-decode :
    (z : Zlib) (b : ℕ) (rest : List ℕ) (len : ℕ) (q p : Pkt) (buf : List ℕ)
    → IsBytes (b ∷ rest)
    → b / 32 % 2 ≡ 0
    → len ≤ length (b ∷ rest)
    → len ≤ 528
    → len ≤ length buf
    → IsPkt q
    → pkt_decode z (b ∷ rest) len q ≡ some (pkt_ok, p)
    → WritesBack z (b ∷ rest) len p buf
encode-decode z b rest len q p buf bytes plain inside small room v e =
    let a = decode_accepts z b rest len q p bytes plain inside small v e in
    let sent = wire z p in
    record {
      size = length sent;
      out = _;
      encoded = encode_wire z p a.coherent buf len a.fits (omega arith) room;
      within = a.fits;
      same =
          rw
            (
              a.whole,
              take-append sent (drop (length sent) buf) (length sent) refl,
              take-append sent a.rest (length sent) refl,
            )
            refl;
    }
