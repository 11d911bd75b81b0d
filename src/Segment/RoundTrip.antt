-- ===== src/Segment/RoundTrip.antt =====
-- `pkt_encode` followed by `pkt_decode`, as the two ends of the link run them
-- (src/lib/segment/packet_implem.c).

use linfo1341_project.Common.{ℕ, ◌^◌, ◌≤◌, ◌<◌, ◌≡◌, some, List, arith, length, drop, ◌>>=◌}
use linfo1341_project.Segment.{Pkt, pkt_ok, Zlib, IsPkt}
use linfo1341_project.Segment.Encode.{pkt_encode}
use linfo1341_project.Segment.Decode.{pkt_decode}
use linfo1341_project.Segment.Wire.{wire, IsSendable}
use linfo1341_project.Segment.EncodeWire.{encode_wire}
use linfo1341_project.Segment.DecodeWire.{decoded, decode_wire}

module _ (z : Zlib) (pkt : Pkt) (v : IsSendable pkt) (buf : List ℕ) (len : ℕ) where
  -- A packet that the protocol sends (a data packet, or an ACK or NACK without payload and TR,
  -- with fields that fit), when it is encoded into a buffer with room for it, and decoded from
  -- the number of bytes that the encoder reports into a well-formed block of any content,
  -- arrives as the packet that was sent.
  pub decode-encode :
      (q : Pkt)
      → IsPkt q
      → length (wire z pkt) ≤ len
      → len < 2 ^ 31
      → len ≤ length buf
      → (do (_, out, n) ← pkt_encode z pkt buf len; pkt_decode z out n q)
        ≡ some (pkt_ok, decoded z pkt q)
  decode-encode q qv fits small room = rw (encode_wire z pkt v.coherent buf len fits small room) (
      decode_wire z pkt q (drop (length (wire z pkt)) buf) (length (wire z pkt)) v qv (omega arith)
        (omega arith))
