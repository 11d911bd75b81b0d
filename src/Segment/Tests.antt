-- ===== src/Segment/Tests.antt =====
-- Runs of the packet code (src/lib/segment/packet_implem.c) at concrete packets.
use linfo1341_project.Segment.Samples.{
  sum_zlib, greeting, hello, dirty, buffer, hello-IsCoherent, hello-IsSendable, dirty-IsPkt,
}
use linfo1341_project.Common.{
  ℕ, ◌≡◌, refl, some, List, [], ◌∷◌, ◌++◌, arith, length, drop, replicate, ◌>>=◌, Returns,
}
use linfo1341_project.Common.Memory.{read_bytes, write_bytes}
use linfo1341_project.Segment.{
  pkt_ok, e_nomem, e_crc, pkt_set_tr, pkt_set_length, pkt_set_crc1, pkt_set_crc2, pkt_get_crc1,
  pkt_get_crc2,
}
use linfo1341_project.Segment.Encode.{
  pkt_encode, encoded_size, encode_crc1, encode_header, encode_payload, first_byte,
}
use linfo1341_project.Segment.Decode.{
  pkt_decode, length_field, expected_size, decode_fields, decode_payload, decode_body,
}
use linfo1341_project.Segment.Wire.{wire}
use linfo1341_project.Segment.EncodeWire.{encode_wire, encode_nomem}
use linfo1341_project.Segment.DecodeWire.{decoded, decode_wire}
use linfo1341_project.Segment.DecodeSafety.{Decoded, decode_safe}
use linfo1341_project.Segment.Accepts.{decode_accepts}
use linfo1341_project.Segment.AcceptsHeader.{Accepted}
use linfo1341_project.Segment.Again.{WritesBack, encode-decode}
use linfo1341_project.Segment.RoundTrip.{decode-encode}

abbrev hello_wire : List ℕ
hello_wire =
    0x5c ∷ 0 ∷ 5 ∷ 0x7b ∷ 0x17 ∷ 0 ∷ 0 ∷ 0 ∷ 0 ∷ 0 ∷ 0 ∷ 0xf3 ∷ greeting ++ 0 ∷ 0 ∷ 2 ∷ 0x14 ∷ []

hello_encoded :
    pkt_encode sum_zlib hello (replicate 23 1) 23 ≡ some (pkt_ok, hello_wire ++ 1 ∷ 1 ∷ [], 21)
unfolding pkt_encode encoded_size encode_crc1 encode_header encode_payload first_byte read_bytes
    write_bytes
hello_encoded = refl

hello-decoded :
    pkt_decode sum_zlib hello_wire 21 dirty ≡ some (pkt_ok, decoded sum_zlib hello dirty)
unfolding pkt_decode length_field expected_size decode_fields decode_payload decode_body read_bytes
    write_bytes pkt_set_tr pkt_set_length pkt_set_crc1 pkt_set_crc2 pkt_get_crc1 pkt_get_crc2
hello-decoded = refl

-- A flipped byte of the header is noticed.
flipped : (do (s, _) ← pkt_decode sum_zlib (0x5d ∷ drop 1 hello_wire) 21 dirty; some s) ≡ some e_crc
unfolding pkt_decode length_field expected_size decode_fields decode_payload decode_body read_bytes
    write_bytes pkt_set_tr pkt_set_length pkt_set_crc1 pkt_set_crc2 pkt_get_crc1 pkt_get_crc2
flipped = refl

encode_wire_example :
    pkt_encode sum_zlib hello buffer 528
    ≡ some (
      pkt_ok,
      wire sum_zlib hello ++ drop (length (wire sum_zlib hello)) buffer,
      length (wire sum_zlib hello),
    )
unfolding wire
encode_wire_example =
    encode_wire sum_zlib hello hello-IsCoherent buffer 528 (omega arith) (omega arith) (omega arith)

encode_nomem_example : pkt_encode sum_zlib hello buffer 20 ≡ some (e_nomem, buffer, 20)
unfolding wire
encode_nomem_example = encode_nomem sum_zlib hello hello-IsCoherent buffer 20 (omega arith)

decode_wire_example :
    pkt_decode sum_zlib (wire sum_zlib hello ++ 7 ∷ 7 ∷ []) 21 dirty
    ≡ some (pkt_ok, decoded sum_zlib hello dirty)
unfolding wire
decode_wire_example =
    decode_wire sum_zlib hello dirty (7 ∷ 7 ∷ []) 21 hello-IsSendable dirty-IsPkt (omega arith)
      (omega arith)

decode_safe_example : Returns Decoded (pkt_decode sum_zlib hello_wire 21 dirty)
decode_safe_example =
    decode_safe sum_zlib hello_wire 21 dirty (omega arith) (omega arith) (omega arith) dirty-IsPkt

decode-encode_example :
    (do (_, out, n) ← pkt_encode sum_zlib hello buffer 528; pkt_decode sum_zlib out n dirty)
    ≡ some (pkt_ok, decoded sum_zlib hello dirty)
unfolding wire
decode-encode_example =
    decode-encode sum_zlib hello hello-IsSendable buffer 528 dirty dirty-IsPkt (omega arith)
      (omega arith) (omega arith)

decode_accepts_example : Accepted sum_zlib hello_wire 21 (decoded sum_zlib hello dirty)
decode_accepts_example =
    decode_accepts sum_zlib 0x5c (drop 1 hello_wire) 21 dirty (decoded sum_zlib hello dirty)
      (omega arith) refl (omega arith) (omega arith) dirty-IsPkt hello-decoded

encode-decode_example : WritesBack sum_zlib hello_wire 21 (decoded sum_zlib hello dirty) buffer
encode-decode_example =
    encode-decode sum_zlib 0x5c (drop 1 hello_wire) 21 dirty (decoded sum_zlib hello dirty) buffer
      (omega arith) refl (omega arith) (omega arith) (omega arith) dirty-IsPkt hello-decoded
