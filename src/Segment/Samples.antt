-- ===== src/Segment/Samples.antt =====
-- Concrete packets (src/lib/segment/packet_interface.h) on which the theorems are run. The checksum here
-- is a plain sum of the bytes: any function serves, since the code only compares its results.
use linfo1341_project.Common.{ℕ, ◌+◌, inl, refl, List, [], ◌∷◌, ◌++◌, arith, replicate}
use linfo1341_project.Segment.{Pkt, Zlib, IsPkt}
use linfo1341_project.Segment.Wire.{IsCoherent, IsSendable}

abbrev pub total : ℕ → List ℕ → ℕ
total acc [] = acc
total acc (b ∷ bs) = total (acc + b) bs

abbrev pub sum_zlib : Zlib
sum_zlib = record { crc32_initial = 0; crc32 = total }

abbrev pub greeting : List ℕ
greeting = b'h' ∷ b'e' ∷ b'l' ∷ b'l' ∷ b'o' ∷ []

-- A data packet with five bytes of payload
abbrev pub hello : Pkt
hello = record {
  type = 1;
  tr = 0;
  window = 28;
  length = 5;
  seqnum = 0x7b;
  timestamp = 0x17;
  crc1 = 0;
  payload = greeting ++ replicate 507 0;
  crc2 = 0;
}

abbrev pub dirty : Pkt
dirty = record {
  type = 3;
  tr = 1;
  window = 9;
  length = 77;
  seqnum = 200;
  timestamp = 12345;
  crc1 = 5;
  payload = replicate 512 9;
  crc2 = 6;
}

abbrev pub buffer : List ℕ
buffer = replicate 528 0

pub hello-IsCoherent : IsCoherent hello
hello-IsCoherent = omega arith

pub hello-IsSendable : IsSendable hello
hello-IsSendable = record { coherent = hello-IsCoherent; typed = inl refl }

pub dirty-IsPkt : IsPkt dirty
dirty-IsPkt = omega arith
