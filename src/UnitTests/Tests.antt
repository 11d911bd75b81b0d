-- ===== src/UnitTests/Tests.antt =====
-- Runs of the unit tests (tests/packet_test.c, rec_window_test.c, send_window_test.c) with given blocks.
use linfo1341_project.Common.{
  store, ◌≡◌, refl, true, none, some, replicate, length, ltb, if◌then◌else◌,
}
use linfo1341_project.Common.Memory.{read_bytes, write_bytes}
use linfo1341_project.Segment.{
  Zlib, pkt_new, pkt_set_type, pkt_set_tr, pkt_set_window, pkt_set_seqnum, pkt_set_length,
  pkt_set_timestamp, pkt_set_payload, pkt_set_crc1, pkt_set_crc2, pkt_get_type, pkt_get_tr,
  pkt_get_window, pkt_get_seqnum, pkt_get_length, pkt_get_timestamp, pkt_get_crc1, pkt_get_crc2,
  pkt_get_payload,
}
use linfo1341_project.Segment.Samples.{sum_zlib, hello, dirty}
use linfo1341_project.Segment.Encode.{
  pkt_encode, encoded_size, encode_crc1, encode_header, encode_payload, first_byte,
}
use linfo1341_project.Segment.Decode.{
  pkt_decode, length_field, expected_size, decode_fields, decode_payload, decode_body,
}
use linfo1341_project.SortedList.{Pstl}
use linfo1341_project.SortedList
use linfo1341_project.Queue
use linfo1341_project.UnitTests.Packet.{same_bytes, test_encode_decode, test_decode_encode_tr}
use linfo1341_project.UnitTests.RecWindow
use linfo1341_project.UnitTests.SendWindow

-- The checksums of the header and of the payload that the test has
abbrev crc_zlib : Zlib
crc_zlib = record {
  crc32_initial = 0;
  crc32 = λ _ bytes. if ltb (length bytes) 9 then 0x4ea077db else 0x0d4a1185;
}

encode_decode_passes : test_encode_decode crc_zlib 0 dirty ≡ some (replicate 32 true)
unfolding test_encode_decode same_bytes pkt_new pkt_decode length_field expected_size decode_fields
    decode_payload decode_body read_bytes write_bytes pkt_set_tr pkt_set_length pkt_set_crc1
    pkt_set_crc2 pkt_get_crc1 pkt_get_crc2 pkt_encode encoded_size encode_crc1 encode_header
    encode_payload first_byte pkt_get_type pkt_get_tr pkt_get_window pkt_get_seqnum
encode_decode_passes = refl

decode_encode_tr_passes : test_decode_encode_tr sum_zlib 0 dirty dirty ≡ some (replicate 8 true)
unfolding test_decode_encode_tr pkt_new pkt_decode length_field expected_size decode_fields
    decode_payload decode_body read_bytes write_bytes pkt_set_type pkt_set_tr pkt_set_window
    pkt_set_seqnum pkt_set_timestamp pkt_set_payload pkt_set_length pkt_set_crc1 pkt_set_crc2
    pkt_get_crc1 pkt_get_crc2 pkt_encode encoded_size encode_crc1 encode_header encode_payload
    first_byte pkt_get_type pkt_get_tr pkt_get_window pkt_get_seqnum pkt_get_timestamp
    pkt_get_length
decode_encode_tr_passes = refl

abbrev slot : Pstl
slot = record { payload = replicate 512 7; length = 9; seqnum = 9; timestamp = 9 }

rec_window_passes :
    RecWindow.test_basic (replicate 31 none) hello (λ _. some slot) ≡ some (replicate 24 true)
unfolding store RecWindow.test_basic RecWindow.add_and_check RecWindow.take_out SortedList.new_list
    SortedList.add SortedList.ind SortedList.peek SortedList.peek_loop SortedList.pop pkt_new
    pkt_set_seqnum pkt_set_payload pkt_set_length read_bytes write_bytes pkt_get_payload
    pkt_get_length pkt_get_seqnum pkt_get_timestamp
rec_window_passes = refl

-- With a block of `malloc` whose TR bit is set, the copy of the payload reads through NULL.
rec_window_faults : RecWindow.test_basic (replicate 31 none) dirty (λ _. some slot) ≡ none
unfolding store RecWindow.test_basic RecWindow.add_and_check SortedList.new_list SortedList.add
    SortedList.ind pkt_new pkt_set_seqnum pkt_set_payload pkt_set_length read_bytes write_bytes
    pkt_get_payload pkt_get_length pkt_get_seqnum
rec_window_faults = refl

send_window_passes : SendWindow.test_case (λ _. dirty) ≡ some (replicate 25 true)
unfolding store SendWindow.test_case SendWindow.add_and_check SendWindow.first_seqnum
    SendWindow.ack_3 SendWindow.check_left SendWindow.walk SendWindow.take_out Queue.new_list
    Queue.add Queue.peek Queue.dequeue Queue.is_empty Queue.higher Queue.is_higher_or_equal
    Queue.get_loop Queue.first_index Queue.get pkt_new pkt_set_seqnum pkt_set_payload pkt_set_length
    pkt_set_timestamp read_bytes write_bytes pkt_get_seqnum
send_window_passes = refl
