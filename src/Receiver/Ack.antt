-- ===== src/Receiver/Ack.antt =====
-- The acknowledgements of src/lib/send_data/read_write_loop_server.c.
use linfo1341_project.Common.{
  ℕ, ◌<◌, ◌≡◌, ◌≢◌, ◌⊎◌, inl, inr, refl, false, some, [], ◌∷◌, ◌++◌, arith, ◌==◌, length,
  length-append, length-drop, drop,
}
use linfo1341_project.Common.Memory.{read_bytes_next}
use linfo1341_project.Segment.{
  Pkt, Zlib, IsPkt, pkt_new, pkt_set_type, pkt_set_tr, pkt_set_window, pkt_set_seqnum,
  pkt_set_length, pkt_set_timestamp,
}
use linfo1341_project.Segment.Encode.{encoded_size}
use linfo1341_project.Segment.Wire.{wire, IsCoherent}
use linfo1341_project.Segment.EncodeWire.{encode_wire, encoded_size-length-wire}
use linfo1341_project.Stats.{Logger}
use linfo1341_project.Receiver.{Receiver, Round, sent, running, build_ack, send_ack}

-- An acknowledgement of `type` for the next awaited number, as it goes on the wire
pub record IsAck (type seqnum : ℕ) (ack : Pkt) : Type 0 where
  pub coherent : IsCoherent ack
  pub kind : ack.type ≡ type
  pub numbered : ack.seqnum ≡ seqnum
  pub open_window : ack.window ≡ 31
  pub no_payload : ack.length ≡ 0
  pub not_truncated : ack.tr ≡ 0

-- `build_ack` sets every field that is sent, whatever the block held.
pub build_ack-IsAck :
    (block : Pkt) (timestamp seqnum type : ℕ)
    → IsPkt block
    → (type ≡ 2) ⊎ (type ≡ 3)
    → seqnum < 256
    → IsAck type seqnum (build_ack block timestamp seqnum type)
unfolding build_ack pkt_set_type pkt_set_tr pkt_set_window pkt_set_seqnum pkt_set_length
    pkt_set_timestamp
build_ack-IsAck block timestamp seqnum type v (inl e) h = ground arith
build_ack-IsAck block timestamp seqnum type v (inr e) h = ground arith

-- Ten bytes suffice for it.
pub length-wire_ack :
    (z : Zlib) (type seqnum : ℕ) (ack : Pkt)
    → IsAck type seqnum ack
    → (type ≡ 2) ⊎ (type ≡ 3)
    → length (wire z ack) ≡ 10
unfolding encoded_size
length-wire_ack z type seqnum ack a t = ground (
  arith,
  encoded_size-length-wire z ack a.coherent.pkt_fits,
  a.kind,
  a.no_payload,
  a.not_truncated,
)

module _ (z : Zlib) (round : Round) (block_ok : IsPkt round.ack_block)
    (sends : round.send_result ≢ 0) where
  -- What `send_ack` does: the acknowledgement goes out whole, and nothing changes but the buffer
  -- and the counter.
  pub send_ack_lem :
      (r : Receiver) (timestamp type : ℕ) (count : Logger → Logger)
      → r.ack_size ≡ 10
      → length r.buffer ≡ 10
      → r.waited_seqnum < 256
      → (type ≡ 2) ⊎ (type ≡ 3)
      → let ack = build_ack round.ack_block timestamp r.waited_seqnum type in
        send_ack z round r timestamp type count
        ≡ some (
          sent (wire z ack) ∷ [],
          running (record r {
            buffer = wire z ack ++ drop 10 r.buffer;
            ack_size = 10;
            logger = count r.logger;
          }),
        )
  unfolding send_ack pkt_new
  send_ack_lem r timestamp type count size room small t =
      let ack = build_ack round.ack_block timestamp r.waited_seqnum type in
      let a = build_ack-IsAck round.ack_block timestamp r.waited_seqnum type block_ok t small in
      let ten = length-wire_ack z type r.waited_seqnum ack a t in
      let done : (round.send_result == 0) ≡ false = ground arith in
      rw (
        encode_wire z ack a.coherent r.buffer r.ack_size (omega arith) (omega arith) (omega arith),
        ten,
        read_bytes_next [] (wire z ack) (drop 10 r.buffer) 0 10 refl (omega arith),
        done,
      )

  pub length-ack_buffer :
      (r : Receiver) (timestamp type : ℕ)
      → length r.buffer ≡ 10
      → r.waited_seqnum < 256
      → (type ≡ 2) ⊎ (type ≡ 3)
      → length
          (wire z (build_ack round.ack_block timestamp r.waited_seqnum type) ++ drop 10 r.buffer)
        ≡ 10
  length-ack_buffer r timestamp type room small t =
      let ack = build_ack round.ack_block timestamp r.waited_seqnum type in
      let a = build_ack-IsAck round.ack_block timestamp r.waited_seqnum type block_ok t small in
      omega (
        arith,
        length-wire_ack z type r.waited_seqnum ack a t,
        length-append (wire z ack) (drop 10 r.buffer),
        length-drop 10 r.buffer,
      )
