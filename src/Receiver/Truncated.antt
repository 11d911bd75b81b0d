-- ===== src/Receiver/Truncated.antt =====
-- A truncated data packet in src/lib/send_data/read_write_loop_server.c.
use linfo1341_project.Common.{
  ℕ, ◌%◌, ◌<◌, ◌≡◌, ◌≢◌, refl, inr, List, [], ◌∷◌, ◌++◌, arith, true, ◌==◌, drop, Returns, returns,
}
use linfo1341_project.Segment.{Pkt, Zlib, IsPkt, pkt_get_type, pkt_get_tr, pkt_get_timestamp}
use linfo1341_project.Segment.Wire.{wire}
use linfo1341_project.SortedList.{SortedList}
use linfo1341_project.Stats.{add_data_received, add_data_truncated_received, add_nack_sent}
use linfo1341_project.Receiver.{
  Receiver, Round, Action, sent, Outcome, running, build_ack, on_truncated, on_packet,
}
use linfo1341_project.Receiver.Ack.{IsAck, build_ack-IsAck, send_ack_lem, length-ack_buffer}
use linfo1341_project.Receiver.Deliver.{Receiving}

module _ (chunk : ℕ → List ℕ) where
  -- A negative acknowledgement of the awaited number goes out, and chunk `n` is awaited still.
  pub record Refuses (z : Zlib) (n : ℕ) (window : SortedList) (out : List Action × Outcome)
      : Type 0 where
    pub after : Receiver
    pub nack : Pkt
    pub goes_on : out.1 ≡ running after
    pub sends : out.0 ≡ sent (wire z nack) ∷ []
    pub is_nack : IsAck 3 (n % 256) nack
    pub same_window : after.window ≡ window
    pub receiving : Receiving chunk n after

  module _ (z : Zlib) (round : Round) (block_ok : IsPkt round.ack_block)
      (sends : round.send_result ≢ 0) where
    -- A decoded data packet with TR set, whatever its number, is answered by one negative
    -- acknowledgement that carries the number of the awaited chunk n, when `send` succeeds and
    -- its block is well-formed: nothing is written, the window is as it was, and chunk n is
    -- awaited still with the invariant kept.
    pub on_packet-Refuses :
        (n : ℕ) (r : Receiver)
        → Receiving chunk n r
        → r.pkt.type ≡ 1
        → r.pkt.tr ≡ 1
        → Returns (Refuses z n r.window) (on_packet z round r)
    unfolding on_packet on_truncated pkt_get_type pkt_get_tr
    on_packet-Refuses n r v kind cut =
        let small : r.waited_seqnum < 256 = omega (arith, v.waited) in
        let time = pkt_get_timestamp r.pkt in
        let nack = build_ack round.ack_block time r.waited_seqnum 3 in
        let is_nack =
          build_ack-IsAck round.ack_block time r.waited_seqnum 3 block_ok (inr refl) small in
        let is_data : (r.pkt.type == 1) ≡ true = ground arith in
        let is_truncated : (r.pkt.tr == 1) ≡ true = ground arith in
        let counted = record r {
          logger = add_data_truncated_received (add_data_received r.logger);
        } in
        rw
          (
            is_data,
            is_truncated,
            send_ack_lem z round block_ok sends counted time 3 add_nack_sent v.ack_room
                v.buffer_room small (inr refl),
          )
          (returns (record {
            after = record counted {
              buffer = wire z nack ++ drop 10 r.buffer;
              ack_size = 10;
              logger = add_nack_sent counted.logger;
            };
            nack = nack;
            goes_on = refl;
            sends = refl;
            is_nack = rw (← v.waited) is_nack;
            same_window = refl;
            receiving = record {
              waiting = v.waiting;
              waited = v.waited;
              ack_room = refl;
              buffer_room =
                  length-ack_buffer z round block_ok sends r time 3 v.buffer_room small (inr refl);
              pkt_ok = v.pkt_ok;
            };
          }))
