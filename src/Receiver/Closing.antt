-- ===== src/Receiver/Closing.antt =====
-- The packet that closes the connection in src/lib/send_data/read_write_loop_server.c.
use linfo1341_project.Common.{ℕ, ◌%◌, ◌≡◌, true, false, some, List, [], arith, ◌==◌, refl}
use linfo1341_project.Segment.{Pkt, Zlib, pkt_get_type, pkt_get_tr, pkt_get_seqnum, pkt_get_length}
use linfo1341_project.Segment.DecodeWire.{decoded}
use linfo1341_project.Segment.Wire.{IsCoherent}
use linfo1341_project.Stats.{add_data_received, remove_logger}
use linfo1341_project.Receiver.{
  Receiver, Round, returned, disconnected, on_packet, on_awaited, step,
}
use linfo1341_project.Receiver.Deliver.{Receiving}
use linfo1341_project.Receiver.Step.{Arrives, step-Arrives}
use linfo1341_project.Receiver.Any.{Passes}

-- The packet that closes the connection, behind the chunks below `next`
pub record IsClosing (next : ℕ) (pkt : Pkt) : Type 0 where
  pub coherent : IsCoherent pkt
  pub is_data : pkt.type ≡ 1
  pub whole : pkt.tr ≡ 0
  pub empty : pkt.length ≡ 0
  pub numbered : pkt.seqnum ≡ next % 256

module _ (chunk : ℕ → List ℕ) (z : Zlib) (round : Round) (works : Passes round) where
  -- When the packet without payload that closes the connection arrives with the awaited number,
  -- and no `write` or `send` gives 0 and the blocks of `malloc` are well-formed, the receiver
  -- writes and sends nothing, reports the statistics and returns.
  pub step-closed :
      (n : ℕ) (r : Receiver) (pkt : Pkt)
      → Receiving chunk n r
      → IsClosing n pkt
      → Arrives z pkt round
      → step z round r
        ≡ some ([], returned disconnected (remove_logger (add_data_received r.logger)))
  unfolding on_packet on_awaited pkt_get_type pkt_get_tr pkt_get_seqnum pkt_get_length
  step-closed n r pkt v c a =
      let nothing : (decoded z pkt r.pkt).length ≡ 0 = ground (arith, c.whole, c.empty) in
      let is_data : ((decoded z pkt r.pkt).type == 1) ≡ true = ground (arith, c.is_data, c.empty) in
      let whole : ((decoded z pkt r.pkt).tr == 1) ≡ false = ground (arith, c.whole, c.empty) in
      let awaited : ((decoded z pkt r.pkt).seqnum == r.waited_seqnum) ≡ true =
        ground (arith, c.numbered, v.waited, c.empty) in
      rw
        (
          step-Arrives chunk z round works.ack_ok works.sends works.writes r pkt c.coherent v.pkt_ok
              a,
          is_data,
          whole,
          awaited,
          nothing,
        )
        refl
