-- ===== src/Net/Turn.antt =====
-- A round of src/lib/send_data/read_write_loop_server.c on the link, whatever arrives.
use linfo1341_project.Common.{
  ℕ, ◌+◌, ◌≤◌, ◌≡◌, ◌≢◌, refl, sym, true, false, some, List, [], arith, ◌==◌, length, All-at,
  Returns, returns, Returns-at, Returns-map,
}
use linfo1341_project.Segment.{Pkt, PktStatusCode, pkt_ok, Zlib, IsPkt}
use linfo1341_project.Segment.Wire.{wire}
use linfo1341_project.Segment.Decode.{pkt_decode}
use linfo1341_project.Segment.DecodeSafety.{decode_safe}
use linfo1341_project.Stats.{add_packet_ignored}
use linfo1341_project.Sender
use linfo1341_project.Receiver
use linfo1341_project.Receiver.{Action, size_of_int}
use linfo1341_project.Receiver.Deliver.{Receiving}
use linfo1341_project.Receiver.Store.{silent}
use linfo1341_project.Receiver.Step.{Arrives}
use linfo1341_project.Receiver.Any.{Passes, Delivers, Keeps-Delivers, step-Delivers}
use linfo1341_project.SortedList.{SortedList}
use linfo1341_project.Receiver.Truncated.{Refuses, on_packet-Refuses}
use linfo1341_project.Receiver.Closing.{IsClosing, step-closed}
use linfo1341_project.Net.{
  Datagram, System, Catches, ReceiverTurn, quiet, intact, garbled, truncated,
}
use linfo1341_project.Net.Sound.{
  cut, cut-below, Carries-same, FromChunk, Outbound, from_chunk, closing, SenderSide, sending,
  ended,
}

module _ (chunk : ℕ → List ℕ) (z : Zlib) (s : System) where
  abbrev pub stream : ℕ → List ℕ
  stream = cut s.total_read chunk

  -- The round delivers chunks, or it is the last: everything read was written.
  pub data Turned (out : List Action × Receiver.Outcome) : Type 0 where
    refuses : {window : SortedList} → Refuses stream z (length s.written) window out → Turned out
    delivers : Delivers stream z (length s.written) out → Turned out
    closes :
        (file : _) (stats : _)
        → out ≡ ([], Receiver.returned Receiver.disconnected file)
        → s.sender ≡ Sender.returned Sender.terminated stats
        → Turned out

  module _ (round : Receiver.Round) (r : Receiver.Receiver)
      (v : Receiving stream (length s.written) r) (polled : round.is_running ≢ 0) where
    -- Nothing is sent or written, and the next round starts with another block of the packet.
    stays :
        (after : Receiver.Receiver)
        → after.window ≡ r.window
        → Receiving stream (length s.written) after
        → Returns Turned (some ([], Receiver.running after))
    stays after same u = returns (
        delivers (
          Keeps-Delivers stream z (length s.written) {window = r.window} _ (record {
            after = after;
            goes_on = refl;
            answers = silent;
            same_window = same;
            receiving = u;
          })))

    quiet-Turned : round.revents ≡ 0 → Returns Turned (Receiver.step z round r)
    unfolding Receiver.step
    quiet-Turned e =
        let running : (round.is_running == 0) ≡ false = ground arith in
        let nothing : (round.revents == 0) ≡ true = ground arith in
        rw (running, nothing) (stays r refl v)

    garbled-Turned :
        (status : PktStatusCode) (pkt : Pkt)
        → round.revents ≢ 0
        → round.nb ≢ 0
        → IsPkt pkt
        → pkt_decode z round.data_buffer (size_of_int round.nb) r.pkt ≡ some (status, pkt)
        → status ≢ pkt_ok
        → Returns Turned (Receiver.step z round r)
    unfolding Receiver.step
    garbled-Turned pkt_ok pkt event some_bytes p e ne = absurd (ne refl)
    garbled-Turned _ pkt event some_bytes p e ne =
        let running : (round.is_running == 0) ≡ false = ground arith in
        let came : (round.revents == 0) ≡ false = ground arith in
        let full : (round.nb == 0) ≡ false = ground arith in
        rw (running, came, full, e)
          (stays (record r { pkt = pkt; logger = add_packet_ignored r.logger }) refl
            (record {
              waiting = v.waiting;
              waited = v.waited;
              ack_room = v.ack_room;
              buffer_room = v.buffer_room;
              pkt_ok = p;
            }))

    truncated-Turned :
        (pkt : Pkt)
        → Passes round
        → round.revents ≢ 0
        → round.nb ≢ 0
        → IsPkt pkt
        → pkt_decode z round.data_buffer (size_of_int round.nb) r.pkt ≡ some (pkt_ok, pkt)
        → pkt.type ≡ 1
        → pkt.tr ≡ 1
        → Returns Turned (Receiver.step z round r)
    unfolding Receiver.step
    truncated-Turned pkt works event some_bytes p e is_data cut_short =
        let polled_now : (round.is_running == 0) ≡ false = ground arith in
        let came : (round.revents == 0) ≡ false = ground arith in
        let full : (round.nb == 0) ≡ false = ground arith in
        let u : Receiving stream (length s.written) (record r { pkt = pkt }) = record {
          waiting = v.waiting;
          waited = v.waited;
          ack_room = v.ack_room;
          buffer_room = v.buffer_room;
          pkt_ok = p;
        } in
        rw (polled_now, came, full, e)
          (Returns-map
            (on_packet-Refuses stream z round works.ack_ok works.sends (length s.written)
              (record r { pkt = pkt }) u is_data cut_short)
            λ out f. refuses f)

    Arrives-caught :
        (d : Datagram) (pkt : Pkt)
        → round.revents ≢ 0
        → round.nb ≡ length d.bytes
        → Catches s s.outbound round.data_buffer d
        → d.bytes ≡ wire z pkt
        → Arrives z pkt round
    Arrives-caught d pkt event size c e = record {
      polled = polled;
      event = event;
      received = rw (← e) size;
      rest = c.rest;
      bytes = rw (← e) c.bytes;
    }

    module _ (works : Passes round) (d : Datagram) (event : round.revents ≢ 0)
        (size : round.nb ≡ length d.bytes) (c : Catches s s.outbound round.data_buffer d) where
      chunk-Turned :
          (f : FromChunk chunk z s.total_read d)
          → f.number ≤ length s.written + 30
          → Returns Turned (Receiver.step z round r)
      chunk-Turned f early =
          let data_of = f.carried in
          let carries =
            Carries-same chunk stream f.number (sym (cut-below chunk s.total_read f.number f.below))
              data_of.pkt data_of.carries in
          Returns-map
            (step-Delivers stream z round works (length s.written) f.number r data_of.pkt v carries
              data_of.coherent (Arrives-caught d data_of.pkt event size c data_of.at)
              (omega (arith, c.alive, f.recent)) early)
            λ out k. delivers k

      datagram-Turned : SenderSide chunk z s → Returns Turned (Receiver.step z round r)
      datagram-Turned (sending a base e ready from all) =
          let f = All-at (FromChunk chunk z s.total_read) s.outbound c.place d all c.at in
          chunk-Turned f
            (omega (arith, f.below, ready.total, ready.upto, ready.sending.holds.bounded))
      datagram-Turned (ended stats e total all) =
          elim (All-at (Outbound chunk z s.total_read) s.outbound c.place d all c.at) [
            | from_chunk f ↦ chunk-Turned f (omega (arith, f.below))
            | closing pkt is_closing at ↦
                let last : IsClosing (length s.written) pkt = rw total is_closing in
                rw
                  (step-closed stream z round works (length s.written) r pkt v last
                    (Arrives-caught d pkt event size c at))
                  (returns (closes _ stats refl e))
          ]

  -- A round of the receiver is without a fault.
  pub receiver-Turned :
      (round : Receiver.Round) (r : Receiver.Receiver)
      → SenderSide chunk z s
      → Receiving stream (length s.written) r
      → ReceiverTurn chunk z s round r
      → Returns Turned (Receiver.step z round r)
  receiver-Turned round r side v turn = elim turn.arrival [
    | quiet e ↦ quiet-Turned round r v turn.polled e
    | intact d event size c ↦ datagram-Turned round r v turn.polled turn.works d event size c side
    | garbled status pkt event some_bytes bytes few fits e ne ↦
        garbled-Turned round r v turn.polled status pkt event some_bytes
          (Returns-at
            (decode_safe z round.data_buffer (size_of_int round.nb) r.pkt bytes few fits v.pkt_ok)
            e)
          e ne
    | truncated pkt event some_bytes bytes few fits e is_data cut_short ↦
        truncated-Turned round r v turn.polled pkt turn.works event some_bytes
          (Returns-at
            (decode_safe z round.data_buffer (size_of_int round.nb) r.pkt bytes few fits v.pkt_ok)
            e)
          e is_data cut_short
  ]
