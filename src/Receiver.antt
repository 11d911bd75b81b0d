-- ===== src/Receiver.antt =====
-- src/lib/send_data/read_write_loop_server.c: the receiver. One round of its loop is a function of
-- the state and of what the system calls of that round give back.
pub mod Stream
pub mod Drain
pub mod Ack
pub mod Deliver
pub mod Store
pub mod Step
pub mod Truncated
pub mod Counted
pub mod Counts
pub mod Any
pub mod Closing
mod Stale
mod Tests
use Prim.Native.String.{String}
use linfo1341_project.Common.{
  ℕ, zero, suc, ◌+◌, ◌-◌, ◌%◌, ◌^◌, Bool, true, false, not, ◌&&◌, Option, none, some, List, [], ◌∷◌,
  ◌++◌, ltb, leb, ◌==◌, if◌then◌else◌, ◌>>=◌,
}
use linfo1341_project.Common.Memory.{read_bytes}
use linfo1341_project.Segment.{
  Pkt, pkt_ok, Zlib, ptype_ack, ptype_nack, max_window_size, pkt_new, pkt_set_type, pkt_set_tr,
  pkt_set_window, pkt_set_seqnum, pkt_set_length, pkt_set_timestamp, pkt_get_type, pkt_get_tr,
  pkt_get_seqnum, pkt_get_length, pkt_get_timestamp, pkt_get_payload,
}
use linfo1341_project.Segment.Encode.{pkt_encode}
use linfo1341_project.Segment.Decode.{pkt_decode}
use linfo1341_project.SortedList.{Pstl, SortedList, added, duplicate, failed}
use linfo1341_project.SortedList
use linfo1341_project.Stats.{
  Logger, new_logger, remove_logger, add_data_received, add_data_truncated_received, add_ack_sent,
  add_ack_received, add_nack_sent, add_nack_received, add_packet_ignored, add_packet_duplicated,
}

unfoldable pub in_window : ℕ → ℕ → Bool
in_window waited received =
    if leb waited received then leb (received - waited) 32 else leb (256 + received - waited) 32

unfoldable pub build_ack : Pkt → (timestamp seqnum type : ℕ) → Pkt
build_ack pkt timestamp seqnum type =
    let pkt1 = (pkt_set_type pkt type).1 in
    let pkt2 = (pkt_set_tr pkt1 0).1 in
    let pkt3 = (pkt_set_window pkt2 max_window_size).1 in
    let pkt4 = (pkt_set_seqnum pkt3 seqnum).1 in
    let pkt5 = (pkt_set_length pkt4 0).1 in (pkt_set_timestamp pkt5 timestamp).1

-- The variables of the loop that live from one round to the next
pub record Receiver : Type 0 where
  pub window : SortedList
  pub buffer : List ℕ
  pub ack_size : ℕ
  pub waited_seqnum : ℕ
  pub receive_pkt : ℕ
  pub pkt : Pkt
  pub logger : Logger

-- The state before the loop, from the blocks that `malloc` hands back and the array on the stack.
unfoldable pub start :
    (window : List (Option Pstl)) (buffer : List ℕ) (pkt : Pkt) (has_file : Bool) (fresh : Logger)
    → Receiver
start window buffer pkt has_file fresh = record {
  window = SortedList.new_list window;
  buffer = buffer;
  ack_size = 10;
  waited_seqnum = 0;
  receive_pkt = 0;
  pkt = pkt_new pkt;
  logger = new_logger 0 has_file fresh;
}

-- What the calls of a round give back: `poll` and `revents`, `recv` with the buffer that it fills,
-- the blocks of `malloc`, and the results of the `k`-th `write` and of `send` as `int` patterns.
pub record Round : Type 0 where
  pub is_running : ℕ
  pub revents : ℕ
  pub nb : ℕ
  pub data_buffer : List ℕ
  pub ack_block : Pkt
  pub slot_block : Option Pstl
  pub write_result : ℕ → ℕ
  pub send_result : ℕ

-- What the receiver does to the outside: `write` to the output, `send` on the socket
pub data Action : Type 0 where
  wrote sent : List ℕ → Action

-- What is written to the output, and what is sent
unfoldable pub written_by : List Action → List (List ℕ)
written_by [] = []
written_by (wrote bytes ∷ rest) = bytes ∷ written_by rest
written_by (sent bytes ∷ rest) = written_by rest

unfoldable pub sent_by : List Action → List (List ℕ)
sent_by [] = []
sent_by (wrote bytes ∷ rest) = sent_by rest
sent_by (sent bytes ∷ rest) = bytes ∷ sent_by rest

pub data Ending : Type 0 where
  timeout closed disconnected write_error send_error add_error : Ending

-- The loop goes on, or returns, with what is written to the file of statistics.
pub data Outcome : Type 0 where
  running : Receiver → Outcome
  returned : Ending → List (String × ℕ) → Outcome

-- A `size_t` made from an `int`
abbrev pub size_of_int : ℕ → ℕ
size_of_int n = if leb (2 ^ 31) n then n + 2 ^ 64 - 2 ^ 32 else n

-- The window is emptied of the consecutive packets; `k` counts the calls of `write`.
pub record Drained : Type 0 where
  pub list : SortedList
  pub waited : ℕ
  pub timestamp_ack : ℕ
  pub received : ℕ

pub data DrainEnd : Type 0 where
  drained : Drained → DrainEnd
  stopped : Ending → DrainEnd

-- The test of the loop: the first block, if it is the awaited one.
unfoldable pub next_block : SortedList → ℕ → Option (Option Pstl × SortedList)
next_block list waited = if SortedList.is_empty list then some (none, list) else do
  (first, list1) ← SortedList.peek list
  block ← first
  some (if waited == block.seqnum then some block else none, list1)

-- One block more was written, before the rest of the loop.
abbrev pub also : Action → Option (List Action × DrainEnd) → Option (List Action × DrainEnd)
also action rest = do (actions, end) ← rest; some (action ∷ actions, end)

unfoldable pub drain_loop : ℕ → (ℕ → ℕ) → ℕ → Drained → Option (List Action × DrainEnd)
drain_loop zero write_result k d = none
drain_loop (suc fuel) write_result k d =
    let next = λ (list : SortedList) (block : Pstl). drain_loop fuel write_result (k + 1) (record {
      list = list;
      waited = (d.waited + 1) % 256;
      timestamp_ack = block.timestamp;
      received = (d.received + 1) % 2 ^ 64;
    }) in
    let deliver = λ (list : SortedList) (block : Pstl). (do
      bytes ← read_bytes block.payload 0 block.length
      popped ← SortedList.pop list
      (if write_result k == 0
          then some (wrote bytes ∷ [], stopped write_error)
          else also (wrote bytes) (next popped block))) in
    do
      (awaited, list) ← next_block d.list d.waited
      elim awaited [
        | none ↦ some ([], drained (record d { list = list }))
        | some block ↦
            if block.length == 0 then some ([], stopped disconnected) else deliver list block
      ]

module _ (z : Zlib) (round : Round) where
  -- Build an acknowledgement, encode it and send it; the code of `pkt_encode` is not read.
  unfoldable pub send_ack :
      Receiver → (timestamp type : ℕ) → (Logger → Logger) → Option (List Action × Outcome)
  send_ack r timestamp type count =
      let ack_pkt = build_ack (pkt_new round.ack_block) timestamp r.waited_seqnum type in
      do
        (_, buffer, ack_size) ← pkt_encode z ack_pkt r.buffer r.ack_size
        bytes ← read_bytes buffer 0 ack_size
        some (
          sent bytes ∷ [],
          (if round.send_result == 0
              then returned send_error []
              else running
                  (record r { buffer = buffer; ack_size = ack_size; logger = count r.logger })),
        )

  -- A truncated data packet
  unfoldable pub on_truncated : Receiver → Option (List Action × Outcome)
  on_truncated r =
      let counted = record r { logger = add_data_truncated_received r.logger } in
      send_ack counted (pkt_get_timestamp r.pkt) ptype_nack add_nack_sent

  -- The awaited packet: it is written, then what follows it in the window.
  unfoldable pub on_awaited : Receiver → Option (List Action × Outcome)
  on_awaited r =
      let old_seqnum = r.waited_seqnum in
      let fill = λ (d : Drained). (do
        window ← SortedList.reset d.list d.waited old_seqnum
        send_ack (record r { window = window; waited_seqnum = d.waited; receive_pkt = d.received })
            d.timestamp_ack ptype_ack add_ack_sent) in
      let first : Drained = record {
        list = r.window;
        waited = (r.waited_seqnum + 1) % 256;
        timestamp_ack = pkt_get_timestamp r.pkt;
        received = 1;
      } in
      if pkt_get_length r.pkt == 0
      then some ([], returned disconnected (remove_logger r.logger))
      else do
        payload ← pkt_get_payload r.pkt
        bytes ← read_bytes payload 0 (pkt_get_length r.pkt)
        (if round.write_result 0 == 0 then some (wrote bytes ∷ [], returned write_error []) else (do
          (actions, end) ← drain_loop 32 round.write_result 1 first
          elim end [
            | stopped disconnected ↦
                some (wrote bytes ∷ actions, returned disconnected (remove_logger r.logger))
            | stopped e ↦ some (wrote bytes ∷ actions, returned e [])
            | drained d ↦ do (acks, outcome) ← fill d; some (wrote bytes ∷ actions ++ acks, outcome)
          ]))

  -- The last acknowledgement again, once a packet has been received
  unfoldable pub ack_again : Receiver → Option (List Action × Outcome)
  ack_again r =
      if r.receive_pkt == 0
      then some ([], running r)
      else send_ack r (pkt_get_timestamp r.pkt) ptype_ack add_ack_sent

  -- Any other data packet: it is stored if it is in the window.
  unfoldable pub on_unawaited : Receiver → Option (List Action × Outcome)
  on_unawaited r =
      if in_window r.waited_seqnum (pkt_get_seqnum r.pkt)
      then (do
        (result, window) ← SortedList.add r.window r.pkt r.waited_seqnum round.slot_block
        let stored = record r { window = window; logger = add_data_received r.logger }
        elim result [
          | failed ↦ some ([], returned add_error [])
          | duplicate ↦
              ack_again (record stored {
                logger = add_packet_duplicated (add_packet_ignored stored.logger);
              })
          | added ↦ ack_again stored
        ])
      else ack_again (record r { logger = add_packet_ignored r.logger })

  -- The `switch` on the type of a decoded packet
  unfoldable pub on_packet : Receiver → Option (List Action × Outcome)
  on_packet r =
      let counted = record r { logger = add_data_received r.logger } in
      if pkt_get_type r.pkt == 1
      then (if pkt_get_tr r.pkt == 1
          then on_truncated counted
          else if pkt_get_seqnum r.pkt == r.waited_seqnum
          then on_awaited counted
          else on_unawaited counted)
      else if pkt_get_type r.pkt == 2
      then some ([], running (record r { logger = add_ack_received r.logger }))
      else if pkt_get_type r.pkt == 3
      then some ([], running (record r { logger = add_nack_received r.logger }))
      else some ([], running r)

  -- One round of `while (1)`. The test of `revents` is `&&`: any event counts.
  unfoldable pub step : Receiver → Option (List Action × Outcome)
  step r =
      if round.is_running == 0
      then some ([], returned timeout (remove_logger r.logger))
      else if round.revents == 0
      then some ([], running r)
      else if round.nb == 0
      then some ([], returned closed [])
      else (do
        (status, pkt) ← pkt_decode z round.data_buffer (size_of_int round.nb) r.pkt
        elim status [
          | pkt_ok ↦ on_packet (record r { pkt = pkt })
          | _ ↦ some ([], running (record r { pkt = pkt; logger = add_packet_ignored r.logger }))
        ])
