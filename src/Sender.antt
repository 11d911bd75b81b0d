-- ===== src/Sender.antt =====
-- src/lib/send_data/read_write_loop_sender.c: the sender. One round of its loop is a function of the
-- state and of what the system calls of that round give back.
pub mod Window
pub mod Acked
pub mod Clock
pub mod Loop
pub mod Kept
pub mod Resend
pub mod Answer
pub mod Closing
pub mod Whole
pub mod Failing
pub mod Fresh
pub mod Timer
pub mod Cumulative
pub mod Counted
pub mod Counts
pub mod Finish
mod Tests
use Prim.Native.String.{String}
use linfo1341_project.Common.{
  ℕ, zero, suc, ◌+◌, ◌-◌, ◌/◌, ◌%◌, ◌^◌, Bool, true, false, not, ◌&&◌, Option, none, some, List, [],
  ◌∷◌, ◌++◌, ltb, leb, ◌==◌, if◌then◌else◌, load, store, ◌>>=◌,
}
use linfo1341_project.Common.Memory.{read_bytes}
use linfo1341_project.Segment.{
  Pkt, pkt_ok, Zlib, max_window_size, max_payload_size, pkt_new, pkt_set_type, pkt_set_tr,
  pkt_set_window, pkt_set_seqnum, pkt_set_length, pkt_set_timestamp, pkt_set_payload, pkt_get_type,
  pkt_get_tr, pkt_get_window, pkt_get_seqnum, pkt_get_timestamp,
}
use linfo1341_project.Segment.Encode.{pkt_encode}
use linfo1341_project.Segment.Decode.{pkt_decode}
use linfo1341_project.Queue.{Queue}
use linfo1341_project.Queue
use linfo1341_project.Stats.{
  Logger, int_lt, new_logger, remove_logger, add_data_sent, add_data_received,
  add_data_truncated_received, add_ack_received, add_nack_received, add_packet_ignored,
  add_packet_duplicated, add_packet_retransmitted, new_rtt,
}

-- `nb` is the bit pattern of an `int`; the argument of `pkt_set_length` and `pkt_set_payload` is
-- cut to 16 bits there.
unfoldable pub build_header : Pkt → (window_size seqnum nb timestamp : ℕ) → Pkt
build_header pkt window_size seqnum nb timestamp =
    let pkt1 = (pkt_set_type pkt 1).1 in
    let pkt2 = (pkt_set_tr pkt1 0).1 in
    let pkt3 = (pkt_set_window pkt2 window_size).1 in
    let pkt4 = (pkt_set_seqnum pkt3 seqnum).1 in
    let pkt5 = (pkt_set_length pkt4 nb).1 in (pkt_set_timestamp pkt5 timestamp).1

unfoldable pub build_pkt :
    Pkt → (window_size seqnum nb : ℕ) → (payload : List ℕ) → (timestamp : ℕ) → Option Pkt
build_pkt pkt window_size seqnum nb payload timestamp = do
  (_, built) ← pkt_set_payload (build_header pkt window_size seqnum nb timestamp) payload nb
  some built

-- `TIMEOUT`
abbrev pub timeout : ℕ
timeout = 1200

-- The variables of the loop that live from one round to the next. `*supportInt` is -1 at the start
-- of every search.
pub record Sender : Type 0 where
  pub window : Queue
  pub payload_buffer : List ℕ
  pub pkt_buffer : List ℕ
  pub nb : ℕ
  pub seqnum : ℕ
  pub pkt_in_window : ℕ
  pub sending_window_size : ℕ
  pub logger : Logger

-- What the calls of a round give back: `poll`, `revents & POLLIN` of the input and of the socket,
-- the two `read` with the buffers that they fill, the blocks of `malloc`, the result of the `send`
-- of new data as an `int` pattern, and `current_timestamp` where it is called.
pub record Round : Type 0 where
  pub pollresp : ℕ
  pub input_ready : Bool
  pub socket_ready : Bool
  pub input_nb : ℕ
  pub input_buffer : List ℕ
  pub socket_nb : ℕ
  pub socket_buffer : List ℕ
  pub data_block : Pkt
  pub socket_block : Pkt
  pub close_block : Pkt
  pub send_result : ℕ
  pub data_time : ℕ
  pub rtt_time : ℕ
  pub nack_time : ℕ
  pub clock_time : ℕ
  pub resend_time : ℕ → ℕ
  pub close_time : ℕ

pub data Ending : Type 0 where
  terminated poll_error encode_error send_error : Ending

-- The bytes of the `send` calls, and the state or what is written to the file of statistics.
pub data Outcome : Type 0 where
  running : Sender → Outcome
  returned : Ending → List (String × ℕ) → Outcome

-- The code that follows in the round, if the loop has not returned
abbrev pub and_then :
    Option (List (List ℕ) × Outcome)
    → (Sender → Option (List (List ℕ) × Outcome))
    → Option (List (List ℕ) × Outcome)
and_then first next = do
  (sent, outcome) ← first
  elim outcome [
    | returned e file ↦ some (sent, returned e file)
    | running s ↦ do (more, end) ← next s; some (sent ++ more, end)
  ]

-- The state before the loop
unfoldable pub start :
    (payload_buffer pkt_buffer : List ℕ) (has_file : Bool) (fresh : Logger) → Sender
start payload_buffer pkt_buffer has_file fresh = record {
  window = Queue.new_list;
  payload_buffer = payload_buffer;
  pkt_buffer = pkt_buffer;
  nb = 0;
  seqnum = 0;
  pkt_in_window = 0;
  sending_window_size = 1;
  logger = new_logger 1 has_file fresh;
}

-- The loop that removes the acknowledged packets, on fuel: the window, `pktInWindow`, `isChanged`.
unfoldable pub ack_loop : ℕ → ℕ → Queue → ℕ → Bool → Option (Queue × ℕ × Bool)
ack_loop zero receive_seqnum window pkt_in_window changed = none
ack_loop (suc fuel) receive_seqnum window pkt_in_window changed =
    let next =
      λ (left : Queue). ack_loop fuel receive_seqnum left ((pkt_in_window + 255) % 256) true in
    do
      covered ← Queue.is_higher_or_equal receive_seqnum window
      if covered
          then (do left ← Queue.dequeue window; next left)
          else some (window, pkt_in_window, changed)

-- The number before the one that an acknowledgement carries
unfoldable pub before : ℕ → ℕ
before received = if not (received == 0) then received - 1 else 255

module _ (z : Zlib) (round : Round) where
  -- Data is ready on the input, and the window is open.
  unfoldable pub send_data : Sender → Option (List (List ℕ) × Outcome)
  send_data s =
      let r = record s { nb = round.input_nb; payload_buffer = round.input_buffer } in
      let open_places = (s.sending_window_size + 256 - s.pkt_in_window) % 256 in
      if r.nb == 0 then some ([], running r) else do
        pkt ←
            build_pkt (pkt_new round.data_block) open_places r.seqnum r.nb r.payload_buffer
              round.data_time
        (status, buffer, size) ← pkt_encode z pkt r.pkt_buffer 528
        elim status [
          | pkt_ok ↦ (do
            window ← Queue.add r.window (some pkt)
            bytes ← read_bytes buffer 0 size
            some (
              bytes ∷ [],
              (if int_lt round.send_result 0
                  then returned send_error []
                  else running (record r {
                    window = window;
                    pkt_buffer = buffer;
                    pkt_in_window = (r.pkt_in_window + 1) % 256;
                    seqnum = (r.seqnum + 1) % 256;
                    logger = add_data_sent r.logger;
                  })),
            ))
          | _ ↦ some ([], returned encode_error [])
        ]

  unfoldable pub on_input : Sender → Option (List (List ℕ) × Outcome)
  on_input s =
      if round.input_ready && ltb s.pkt_in_window s.sending_window_size
      then send_data s
      else some ([], running s)

  -- Packet `index` of the window goes out again, with a new timestamp.
  unfoldable pub resend : ℕ → ℕ → Sender → Option (List (List ℕ) × Outcome)
  resend index time s = do
    slot ← load s.window.window index
    found ← slot
    let pkt = (pkt_set_timestamp found time).1
    window ← store s.window.window index (some pkt)
    (status, buffer, size) ← pkt_encode z pkt s.pkt_buffer 528
    elim status [
      | pkt_ok ↦ (do
        bytes ← read_bytes buffer 0 size
        some (
          bytes ∷ [],
          running (record s {
            window = record s.window { window = window };
            pkt_buffer = buffer;
            logger = add_packet_retransmitted s.logger;
          }),
        ))
      | _ ↦ some ([], returned encode_error [])
    ]

  -- An acknowledgement: `pkt` is the packet received.
  unfoldable pub on_ack : Pkt → Sender → Option (List (List ℕ) × Outcome)
  on_ack pkt s = do
    (window, left, changed) ←
        ack_loop 32 (before (pkt_get_seqnum pkt)) s.window s.pkt_in_window false
    let counted = add_ack_received s.logger
    some (
      [],
      running (record s {
        window = window;
        pkt_in_window = left;
        sending_window_size = pkt_get_window pkt;
        logger =
            (if changed
              then new_rtt counted ((round.rtt_time + 2 ^ 32 - pkt_get_timestamp pkt) % 2 ^ 32)
              else add_packet_ignored counted);
      }),
    )
