-- ===== src/Net.antt =====
-- The sender of src/lib/send_data/read_write_loop_sender.c and the receiver of
-- src/lib/send_data/read_write_loop_server.c on a link that loses, repeats, reorders, garbles and
-- truncates datagrams. The two loops take their rounds in any order.
pub mod Sound
pub mod Turn
pub mod Run
pub mod Received
pub mod Delivery
pub mod Progress
pub mod Told
pub mod Parting
pub mod CatchUp
pub mod Finish
pub mod Counters
mod Tests
use Prim.Native.String.{String}
use linfo1341_project.Common.{
  ℕ, zero, suc, ◌+◌, ◌-◌, ◌^◌, ◌≤◌, ◌<◌, ◌≡◌, ◌≢◌, Bool, true, Option, some, List, [], ◌∷◌, ◌++◌,
  length, map, get_elem?, ◌⊎◌,
}
use linfo1341_project.Common.Memory.{IsBytes}
use linfo1341_project.Segment.{Pkt, PktStatusCode, pkt_ok, Zlib, IsPkt}
use linfo1341_project.Segment.Decode.{pkt_decode}
use linfo1341_project.SortedList.{Pstl}
use linfo1341_project.Stats.{Logger}
use linfo1341_project.Sender
use linfo1341_project.Sender.Loop
use linfo1341_project.Sender.Whole.{Feeds, chunks_read}
use linfo1341_project.Receiver
use linfo1341_project.Receiver.{Action, wrote, sent, size_of_int, written_by, sent_by}
use linfo1341_project.Receiver.Any.{Passes}

-- A datagram that was sent when `sent_at` chunks were written to the output.
pub record Datagram : Type 0 where
  pub bytes : List ℕ
  pub sent_at : ℕ

-- The two loops, the number of chunks that were read from the input, the chunks that were written
-- to the output, and all that was ever sent on the two sockets.
pub record System : Type 0 where
  pub sender : Sender.Outcome
  pub receiver : Receiver.Outcome
  pub total_read : ℕ
  pub written : List (List ℕ)
  pub outbound : List Datagram
  pub inbound : List Datagram

abbrev pub stamped : ℕ → List (List ℕ) → List Datagram
stamped sent_at = map (λ bytes. record { bytes = bytes; sent_at = sent_at })

-- What the two programs start with: arrays on the stack, blocks of `malloc` with any content (also
-- `window[]`, which `new_list` does not clear), and whether there is a file for the statistics.
pub record Setup : Type 0 where
  pub payload_buffer : List ℕ
  pub pkt_buffer : List ℕ
  pub pkt_room : length pkt_buffer ≡ 528
  pub sender_logger : Logger
  pub sender_has_file : Bool
  pub window : List (Option Pstl)
  pub ack_buffer : List ℕ
  pub ack_room : length ack_buffer ≡ 10
  pub block : Pkt
  pub block_ok : IsPkt block
  pub receiver_logger : Logger
  pub receiver_has_file : Bool

unfoldable pub begin : Setup → System
begin c = record {
  sender =
      Sender.running (Sender.start c.payload_buffer c.pkt_buffer c.sender_has_file c.sender_logger);
  receiver =
      Receiver.running
        (Receiver.start c.window c.ack_buffer c.block c.receiver_has_file c.receiver_logger);
  total_read = 0;
  written = [];
  outbound = [];
  inbound = [];
}

-- A datagram of the history is on the link for as long as at most 99 chunks are written meanwhile.
pub record Catches (s : System) (history : List Datagram) (buffer : List ℕ) (datagram : Datagram)
    : Type 0 where
  pub place : ℕ
  pub at : get_elem? history place ≡ some datagram
  pub alive : length s.written ≤ datagram.sent_at + 99
  pub rest : List ℕ
  pub bytes : buffer ≡ datagram.bytes ++ rest

-- Each `write` takes all the bytes of its chunk, and `send` does not fail.
pub record Succeeds (round : Receiver.Round) (actions : List Action) : Type 0 where
  pub whole :
      (k : ℕ) (bytes : List ℕ)
      → get_elem? (written_by actions) k ≡ some bytes
      → round.write_result k ≡ length bytes
  pub sends : round.send_result < 2 ^ 31

module _ (chunk : ℕ → List ℕ) (z : Zlib) where
  -- What the socket of the sender gives: an acknowledgement of the history, or what `pkt_decode`
  -- refuses.
  pub record Listens (s : System) (round : Sender.Round) : Type 0 where
    pub block_ok : IsPkt round.socket_block
    pub room : length round.socket_buffer ≡ 528
    pub is_bytes : IsBytes round.socket_buffer
    pub hears :
        ((d : Datagram) × Catches s s.inbound round.socket_buffer d)
        ⊎ ((pkt : Pkt)
            → pkt_decode z round.socket_buffer 12 round.socket_block ≢ some (pkt_ok, pkt))

  -- The calls of a round of the sender succeed, and the input gives the stream.
  pub record SenderTurn (s : System) (round : Sender.Round) : Type 0 where
    pub polled : round.pollresp ≢ 2 ^ 32 - 1
    pub feeds : Feeds chunk s.total_read round
    pub close_ok : IsPkt round.close_block
    pub listens : round.socket_ready ≡ true → Listens s round

  -- Nothing arrives at the receiver, or a datagram of the history, or what `pkt_decode` refuses, or
  -- a data packet that the link has truncated.
  pub data Arrival (s : System) (round : Receiver.Round) (r : Receiver.Receiver) : Type 0 where
    quiet : round.revents ≡ 0 → Arrival s round r
    intact :
        (d : Datagram)
        → round.revents ≢ 0
        → round.nb ≡ length d.bytes
        → Catches s s.outbound round.data_buffer d
        → Arrival s round r
    garbled :
        (status : PktStatusCode) (pkt : Pkt)
        → round.revents ≢ 0
        → round.nb ≢ 0
        → IsBytes round.data_buffer
        → 3 ≤ length round.data_buffer
        → size_of_int round.nb ≤ length round.data_buffer
        → pkt_decode z round.data_buffer (size_of_int round.nb) r.pkt ≡ some (status, pkt)
        → status ≢ pkt_ok
        → Arrival s round r
    truncated :
        (pkt : Pkt)
        → round.revents ≢ 0
        → round.nb ≢ 0
        → IsBytes round.data_buffer
        → 3 ≤ length round.data_buffer
        → size_of_int round.nb ≤ length round.data_buffer
        → pkt_decode z round.data_buffer (size_of_int round.nb) r.pkt ≡ some (pkt_ok, pkt)
        → pkt.type ≡ 1
        → pkt.tr ≡ 1
        → Arrival s round r

  -- The calls of a round of the receiver succeed, and `poll` does not run out of time.
  pub record ReceiverTurn (s : System) (round : Receiver.Round) (r : Receiver.Receiver)
      : Type 0 where
    pub works : Passes round
    pub succeeds :
        (out : List Action × Receiver.Outcome)
        → Receiver.step z round r ≡ some out
        → Succeeds round (out.0)
    pub polled : round.is_running ≢ 0
    pub arrival : Arrival s round r

  -- One round of one of the two loops
  pub data Step (s t : System) : Type 0 where
    sender_turn :
        (round : Sender.Round) (a : Sender.Sender) (out : List (List ℕ) × Sender.Outcome)
        → s.sender ≡ Sender.running a
        → SenderTurn s round
        → Sender.Loop.step z round a ≡ some out
        → t ≡ record s {
          sender = out.1;
          total_read = s.total_read + chunks_read chunk z round a;
          outbound = stamped (length s.written) (out.0) ++ s.outbound;
        }
        → Step s t
    receiver_turn :
        (round : Receiver.Round) (r : Receiver.Receiver) (out : List Action × Receiver.Outcome)
        → s.receiver ≡ Receiver.running r
        → ReceiverTurn s round r
        → Receiver.step z round r ≡ some out
        → t ≡ (
            let written = s.written ++ written_by (out.0) in
            record s {
              receiver = out.1;
              written = written;
              inbound = stamped (length written) (sent_by (out.0)) ++ s.inbound;
            })
        → Step s t

  -- The states that a run from the start reaches
  pub data Reach (c : Setup) : System → Type 0 where
    here : Reach c (begin c)
    later : {s t : System} → Reach c s → Step s t → Reach c t
