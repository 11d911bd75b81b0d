-- ===== src/Net/Delivery.antt =====
-- What a file transfer with src/lib/send_data/read_write_loop_sender.c and
-- src/lib/send_data/read_write_loop_server.c guarantees.
use linfo1341_project.Common.{
  ℕ, ◌+◌, ◌≤◌, ◌≡◌, ◌⊎◌, inl, inr, none, replicate, refl, subst, some, List, [], arith, length,
  Returns-at, Returns-inv,
}
use linfo1341_project.Segment.{Zlib}
use linfo1341_project.Queue.Model.{new_list-Holds}
use linfo1341_project.Sender
use linfo1341_project.Sender.Loop
use linfo1341_project.Sender.Kept.{Ready}
use linfo1341_project.Sender.Window.{InFlight}
use linfo1341_project.Sender.Whole.{chunks_read}
use linfo1341_project.Receiver
use linfo1341_project.Receiver.Deliver.{Receiving}
use linfo1341_project.Receiver.Store.{start-Receiving}
use linfo1341_project.Net.{
  System, Setup, begin, SenderTurn, ReceiverTurn, Step, sender_turn, receiver_turn, Reach, here,
  later,
}
use linfo1341_project.Net.Sound.{chunks, cut, sending, ended, receiving, closed, IsSound}
use linfo1341_project.Net.Turn.{receiver-Turned}
use linfo1341_project.Net.Run.{sender-Steps, sender_turn-IsSound}
use linfo1341_project.Net.Received.{turned-IsSound}

module _ (chunk : ℕ → List ℕ) (z : Zlib) where
  pub start-Ready :
      (c : Setup)
      → Ready chunk z 0 0 0
          (Sender.start c.payload_buffer c.pkt_buffer c.sender_has_file c.sender_logger)
  unfolding Sender.start InFlight
  start-Ready c = record {
    base = 0;
    xs = [];
    sending = record {
      holds = new_list-Holds;
      counted = refl;
      open_window = omega arith;
      room = c.pkt_room;
      numbered = refl;
      in_flight = tt;
    };
    from = omega arith;
    upto = omega arith;
    total = refl;
  }

  begin-IsSound : (c : Setup) → c.window ≡ replicate 31 none → IsSound chunk z (begin c)
  unfolding begin chunks
  begin-IsSound c nulls = record {
    sender_side = sending _ 0 refl (start-Ready c) (omega arith) tt;
    receiver_side = receiving _ refl (
        rw nulls (
          start-Receiving (cut 0 chunk) c.ack_buffer c.block c.receiver_has_file c.receiver_logger
            c.ack_room c.block_ok));
    in_order = refl;
    upto = omega arith;
    acks = tt;
  }

  Step-IsSound : {s t : System} → Step chunk z s t → IsSound chunk z s → IsSound chunk z t
  Step-IsSound {s} (sender_turn round a out e turn ran t_is) sound = elim sound.sender_side [
    | ended file f all old ↦ cc (e, f)
    | sending b base f r from old ↦
        let same : b ≡ a = cc (e, f) in
        let ready : Ready chunk z base base s.total_read a =
          subst (Ready chunk z base base s.total_read) same r in
        rw t_is (
          sender_turn-IsSound chunk z s sound round a out base e ready from old (
            Returns-at (sender-Steps chunk z s round a base ready from sound.upto sound.acks turn)
              ran))
  ]
  Step-IsSound {s} (receiver_turn round r out e turn ran t_is) sound = elim sound.receiver_side [
    | closed file stats f g ↦ cc (e, f)
    | receiving q f v ↦
        let same : q ≡ r = cc (e, f) in
        let ready : Receiving (cut s.total_read chunk) (length s.written) r =
          subst (Receiving (cut s.total_read chunk) (length s.written)) same v in
        rw t_is (
          turned-IsSound chunk z s sound r out
            (Returns-at (receiver-Turned chunk z s round r sound.sender_side ready turn) ran))
  ]

  -- Every state that is reached is sound.
  pub Reach-IsSound :
      (c : Setup)
      → c.window ≡ replicate 31 none
      → (s : System) → Reach chunk z c s
      → IsSound chunk z s
  Reach-IsSound c nulls _ here = begin-IsSound c nulls
  Reach-IsSound c nulls _ (later r step) = Step-IsSound step (Reach-IsSound c nulls _ r)

  -- In every state that the two loops reach on a link that loses, repeats, reorders, garbles and
  -- truncates datagrams (a garbled one is one that `pkt_decode` refuses, a truncated one a data
  -- packet with TR set, and a datagram is on the link for as long as at most 99 chunks are
  -- written meanwhile), if `window[]` is NULL at the start (`new_list` does not clear it, so
  -- this is up to `malloc`), the input gives the stream in chunks of 1 to 512 bytes, and the
  -- system calls of every round succeed (`write` takes the whole chunk, no `send` of new data or
  -- of an answer and no `poll` of the sender fails, the `poll` of the receiver does not time
  -- out, and the blocks of `malloc` are well-formed, with any content), the output is the stream
  -- from its first chunk on, in order and without a gap or a repetition, and no longer than what
  -- was read.
  pub Reach-in_order :
      (c : Setup) (nulls : c.window ≡ replicate 31 none) (s : System)
      → Reach chunk z c s
      → (s.written ≡ chunks chunk 0 (length s.written)) × (length s.written ≤ s.total_read)
  Reach-in_order c nulls s r = let sound = Reach-IsSound c nulls s r in (sound.in_order, sound.upto)

  -- In every state that the two loops reach on the link that Net.antt models, from a start in
  -- which `window[]` is NULL (`new_list` does not clear it) and with calls that succeed, a round
  -- of the running sender in which neither `poll` nor the `send` of new data fails, the blocks
  -- of `malloc` are well-formed, the input gives the next chunk, of 1 to 512 bytes, or its end,
  -- and the socket gives an acknowledgement, negative or not, that the receiver sent or bytes
  -- that `pkt_decode` refuses, returns without a fault to a state that is reached as well.
  pub sender-goes_on :
      (c : Setup) (nulls : c.window ≡ replicate 31 none) (s : System) (a : Sender.Sender)
      (round : Sender.Round)
      → Reach chunk z c s
      → s.sender ≡ Sender.running a
      → SenderTurn chunk z s round
      → (t : System) × Reach chunk z c t
        × (t.total_read ≡ s.total_read + chunks_read chunk z round a)
        × ((out : List (List ℕ) × Sender.Outcome) × (Sender.Loop.step z round a ≡ some out)
            × (t.sender ≡ out.1))
  sender-goes_on c nulls s a round r e turn =
      let sound = Reach-IsSound c nulls s r in
      elim sound.sender_side [
        | ended file f all old ↦ cc (e, f)
        | sending b base f q from old ↦
            let same : b ≡ a = cc (e, f) in
            let ready : Ready chunk z base base s.total_read a =
              subst (Ready chunk z base base s.total_read) same q in
            let (out, ran, _) =
              Returns-inv
                (sender-Steps chunk z s round a base ready from sound.upto sound.acks turn) in
            (_, later r (sender_turn round a out e turn ran refl), refl, (out, ran, refl))
      ]

  -- In every state that the two loops reach on the link that Net.antt models, from a start in
  -- which `window[]` is NULL (`new_list` does not clear it) and with calls that succeed, a round
  -- of the running receiver in which the system calls succeed (`write` takes the whole chunk,
  -- `send` does not fail, the blocks of `malloc` are well-formed, `poll` does not time out) and
  -- nothing arrives, or a datagram that the sender sent, a truncated data packet, or bytes that
  -- `pkt_decode` refuses, returns without a fault to a state that is reached as well: the access
  -- behind the window that a packet 31 or 32 numbers ahead causes does not happen with this
  -- sender and such a start.
  pub receiver-goes_on :
      (c : Setup) (nulls : c.window ≡ replicate 31 none) (s : System) (q : Receiver.Receiver)
      (round : Receiver.Round)
      → Reach chunk z c s
      → s.receiver ≡ Receiver.running q
      → ReceiverTurn chunk z s round q
      → (t : System) × Reach chunk z c t
        × ((out : _) × (Receiver.step z round q ≡ some out) × (t.receiver ≡ out.1))
  receiver-goes_on c nulls s q round r e turn =
      let sound = Reach-IsSound c nulls s r in
      elim sound.receiver_side [
        | closed file stats f g ↦ cc (e, f)
        | receiving b f v ↦
            let same : b ≡ q = cc (e, f) in
            let ready : Receiving (cut s.total_read chunk) (length s.written) q =
              subst (Receiving (cut s.total_read chunk) (length s.written)) same v in
            let (out, ran, _) =
              Returns-inv (receiver-Turned chunk z s round q sound.sender_side ready turn) in
            (_, later r (receiver_turn round q out e turn ran refl), (out, ran, refl))
      ]

  -- In every state that the two loops reach on the link that Net.antt models, from a start in
  -- which `window[]` is NULL (`new_list` does not clear it) and with calls that succeed, if the
  -- sender has terminated or the receiver has disconnected, then every chunk that was read from
  -- the input is in the output, in order.
  pub Reach-complete :
      (c : Setup) (nulls : c.window ≡ replicate 31 none) (s : System) (file : _)
      → Reach chunk z c s
      → (s.sender ≡ Sender.returned Sender.terminated file)
        ⊎ (s.receiver ≡ Receiver.returned Receiver.disconnected file)
      → s.written ≡ chunks chunk 0 s.total_read
  Reach-complete c nulls s file r over =
      let sound = Reach-IsSound c nulls s r in
      elim sound.sender_side [
        | ended stats f all old ↦ rw (← all) sound.in_order
        | sending a base f ready from old ↦ elim over [
          | inl g ↦ cc (f, g)
          | inr g ↦ elim sound.receiver_side [
            | receiving q h v ↦ cc (g, h)
            | closed stats stats' h k ↦ cc (f, k)
          ]
        ]
      ]
