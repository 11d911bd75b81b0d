-- ===== src/Sender/Finish.antt =====
-- How src/lib/send_data/read_write_loop_sender.c ends once everything is acknowledged: the rounds in
-- which the last acknowledgement arrives, and in which the input is at its end.
use Prim.Native.String.{String}
use linfo1341_project.Common.{
  ℕ, ◌+◌, ◌%◌, ◌≡◌, refl, ap, subst, ◌∙◌, true, false, ◌&&◌, Bool-cases, ◌⊎◌, inl, inr, Option,
  some, List, [], ◌∷◌, ◌++◌, arith, ◌==◌, ltb, length, length-append, replicate, Returns, returns,
  Returns-inv, Returns-map, Returns-bind,
}
use linfo1341_project.Segment.{Pkt, pkt_ok, Zlib, IsPkt, pkt_new, pkt_get_type, pkt_get_tr}
use linfo1341_project.Segment.Wire.{wire}
use linfo1341_project.Segment.Decode.{pkt_decode}
use linfo1341_project.Segment.DecodeWire.{decoded, decode_coherent}
use linfo1341_project.Queue.Refine.{peek_refines}
use linfo1341_project.Receiver.Ack.{IsAck, length-wire_ack}
use linfo1341_project.Sender.{
  Sender, Round, Outcome, running, returned, terminated, and_then, before, on_input, send_data,
  on_ack,
}
use linfo1341_project.Sender.Loop.{on_packet, on_decoded, on_socket, check_timers, close, step}
use linfo1341_project.Sender.Window.{Sending}
use linfo1341_project.Sender.Kept.{Ready}
use linfo1341_project.Sender.Acked.{remaining, on_ack_removes}
use linfo1341_project.Sender.Cumulative.{length-remaining}
use linfo1341_project.Sender.Closing.{close-Closes}

silent_then :
    {P : List (List ℕ) × Outcome → Type 0} {first : Option (List (List ℕ) × Outcome)}
    (rest : Sender → Option (List (List ℕ) × Outcome)) (s : Sender)
    → first ≡ some ([], running s)
    → Returns P (rest s)
    → Returns P (and_then first rest)
silent_then rest s e r = rw e (Returns-bind r λ out h. returns h)

nothing_left : (xs : List Pkt) → length xs ≡ 0 → xs ≡ []
nothing_left [] e = refl
nothing_left (x ∷ xs) e = absurd (omega arith)

-- The sender has ended.
abbrev pub Ended : List (List ℕ) × Outcome → Type 0
Ended out = (file : List (String × ℕ)) × (out.1 ≡ returned terminated file)

-- The round in which `bytes` arrive, and nothing else
abbrev pub hearing : Round → List ℕ → Round
hearing calls bytes = record calls {
  pollresp = 1;
  input_ready = false;
  socket_ready = true;
  socket_nb = 10;
  socket_buffer = bytes ++ replicate 518 0;
  send_result = 0;
}

-- The round in which the input is at its end
abbrev pub ending : Round → Round
ending calls = record calls {
  pollresp = 1;
  input_ready = true;
  input_nb = 0;
  socket_ready = false;
  send_result = 0;
}

-- The parts of a round behind the timers, the socket and the input
module _ (z : Zlib) (round : Round) where
  abbrev behind_socket : Sender → Option (List (List ℕ) × Outcome)
  behind_socket b = and_then (check_timers z round b) (close z round)

  abbrev behind_input : Sender → Option (List (List ℕ) × Outcome)
  behind_input a = and_then (on_socket z round a) behind_socket

module _ (chunk : ℕ → List ℕ) (z : Zlib) (calls : Round) (close_ok : IsPkt calls.close_block)
    (total : ℕ) where
  -- All is acknowledged, and the window is open.
  pub record Emptied (s : Sender) : Type 0 where
    pub sending : Sending chunk total [] s
    pub open_window : s.sending_window_size ≡ 31

  -- The sender has ended, or nothing is in flight.
  abbrev pub LeftNothing : List (List ℕ) × Outcome → Type 0
  LeftNothing out = Ended out ⊎ ((b : Sender) × (out.1 ≡ running b) × Emptied b)

  own : (s : Sender) → Sending chunk total [] s → Ready chunk z total total total s
  own s v = record {
    base = total;
    xs = [];
    sending = v;
    from = omega arith;
    upto = omega arith;
    total = omega arith;
  }

  idle_timers :
      (round : Round) (s : Sender)
      → Sending chunk total [] s
      → check_timers z round s ≡ some ([], running s)
  unfolding check_timers
  idle_timers round s v = rw (peek_refines s.window [] v.holds) refl

  -- From here the end of the input is the end of the sender.
  pub ending-Ended : (s : Sender) → Emptied s → Returns Ended (step z (ending calls) s)
  unfolding step on_input send_data on_socket
  ending-Ended s v =
      let w = v.sending in
      let r : Sender = record s { nb = 0; payload_buffer = calls.input_buffer } in
      let kept : Sending chunk total [] r = record {
        holds = w.holds;
        counted = w.counted;
        open_window = w.open_window;
        room = w.room;
        numbered = w.numbered;
        in_flight = w.in_flight;
      } in
      let reads : ltb s.pkt_in_window s.sending_window_size ≡ true =
        ground (arith, v.open_window, w.counted) in
      let nothing : on_input z (ending calls) s ≡ some ([], running r) = rw reads refl in
      let round = ending calls in
      silent_then (behind_input z round) r nothing (
        silent_then (behind_socket z round) r refl (
          silent_then (close z round) r (idle_timers (ending calls) r kept) (
            Returns-map
              (close-Closes chunk z (ending calls) total total total r (own r kept) close_ok refl
                kept.counted)
              λ out c. (c.file, c.ended))))

  module _ (ack : Pkt) (is_ack : IsAck 2 (total % 256) ack)
      (block_ok : IsPkt calls.socket_block) where
    abbrev round : Round
    round = hearing calls (wire z ack)

    abbrev heard : Pkt
    heard = decoded z ack calls.socket_block

    heard-is_ack :
        (heard.tr ≡ 0) × (heard.type ≡ 2) × (heard.seqnum ≡ total % 256) × (heard.window ≡ 31)
    heard-is_ack = ground (
      arith, is_ack.kind, is_ack.numbered, is_ack.open_window, is_ack.no_payload,
      is_ack.not_truncated,
    )

    came : pkt_decode z round.socket_buffer 12 round.socket_block ≡ some (pkt_ok, heard)
    came =
        let ten = length-wire_ack z 2 (total % 256) ack is_ack (inl refl) in
        decode_coherent z ack is_ack.coherent calls.socket_block block_ok (replicate 518 0) 12
          (omega arith) (omega arith)

    on_socket-hears :
        (s : Sender)
        → on_socket z round s
          ≡ on_ack z round heard (record s { nb = 10; pkt_buffer = wire z ack ++ replicate 518 0 })
    unfolding on_socket on_decoded on_packet pkt_get_type pkt_get_tr pkt_new
    on_socket-hears s =
        let (whole, kind, _, _) = heard-is_ack in
        let not_truncated : (heard.tr == 1) ≡ false = ground (arith, whole) in
        let no_data : (heard.type == 1) ≡ false = ground (arith, kind) in
        let is_two : (heard.type == 2) ≡ true = ground (arith, kind) in
        rw (came, not_truncated, no_data, is_two) refl

    close-Emptied : (s : Sender) → Emptied s → Returns LeftNothing (close z round s)
    unfolding close
    close-Emptied s v = elim (Bool-cases (s.nb == 0 && s.pkt_in_window == 0)) [
      | inl e ↦
          Returns-map
            (close-Closes chunk z round total total total s (own s v.sending) close_ok
              (ground arith) (ground arith))
            λ out c. inl (c.file, c.ended)
      | inr e ↦ rw e (returns (inr (s, refl, v)))
    ]

    pub hearing-Empties :
        (base : ℕ) (xs : List Pkt) (s : Sender)
        → Sending chunk base xs s
        → base + length xs ≡ total
        → Returns LeftNothing (step z round s)
    unfolding step on_input
    hearing-Empties base xs s v all =
        let t : Sender = record s { nb = 10; pkt_buffer = wire z ack ++ replicate 518 0 } in
        let u : Sending chunk base xs t = record {
          holds = v.holds;
          counted = v.counted;
          open_window = v.open_window;
          room = omega (
            arith,
            length-append (wire z ack) (replicate 518 0),
            length-wire_ack z 2 (total % 256) ack is_ack (inl refl),
          );
          numbered = v.numbered;
          in_flight = v.in_flight;
        } in
        let (_, _, number, wide) = heard-is_ack in
        let (out, ran, a) =
          Returns-inv (on_ack_removes chunk z round base xs t heard u (omega (arith, wide))) in
        let left : length (remaining (before heard.seqnum) xs) ≡ 0 = rw number (
          omega (
            arith,
            length-remaining chunk total base xs v.in_flight (omega arith) (omega arith)
                (omega (arith, v.holds.bounded)),
          )) in
        let answered : on_socket z round s ≡ some ([], running a.after) =
          on_socket-hears s ∙ ran ∙ ap some a.does in
        let empty : Emptied a.after = record {
          sending =
              subst (λ n. Sending chunk n [] a.after) (omega (arith, a.adds_up))
                (subst (λ ys. Sending chunk (base + a.gone) ys a.after)
                  (nothing_left (remaining (before heard.seqnum) xs) left) a.sending);
          open_window = a.window_size ∙ wide;
        } in
        silent_then (behind_input z round) s refl (
          silent_then (behind_socket z round) a.after answered (
            silent_then (close z round) a.after (idle_timers round a.after empty.sending)
              (close-Emptied a.after empty)))
