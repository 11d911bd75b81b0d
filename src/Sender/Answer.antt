-- ===== src/Sender/Answer.antt =====
-- What the sender of src/lib/send_data/read_write_loop_sender.c does with what arrives on its socket.
use linfo1341_project.Common.{
  ℕ, ◌+◌, ◌/◌, ◌≤◌, ◌≡◌, refl, ap, subst, ◌∙◌, true, not, Bool-cases, inl, inr, Option, none, some,
  List, [], arith, ◌==◌, ==_iff, if◌then◌else◌, length, Returns, Returns-inv, Returns-map,
}
use linfo1341_project.Common.Memory.{IsBytes}
use linfo1341_project.Segment.{
  Pkt, PktStatusCode, pkt_ok, Zlib, IsPkt, pkt_new, pkt_get_seqnum, pkt_get_type, pkt_get_tr,
}
use linfo1341_project.Segment.Decode.{pkt_decode}
use linfo1341_project.Segment.DecodeSafety.{decode_safe}
use linfo1341_project.Queue.{first_index}
use linfo1341_project.Queue.Search.{get-Hit}
use linfo1341_project.Stats.{Logger, add_nack_received}
use linfo1341_project.Sender.{Sender, Round, Outcome, running, before, on_ack}
use linfo1341_project.Sender.Loop.{on_nack, on_packet, on_decoded, on_socket}
use linfo1341_project.Sender.Window.{InFlight}
use linfo1341_project.Sender.Acked.{remaining, on_ack_removes}
use linfo1341_project.Sender.Kept.{
  AllData, Ready, Kept, stays, and_then-Kept, Ready-with, resend-Kept,
}

-- If the packet is an acknowledgement, it acknowledges chunks below `high` only.
abbrev pub AcksBelow : (chunk : ℕ → List ℕ) (base high : ℕ) → Pkt → Type 0
AcksBelow chunk base high pkt =
    pkt.type ≡ 2
    → (xs : List Pkt) → InFlight chunk base xs
    → length xs ≤ 31
    → base + length xs ≤ high + length (remaining (before pkt.seqnum) xs)

-- What the socket gives in this round: any bytes, of which an acknowledgement tells of chunks below
-- `high` only.
pub record Hears (chunk : ℕ → List ℕ) (z : Zlib) (round : Round) (base high : ℕ) : Type 0 where
  pub block_ok : IsPkt round.socket_block
  pub room : length round.socket_buffer ≡ 528
  pub is_bytes : IsBytes round.socket_buffer
  pub acks :
      (pkt : Pkt)
      → pkt_decode z round.socket_buffer 12 round.socket_block ≡ some (pkt_ok, pkt)
      → AcksBelow chunk base high pkt

module _ (chunk : ℕ → List ℕ) (z : Zlib) (round : Round) (base high next : ℕ)
    (up : base ≤ high) where
  abbrev Goes : Option (List (List ℕ) × Outcome) → Type 0
  Goes = Returns (Kept chunk z base high next)

  widen : (s : Sender) → Ready chunk z base base next s → Ready chunk z base high next s
  widen s r = record {
    base = r.base;
    xs = r.xs;
    sending = r.sending;
    from = r.from;
    upto = omega (arith, r.upto);
    total = r.total;
  }

  -- A counter more
  counts :
      (s : Sender) (logger : Logger)
      → Ready chunk z base base next s
      → Goes (some ([], running (record s { logger = logger })))
  counts s logger r =
      stays chunk z base high next (record s { logger = logger })
        (Ready-with chunk z base high next s s.nb s.sending_window_size logger (widen s r)
          r.sending.open_window)

  on_nack-Kept :
      (s : Sender) (pkt : Pkt) → Ready chunk z base base next s → Goes (on_nack z round pkt s)
  unfolding on_nack first_index
  on_nack-Kept s pkt r =
      let number = before (pkt_get_seqnum pkt) in
      let counted = record s { logger = add_nack_received s.logger } in
      let w =
        Ready-with chunk z base high next s s.nb s.sending_window_size (add_nack_received s.logger)
          (widen s r) r.sending.open_window in
      elim (get-Hit s.window number w.xs w.sending.holds none w.sending.holds.pop_in) [
        | inl none_left ↦ rw none_left (counts s _ r)
        | inr hit ↦ rw hit.result (
            and_then-Kept chunk z base high next
              (resend-Kept chunk z round base high next counted w hit.place hit.pkt round.nack_time
                hit.inside hit.at)
              (λ t u. stays chunk z base high next _ (
                Ready-with chunk z base high next t t.nb
                  (if t.sending_window_size == 1 then 1 else t.sending_window_size / 2) t.logger u
                  (ground (arith, u.sending.open_window)))))
      ]

  on_ack-Kept :
      (s : Sender) (pkt : Pkt)
      → Ready chunk z base base next s
      → pkt.window ≤ 31
      → AcksBelow chunk base high pkt
      → pkt.type ≡ 2
      → Goes (on_ack z round pkt s)
  unfolding AllData
  on_ack-Kept s pkt r w limit is_ack =
      let same : r.base ≡ base = omega (arith, r.from, r.upto) in
      let most =
        limit is_ack r.xs (subst (λ b. InFlight chunk b r.xs) same r.sending.in_flight)
          (omega (arith, r.sending.holds.bounded)) in
      Returns-map (on_ack_removes chunk z round r.base r.xs s pkt r.sending w) λ out a. record {
        after = a.after;
        goes_on = ap (λ (p : List (List ℕ) × Outcome). p.1) a.does;
        ready = record {
          base = r.base + a.gone;
          xs = remaining (before pkt.seqnum) r.xs;
          sending = a.sending;
          from = omega arith;
          upto = omega (arith, most, a.adds_up, r.total);
          total = omega (arith, a.adds_up, r.total);
        };
        sent = rw a.does tt;
      }

  on_packet-Kept :
      (s : Sender) (pkt : Pkt)
      → Ready chunk z base base next s
      → IsPkt pkt
      → AcksBelow chunk base high pkt
      → Goes (on_packet z round pkt s)
  unfolding on_packet pkt_get_type pkt_get_tr
  on_packet-Kept s pkt r v limit = elim (Bool-cases (pkt.tr == 1)) [
    | inl t ↦ rw t (counts s _ r)
    | inr t ↦ elim (Bool-cases (pkt.type == 1)) [
      | inl d ↦ rw (t, d) (counts s _ r)
      | inr d ↦ elim (Bool-cases (pkt.type == 2)) [
        | inl a ↦
            rw (t, d, a)
              (on_ack-Kept s pkt r (omega (arith, v.window_fits)) limit ((==_iff _ _).0 a))
        | inr a ↦ elim (Bool-cases (pkt.type == 3)) [
          | inl n ↦ rw (t, d, a, n) (on_nack-Kept s pkt r)
          | inr n ↦ rw (t, d, a, n) (counts s s.logger r)
        ]
      ]
    ]
  ]

  on_decoded-Kept :
      (s : Sender) (status : PktStatusCode) (pkt : Pkt)
      → Ready chunk z base base next s
      → IsPkt pkt
      → (status ≡ pkt_ok → AcksBelow chunk base high pkt)
      → Goes (on_decoded z round status pkt s)
  unfolding on_decoded
  on_decoded-Kept s pkt_ok pkt r v limit = on_packet-Kept s pkt r v (limit refl)
  on_decoded-Kept s _ pkt r v limit = counts s _ r

  pub on_socket-Kept :
      (s : Sender)
      → Ready chunk z base base next s
      → (round.socket_ready ≡ true → Hears chunk z round base high)
      → Goes (on_socket z round s)
  unfolding on_socket pkt_new
  on_socket-Kept s r hears = elim (Bool-cases round.socket_ready) [
    | inr e ↦ rw (ap not e) (counts s s.logger r)
    | inl e ↦
        let h = hears e in
        let ((status, pkt), ran, ok) = Returns-inv (
          decode_safe z round.socket_buffer 12 round.socket_block h.is_bytes (omega (arith, h.room))
            (omega (arith, h.room)) h.block_ok) in
        let v = r.sending in
        let t : Sender = record s { nb = round.socket_nb; pkt_buffer = round.socket_buffer } in
        let u : Ready chunk z base base next t = record {
          base = r.base;
          xs = r.xs;
          sending = record {
            holds = v.holds;
            counted = v.counted;
            open_window = v.open_window;
            room = h.room;
            numbered = v.numbered;
            in_flight = v.in_flight;
          };
          from = r.from;
          upto = r.upto;
          total = r.total;
        } in
        rw (ap not e, ran)
          (on_decoded-Kept t status pkt u ok
            (λ same. h.acks pkt (ran ∙ ap (λ c. some (c, pkt)) same)))
  ]
