-- ===== src/Sender/Acked.antt =====
-- Acknowledgements in src/lib/send_data/read_write_loop_sender.c.
use linfo1341_project.Common.{
  ℕ, zero, suc, ◌+◌, ◌%◌, ◌≤◌, ◌<◌, ◌≡◌, refl, sym, ◌∙◌, Bool, true, false, ◌||◌, List, [], ◌∷◌,
  arith, if◌then◌else◌, Bool-cases, inl, inr, length, Returns, returns, Returns-map, Returns-bind,
}
use linfo1341_project.Segment.{Pkt, Zlib, pkt_get_seqnum, pkt_get_window}
use linfo1341_project.Queue.{Queue, higher}
use linfo1341_project.Queue.Model.{Holds, covers}
use linfo1341_project.Queue.Refine.{dequeue_refines, is_higher_or_equal_refines}
use linfo1341_project.Sender.{Sender, Round, Outcome, running, ack_loop, before, on_ack}
use linfo1341_project.Sender.Window.{InFlight, Sending}

-- The packets left when those at or below a sequence number are removed from the front
unfoldable pub remaining : ℕ → List Pkt → List Pkt
remaining seqnum [] = []
remaining seqnum (x ∷ xs) = if higher seqnum (pkt_get_seqnum x) then remaining seqnum xs else x ∷ xs

-- The result of the loop
pub record Removed (seqnum : ℕ) (xs : List Pkt) (changed : Bool) (out : Queue × ℕ × Bool)
    : Type 0 where
  pub holds : Holds (out.0) (remaining seqnum xs)
  pub counted : out.1 ≡ length (remaining seqnum xs)
  pub noticed : out.2 ≡ (changed || covers seqnum xs)

or_true : (b : Bool) → (b || true) ≡ true
or_true true = refl
or_true false = refl

or_false : (b : Bool) → b ≡ (b || false)
or_false true = refl
or_false false = refl

-- With more fuel than packets in the window, the loop on an acknowledgement ends without a
-- fault, and removes from the front exactly the packets at or below the acknowledged number up
-- to the first that is not; it reports a change if and only if there was one before or the
-- oldest packet was removed.
pub ack_loop_lem :
    (fuel seqnum : ℕ) (window : Queue) (xs : List Pkt) (n : ℕ) (changed : Bool)
    → Holds window xs
    → n ≡ length xs
    → length xs < fuel
    → Returns (Removed seqnum xs changed) (ack_loop fuel seqnum window n changed)
unfolding ack_loop remaining
ack_loop_lem zero seqnum window xs n changed h e f = absurd (omega arith)
ack_loop_lem (suc fuel) seqnum window [] n changed h e f =
    rw (is_higher_or_equal_refines seqnum window [] h)
      (returns (record { holds = h; counted = e; noticed = or_false changed }))
ack_loop_lem (suc fuel) seqnum window (x ∷ xs) n changed h e f =
    let (left, ran, held) = dequeue_refines window x xs h in
    let one : (n + 255) % 256 ≡ length xs = omega (arith, h.bounded) in
    let ih = ack_loop_lem fuel seqnum left xs ((n + 255) % 256) true held one (omega arith) in
    elim (Bool-cases (higher seqnum (pkt_get_seqnum x))) [
      | inl c ↦
          rw (is_higher_or_equal_refines seqnum window (x ∷ xs) h, c, ran)
            (Returns-map ih λ out r. record {
              holds = rw c r.holds;
              counted = rw c r.counted;
              noticed = r.noticed ∙ sym (rw c (or_true changed));
            })
      | inr c ↦
          rw (is_higher_or_equal_refines seqnum window (x ∷ xs) h, c)
            (returns
              (record { holds = rw c h; counted = rw c e; noticed = rw c (or_false changed) }))
    ]

module _ (chunk : ℕ → List ℕ) where
  -- What is left is in flight, from a later chunk on.
  InFlight-remaining :
      (seqnum base : ℕ) (xs : List Pkt)
      → InFlight chunk base xs
      → (gone : ℕ) × (gone + length (remaining seqnum xs) ≡ length xs)
        × InFlight chunk (base + gone) (remaining seqnum xs)
  unfolding remaining InFlight
  InFlight-remaining seqnum base [] h = (0, refl, tt)
  InFlight-remaining seqnum base (x ∷ xs) h =
      let (gone, count, rest) = InFlight-remaining seqnum (base + 1) xs (h.2) in
      let next : base + 1 + gone ≡ base + suc gone = omega arith in
      let same : base + 0 ≡ base = omega arith in
      elim (Bool-cases (higher seqnum (pkt_get_seqnum x))) [
        | inl c ↦ rw c (suc gone, omega arith, rw next at rest)
        | inr c ↦ rw c (0, omega arith, rw same h)
      ]

  -- After an acknowledgement `gone` chunks more are acknowledged, and nothing was sent.
  pub record AckedTo (base : ℕ) (xs : List Pkt) (pkt : Pkt) (out : List (List ℕ) × Outcome)
      : Type 0 where
    pub after : Sender
    pub gone : ℕ
    pub does : out ≡ ([], running after)
    pub adds_up : gone + length (remaining (before pkt.seqnum) xs) ≡ length xs
    pub sending : Sending chunk (base + gone) (remaining (before pkt.seqnum) xs) after
    pub window_size : after.sending_window_size ≡ pkt.window

  module _ (z : Zlib) (round : Round) where
    -- An acknowledgement whose window field is at most 31 sends nothing and removes from the
    -- front of the sending window the packets at or below the number before the one that it
    -- carries: what is left is in flight still, from the chunk behind the removed ones on,
    -- `pktInWindow` counts it, and the sending window takes the size that the receiver
    -- advertises.
    pub on_ack_removes :
        (base : ℕ) (xs : List Pkt) (s : Sender) (pkt : Pkt)
        → Sending chunk base xs s
        → pkt.window ≤ 31
        → Returns (AckedTo base xs pkt) (on_ack z round pkt s)
    unfolding on_ack pkt_get_seqnum pkt_get_window
    on_ack_removes base xs s pkt h w =
        let (gone, count, flight) = InFlight-remaining (before pkt.seqnum) base xs h.in_flight in
        Returns-bind
          (ack_loop_lem 32 (before pkt.seqnum) s.window xs s.pkt_in_window false h.holds h.counted
            (omega (arith, h.holds.bounded)))
          λ out r. returns (record {
            after = _;
            gone = gone;
            does = refl;
            adds_up = count;
            sending = record {
              holds = r.holds;
              counted = r.counted;
              open_window = w;
              room = h.room;
              numbered = omega (arith, h.numbered);
              in_flight = flight;
            };
            window_size = refl;
          })
