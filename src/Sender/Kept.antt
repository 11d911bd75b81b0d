-- ===== src/Sender/Kept.antt =====
-- What every part of a round of src/lib/send_data/read_write_loop_sender.c keeps, and how the parts
-- compose.
use linfo1341_project.Common.{
  ℕ, zero, suc, ◌+◌, ◌%◌, ◌^◌, ◌≤◌, ◌<◌, ◌≡◌, refl, ap, ◌∙◌, Option, some, List, [], ◌∷◌, ◌++◌,
  arith, length, length-append, length-drop, length-set, get_elem?, get_elem?_out, set, drop, subst,
  Returns, returns, Returns-bind, Returns-map,
}
use native.Mathlib.Decide.{dec_lt}
use linfo1341_project.Common.Memory.{read_bytes_next}
use linfo1341_project.Segment.{Pkt, Zlib, pkt_set_timestamp}
use linfo1341_project.Segment.Wire.{wire, IsCoherent}
use linfo1341_project.Segment.EncodeWire.{encode_wire}
use linfo1341_project.Queue.Update.{updated, updated-Holds}
use linfo1341_project.Stats.{Logger, add_packet_retransmitted}
use linfo1341_project.Receiver.Stream.{Carries}
use linfo1341_project.Common.{store_in}
use linfo1341_project.Sender.{Sender, Round, Outcome, running, and_then, resend}
use linfo1341_project.Sender.Window.{InFlight, Sending, length-wire_le}

module _ (chunk : ℕ → List ℕ) (z : Zlib) where
  -- A datagram with chunk `n`
  pub record IsData (n : ℕ) (bytes : List ℕ) : Type 0 where
    pub pkt : Pkt
    pub carries : Carries chunk n pkt
    pub coherent : IsCoherent pkt
    pub at : bytes ≡ wire z pkt

  -- Every datagram has a chunk from `low` on and below `next`.
  unfoldable pub AllData : (low next : ℕ) → List (List ℕ) → Type 0
  AllData low next [] = Unit {0}
  AllData low next (bytes ∷ rest) =
      ((n : ℕ) × (low ≤ n) × (n < next) × IsData n bytes) × AllData low next rest

  pub AllData-append :
      (low next : ℕ) (xs ys : List (List ℕ))
      → AllData low next xs
      → AllData low next ys
      → AllData low next (xs ++ ys)
  unfolding AllData
  AllData-append low next [] ys h k = k
  AllData-append low next (x ∷ xs) ys h k = (h.0, AllData-append low next xs ys h.1 k)

  -- The chunks below `next` were read, and those below a number from `low` to `high` are
  -- acknowledged.
  pub record Ready (low high next : ℕ) (s : Sender) : Type 0 where
    pub base : ℕ
    pub xs : List Pkt
    pub sending : Sending chunk base xs s
    pub from : low ≤ base
    pub upto : base ≤ high
    pub total : base + length xs ≡ next

  pub record Kept (low high next : ℕ) (out : List (List ℕ) × Outcome) : Type 0 where
    pub after : Sender
    pub goes_on : out.1 ≡ running after
    pub ready : Ready low high next after
    pub sent : AllData low next (out.0)

  pub stays :
      (low high next : ℕ) (s : Sender)
      → Ready low high next s
      → Returns (Kept low high next) (some ([], running s))
  unfolding AllData
  stays low high next s r = returns (record { after = s; goes_on = refl; ready = r; sent = tt })

  pub and_then-Kept :
      (low high next : ℕ) {first : Option (List (List ℕ) × Outcome)}
      {rest : Sender → Option (List (List ℕ) × Outcome)}
      → Returns (Kept low high next) first
      → ((s : Sender) → Ready low high next s → Returns (Kept low high next) (rest s))
      → Returns (Kept low high next) (and_then first rest)
  and_then-Kept low high next (returns k) then_kept = rw k.goes_on (
      Returns-bind (then_kept k.after k.ready) λ out l. returns (record {
        after = l.after;
        goes_on = l.goes_on;
        ready = l.ready;
        sent = AllData-append low next _ (out.0) k.sent l.sent;
      }))

  -- The invariant does not read the counters, nor `nb`.
  pub Ready-with :
      (low high next : ℕ) (s : Sender) (nb size : ℕ) (logger : Logger)
      → Ready low high next s
      → size ≤ 31
      → Ready low high next (record s { nb = nb; sending_window_size = size; logger = logger })
  Ready-with low high next s nb size logger r small = record {
    base = r.base;
    xs = r.xs;
    sending = record {
      holds = r.sending.holds;
      counted = r.sending.counted;
      open_window = small;
      room = r.sending.room;
      numbered = r.sending.numbered;
      in_flight = r.sending.in_flight;
    };
    from = r.from;
    upto = r.upto;
    total = r.total;
  }

  pub InFlight-at :
      (base k : ℕ) (xs : List Pkt) (x : Pkt)
      → InFlight chunk base xs
      → get_elem? xs k ≡ some x
      → Carries chunk (base + k) x × IsCoherent x
  unfolding InFlight
  InFlight-at base k [] x h e = cc
  InFlight-at base zero (y ∷ ys) x h e =
      let same : base + 0 ≡ base = omega arith in
      let is_y : y ≡ x = cc e in
      rw same (subst (λ p. Carries chunk base p × IsCoherent p) is_y (h.0, h.1))
  InFlight-at base (suc k) (y ∷ ys) x h e =
      let next : base + suc k ≡ base + 1 + k = omega arith in
      rw next (InFlight-at (base + 1) k ys x (h.2) e)

  pub InFlight-set :
      (base k : ℕ) (xs : List Pkt) (new : Pkt)
      → InFlight chunk base xs
      → Carries chunk (base + k) new
      → IsCoherent new
      → InFlight chunk base (set xs k new)
  unfolding InFlight
  InFlight-set base k [] new h c s = h
  InFlight-set base zero (y ∷ ys) new h c s =
      let same : base + 0 ≡ base = omega arith in (rw same at c, s, h.2)
  InFlight-set base (suc k) (y ∷ ys) new h c s =
      let next : base + suc k ≡ base + 1 + k = omega arith in
      (h.0, h.1, InFlight-set (base + 1) k ys new (h.2) (rw next at c) s)

  inside_of : (k : ℕ) (xs : List Pkt) (x : Pkt) → get_elem? xs k ≡ some x → k < length xs
  inside_of k xs x e = elim (dec_lt k (length xs)) [
    | yes h ↦ h
    | no h ↦ cc (e, get_elem?_out xs k (omega arith))
  ]

  -- One datagram goes out, with chunk `n`.
  pub record Resent (low high next n : ℕ) (out : List (List ℕ) × Outcome) : Type 0 where
    pub kept : Kept low high next out
    pub bytes : List ℕ
    pub carried : IsData n bytes
    pub sends : out.0 ≡ bytes ∷ []

  -- Packet `k` of the window goes out again, with a new timestamp and the same chunk.
  pub resend-Resent :
      (round : Round) (low high next : ℕ) (s : Sender) (r : Ready low high next s) (k : ℕ) (x : Pkt)
      (time : ℕ)
      → k < 31
      → get_elem? r.xs k ≡ some x
      → Returns
          (Resent low high next (r.base + k))
          (resend z round ((s.window.ptr_pop + k) % 31) time s)
  unfolding resend pkt_set_timestamp AllData
  resend-Resent round low high next s r k x time small e =
      let v = r.sending in
      let (c, ok) = InFlight-at r.base k r.xs x v.in_flight e in
      let new : Pkt = record x { timestamp = time % 2 ^ 32 } in
      let carries : Carries chunk (r.base + k) new = record {
        is_data = c.is_data;
        whole = c.whole;
        numbered = c.numbered;
        sized = c.sized;
        some_bytes = c.some_bytes;
        fits = c.fits;
        array = c.array;
        bytes = c.bytes;
      } in
      let f = ok.pkt_fits in
      let coherent : IsCoherent new = record {
        pkt_fits = record {
          type_fits = f.type_fits;
          tr_fits = f.tr_fits;
          window_fits = f.window_fits;
          length_fits = f.length_fits;
          seqnum_fits = f.seqnum_fits;
          timestamp_fits = omega arith;
          payload_size = f.payload_size;
        };
        plain = ok.plain;
      } in
      let inside = inside_of k r.xs x e in
      let size = length-wire_le chunk z new coherent in
      let slot = v.holds.at k small ∙ ap some e in
      let stored =
        store_in s.window.window ((s.window.ptr_pop + k) % 31) (some new)
          (omega (arith, v.holds.slots)) in
      let bytes =
        read_bytes_next [] (wire z new) (drop (length (wire z new)) s.pkt_buffer) 0
          (length (wire z new)) refl refl in
      rw
        (
          slot,
          stored,
          encode_wire z new coherent s.pkt_buffer 528 size (omega arith) (omega (arith, v.room)),
          bytes,
        )
        (returns (record {
          kept = record {
            after = record s {
              window = updated s.window r.xs v.holds k new inside;
              pkt_buffer = wire z new ++ drop (length (wire z new)) s.pkt_buffer;
              logger = add_packet_retransmitted s.logger;
            };
            goes_on = refl;
            ready = record {
              base = r.base;
              xs = set r.xs k new;
              sending = record {
                holds = updated-Holds s.window r.xs v.holds k new inside;
                counted = omega (arith, v.counted, length-set r.xs k new);
                open_window = v.open_window;
                room = omega (
                  arith,
                  length-append (wire z new) (drop (length (wire z new)) s.pkt_buffer),
                  length-drop (length (wire z new)) s.pkt_buffer,
                  v.room,
                );
                numbered = rw (length-set r.xs k new) v.numbered;
                in_flight = InFlight-set r.base k r.xs new v.in_flight carries coherent;
              };
              from = r.from;
              upto = r.upto;
              total = rw (length-set r.xs k new) r.total;
            };
            sent = (
              (
                r.base + k,
                omega (arith, r.from),
                omega (arith, r.total),
                record { pkt = new; carries = carries; coherent = coherent; at = refl },
              ),
              tt,
            );
          };
          bytes = wire z new;
          carried = record { pkt = new; carries = carries; coherent = coherent; at = refl };
          sends = refl;
        }))

  pub resend-Kept :
      (round : Round) (low high next : ℕ) (s : Sender) (r : Ready low high next s) (k : ℕ) (x : Pkt)
      (time : ℕ)
      → k < 31
      → get_elem? r.xs k ≡ some x
      → Returns (Kept low high next) (resend z round ((s.window.ptr_pop + k) % 31) time s)
  resend-Kept round low high next s r k x time small e =
      Returns-map (resend-Resent round low high next s r k x time small e) λ out p. p.kept
