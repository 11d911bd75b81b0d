-- ===== src/Sender/Cumulative.antt =====
-- Cumulative acknowledgements in src/lib/send_data/read_write_loop_sender.c: the number that an
-- acknowledgement of the receiver carries, modulo 256, against the chunks in flight.
use linfo1341_project.Common.{
  ℕ, ◌+◌, ◌-◌, ◌%◌, ◌≤◌, ◌<◌, ◌≡◌, true, false, List, [], ◌∷◌, arith, length,
}
use native.Mathlib.Decide.{dec_lt}
use linfo1341_project.Segment.{Pkt, pkt_get_seqnum}
use linfo1341_project.Queue.{higher}
use linfo1341_project.Queue.Order.{higher-ahead, higher-behind}
use linfo1341_project.Sender.{before}
use linfo1341_project.Sender.Window.{InFlight}
use linfo1341_project.Sender.Acked.{remaining}
use linfo1341_project.Sender.Answer.{AcksBelow}

before_lem : (k : ℕ) → before (k % 256) ≡ (k + 255) % 256
unfolding before
before_lem k = ground arith

module _ (chunk : ℕ → List ℕ) (k : ℕ) where
  -- The packet of chunk `base` is at or below the number before that of chunk `k`, or it is not.
  higher-below :
      (base : ℕ) → base < k → k ≤ base + 101 → higher (before (k % 256)) (base % 256) ≡ true
  higher-below base h near =
      rw (before_lem k)
        (higher-ahead ((k + 255) % 256) (base % 256) (omega arith) (omega arith) (omega arith))

  higher-above :
      (base : ℕ) → k ≤ base → base ≤ k + 99 → higher (before (k % 256)) (base % 256) ≡ false
  higher-above base h near =
      rw (before_lem k)
        (higher-behind ((k + 255) % 256) (base % 256) (omega arith) (omega arith) (omega arith))

  -- When at most 31 packets are in flight, from chunk `base` on, and the acknowledged chunk k is
  -- at most the one behind them and at most 99 chunks before `base`, an acknowledgement with the
  -- number of k modulo 256 leaves exactly as many packets in the window as there are chunks from
  -- k on in flight.
  pub length-remaining :
      (base : ℕ) (xs : List Pkt)
      → InFlight chunk base xs
      → base ≤ k + 99
      → k ≤ base + length xs
      → length xs ≤ 31
      → length (remaining (before (k % 256)) xs) ≡ length xs - (k - base)
  unfolding remaining InFlight pkt_get_seqnum
  length-remaining base [] h old near few = omega arith
  length-remaining base (x ∷ xs) h old near few = elim (dec_lt base k) [
    | yes p ↦
        rw (h.0.numbered, higher-below base p (omega arith))
          (omega
            (arith, length-remaining (base + 1) xs (h.2) (omega arith) (omega arith) (omega arith)))
    | no p ↦ rw (h.0.numbered, higher-above base (omega arith) old) (omega arith)
  ]

  bound :
      (base high : ℕ) (xs : List Pkt)
      → InFlight chunk base xs
      → base ≤ k + 99
      → k ≤ base + 101
      → base ≤ high
      → k ≤ high
      → base + length xs ≤ high + length (remaining (before (k % 256)) xs)
  unfolding remaining InFlight pkt_get_seqnum
  bound base high [] h old near from upto = omega arith
  bound base high (x ∷ xs) h old near from upto = elim (dec_lt base k) [
    | yes p ↦
        rw (h.0.numbered, higher-below base p near)
          (omega
            (arith, bound (base + 1) high xs (h.2) (omega arith) (omega arith) (omega arith) upto))
    | no p ↦ rw (h.0.numbered, higher-above base (omega arith) old) (omega arith)
  ]

  -- An acknowledgement of chunk `k` tells of chunks below `high` only, when `k` is at most `high` and
  -- at most 99 numbers behind the oldest packet.
  pub ack-AcksBelow :
      (base high : ℕ) (pkt : Pkt)
      → pkt.seqnum ≡ k % 256
      → base ≤ k + 99
      → k ≤ base + 101
      → base ≤ high
      → k ≤ high
      → AcksBelow chunk base high pkt
  ack-AcksBelow base high pkt e old near from upto is_ack xs h few =
      rw e (bound base high xs h old near from upto)
