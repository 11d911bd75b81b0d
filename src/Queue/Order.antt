-- ===== src/Queue/Order.antt =====
-- The circular order of sequence numbers in `is_higher_or_equal` of src/lib/queue/queue.c.
use linfo1341_project.Common.{
  ℕ, ◌+◌, ◌-◌, ◌%◌, ◌≤◌, ◌<◌, ◌≡◌, ◌⊎◌, inl, inr, true, false, arith, leb,
}
use linfo1341_project.Queue.{higher}

-- A sequence number that is up to 100 numbers ahead of another, round 256, is higher or equal.
pub higher-ahead :
    (seqnum ref : ℕ)
    → seqnum < 256
    → ref < 256
    → (seqnum + 256 - ref) % 256 ≤ 100
    → higher seqnum ref ≡ true
unfolding higher
higher-ahead seqnum ref hs hr d = ground arith

-- A sequence number that is 1 to 100 numbers behind another, round 256, is not higher or equal.
pub higher-behind :
    (seqnum ref : ℕ)
    → seqnum < 256
    → ref < 256
    → 156 ≤ (seqnum + 256 - ref) % 256
    → higher seqnum ref ≡ false
unfolding higher
higher-behind seqnum ref hs hr d = ground arith

-- When two sequence numbers are at most 100 apart, round 256, in one direction or the other, the
-- comparison of the sending window answers whether the first is ahead or equal: whether the
-- distance from the second to the first, round 256, is at most 100.
pub higher-near :
    (seqnum ref : ℕ)
    → seqnum < 256
    → ref < 256
    → ((seqnum + 256 - ref) % 256 ≤ 100) ⊎ (156 ≤ (seqnum + 256 - ref) % 256)
    → higher seqnum ref ≡ leb ((seqnum + 256 - ref) % 256) 100
higher-near seqnum ref hs hr (inl ahead) = rw (higher-ahead seqnum ref hs hr ahead) (ground arith)
higher-near seqnum ref hs hr (inr behind) =
    rw (higher-behind seqnum ref hs hr behind) (ground arith)
