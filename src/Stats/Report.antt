-- ===== src/Stats/Report.antt =====
-- The round trip times of src/lib/stats/stat.c.
use linfo1341_project.Common.{
  ℕ, zero, suc, ◌^◌, ◌≤◌, ◌<◌, ◌≡◌, refl, subst, true, some, List, [], ◌∷◌, arith, get_elem?,
}
use linfo1341_project.Stats.{Logger, new_logger, new_rtt}

-- The times of a run, one after the other
unfoldable pub new_rtts : Logger → List ℕ → Logger
new_rtts l [] = l
new_rtts l (rtt ∷ rtts) = new_rtts (new_rtt l rtt) rtts

-- The logger of a sender that writes statistics. The extremes are not negative.
pub record IsMeasuring (l : Logger) : Type 0 where
  pub active : l.activated ≡ 1
  pub sender : l.is_sender ≡ 1
  pub min_fits : l.min_rtt < 2 ^ 31
  pub max_fits : l.max_rtt < 2 ^ 31

pub record Bounds (l after : Logger) (rtts : List ℕ) : Type 0 where
  pub measuring : IsMeasuring after
  pub lower : after.min_rtt ≤ l.min_rtt
  pub higher : l.max_rtt ≤ after.max_rtt
  pub within :
      (i rtt : ℕ) → get_elem? rtts i ≡ some rtt → (after.min_rtt ≤ rtt) × (rtt ≤ after.max_rtt)

-- Each time is within the extremes once it is counted, and the extremes only widen.
new_rtt_lem :
    (l : Logger) (rtt : ℕ) → IsMeasuring l → rtt < 2 ^ 31 → Bounds l (new_rtt l rtt) (rtt ∷ [])
unfolding new_rtt
new_rtt_lem l rtt m small =
    let here : ((new_rtt l rtt).min_rtt ≤ rtt) × (rtt ≤ (new_rtt l rtt).max_rtt) = (
      ground (arith, m.active, m.sender, m.min_fits, m.max_fits),
      ground (arith, m.active, m.sender, m.min_fits, m.max_fits),
    ) in
    record {
      measuring = record {
        active = ground (arith, m.active, m.sender);
        sender = ground (arith, m.active, m.sender);
        min_fits = ground (arith, m.active, m.sender, m.min_fits, m.max_fits);
        max_fits = ground (arith, m.active, m.sender, m.min_fits, m.max_fits);
      };
      lower = ground (arith, m.active, m.sender, m.min_fits, m.max_fits);
      higher = ground (arith, m.active, m.sender, m.min_fits, m.max_fits);
      within = elim [
        | zero ↦ λ r e.
            (let same : rtt ≡ r = cc e in
              subst (λ n. ((new_rtt l rtt).min_rtt ≤ n) × (n ≤ (new_rtt l rtt).max_rtt)) same here)
        | suc i ↦ λ r e. cc e
      ];
    }

-- When the logger of a sender counts a run of round trip times below 2^31, each of them is
-- between the least and the greatest time that the logger keeps at the end, and these extremes
-- only widen.
pub new_rtts_within :
    (l : Logger) (rtts : List ℕ)
    → IsMeasuring l
    → ((i rtt : ℕ) → get_elem? rtts i ≡ some rtt → rtt < 2 ^ 31)
    → Bounds l (new_rtts l rtts) rtts
unfolding new_rtts
new_rtts_within l [] m small = record {
  measuring = m;
  lower = omega arith;
  higher = omega arith;
  within = λ i rtt e. cc e;
}
new_rtts_within l (rtt ∷ rtts) m small =
    let one = new_rtt_lem l rtt m (small 0 rtt refl) in
    let rest = new_rtts_within (new_rtt l rtt) rtts one.measuring (λ i r e. small (suc i) r e) in
    record {
      measuring = rest.measuring;
      lower = omega (arith, one.lower, rest.lower);
      higher = omega (arith, one.higher, rest.higher);
      within = elim [
        | zero ↦ λ r e.
            (let b = one.within 0 r e in (omega (arith, rest.lower), omega (arith, rest.higher)))
        | suc i ↦ λ r e. rest.within i r e
      ];
    }

-- A new logger of a sender with a file measures.
pub new_logger-IsMeasuring : (fresh : Logger) → IsMeasuring (new_logger 1 true fresh)
unfolding new_logger
new_logger-IsMeasuring fresh = record {
  active = refl;
  sender = refl;
  min_fits = omega arith;
  max_fits = omega arith;
}
