-- ===== src/Stats/Tests.antt =====
-- Runs of src/lib/stats/stat.c on a few round trip times.
use linfo1341_project.Common.{
  ℕ, zero, suc, ◌^◌, ◌<◌, ◌≡◌, true, some, List, [], ◌∷◌, arith, get_elem?,
}
use linfo1341_project.Stats.{new_logger}
use linfo1341_project.Stats.Samples.{fresh}
use linfo1341_project.Stats.Report.{new_rtts, Bounds, new_rtts_within, new_logger-IsMeasuring}

abbrev times : List ℕ
times = 30 ∷ 12 ∷ []

times-small : (i rtt : ℕ) → get_elem? times i ≡ some rtt → rtt < 2 ^ 31
times-small zero rtt e = (let same : 30 ≡ rtt = cc e in omega arith)
times-small (suc zero) rtt e = (let same : 12 ≡ rtt = cc e in omega arith)
times-small (suc (suc i)) rtt e = cc e

new_rtts_within_example :
    Bounds (new_logger 1 true fresh) (new_rtts (new_logger 1 true fresh) times) times
new_rtts_within_example =
    new_rtts_within (new_logger 1 true fresh) times (new_logger-IsMeasuring fresh) times-small
