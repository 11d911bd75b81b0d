-- ===== src/Sender/Fresh.antt =====
-- New data in a round of src/lib/send_data/read_write_loop_sender.c: the datagram of the chunk read is
-- the first that the round sends.
use linfo1341_project.Common.{
  ℕ, ◌+◌, ◌-◌, ◌^◌, ◌≤◌, ◌<◌, ◌≡◌, ◌≢◌, refl, true, false, ◌&&◌, Bool-cases, Option-cases, inl, inr,
  Option, some, List, ◌∷◌, ◌++◌, arith, ltb, ◌==◌, length, Returns, returns,
}
use linfo1341_project.Segment.{Zlib}
use linfo1341_project.Segment.Wire.{wire}
use linfo1341_project.Sender.{Sender, Round, Outcome, and_then}
use linfo1341_project.Sender.Loop.{step}
use linfo1341_project.Sender.Window.{Sent, on_input_sends}
use linfo1341_project.Sender.Kept.{IsData, Ready}
use linfo1341_project.Sender.Whole.{Feeds, chunks_read}

module _ (chunk : ℕ → List ℕ) (z : Zlib) where
  -- The first datagram has chunk `n`.
  pub record SendsFirst (n : ℕ) (out : List (List ℕ) × Outcome) : Type 0 where
    pub bytes : List ℕ
    pub carried : IsData chunk z n bytes
    pub rest : List (List ℕ)
    pub at : out.0 ≡ bytes ∷ rest

  and_then-SendsFirst :
      (n : ℕ) {first : Option (List (List ℕ) × Outcome)}
      (rest : Sender → Option (List (List ℕ) × Outcome)) (base : ℕ) (xs : _)
      (out : List (List ℕ) × Outcome)
      → base + length xs ≡ n
      → Returns (Sent chunk z base xs) first
      → and_then first rest ≡ some out
      → SendsFirst n out
  and_then-SendsFirst n rest base xs out count (returns {a} p) e =
      elim (Option-cases (rest p.after)) [
        | inl nothing ↦ cc (rw (p.goes_on, nothing) at e)
        | inr ((more, end), some_more) ↦
            let joined : a.0 ++ more ≡ wire z p.pkt ∷ more = rw p.sends refl in
            let same : some (a.0 ++ more, end) ≡ some out = (rw (p.goes_on, some_more) at e) in
            record {
              bytes = wire z p.pkt;
              carried = record {
                pkt = p.pkt;
                carries = rw (← count) p.carries;
                coherent = p.coherent_ok;
                at = refl;
              };
              rest = more;
              at = cc (same, joined);
            }
      ]

  module _ (round : Round) (base next : ℕ) (s : Sender) (r : Ready chunk z base base next s) where
    pub open_when :
        chunks_read chunk z round s ≡ 1
        → (round.input_ready && ltb s.pkt_in_window s.sending_window_size) ≡ true
    open_when one =
        elim (Bool-cases (round.input_ready && ltb s.pkt_in_window s.sending_window_size)) [
          | inl e ↦ e
          | inr e ↦
              (let none_read : chunks_read chunk z round s ≡ 0 = rw e refl in absurd (omega arith))
        ]

    some_when : chunks_read chunk z round s ≡ 1 → round.input_nb ≢ 0
    some_when one over =
        let ended : (round.input_nb == 0) ≡ true = ground arith in
        let none_read : chunks_read chunk z round s ≡ 0 = rw (open_when one, ended) refl in
        absurd (omega arith)

    -- A chunk is read only while the window has fewer than 31 packets.
    pub room-read : chunks_read chunk z round s ≡ 1 → next ≤ base + 30
    room-read one =
        ground (arith, open_when one, r.sending.open_window, r.sending.counted, r.total, r.upto)

    pub step-SendsFirst :
        (out : List (List ℕ) × Outcome)
        → round.pollresp ≢ 2 ^ 32 - 1
        → Feeds chunk next round
        → chunks_read chunk z round s ≡ 1
        → step z round s ≡ some out
        → SendsFirst next out
    unfolding step
    step-SendsFirst out polled f one e =
        let test : (round.pollresp == 2 ^ 32 - 1) ≡ false = ground arith in
        let go : (round.input_ready && ltb s.pkt_in_window s.sending_window_size) ≡ true =
          open_when one in
        let ready : round.input_ready ≡ true = ground (arith, go) in
        let open_now : s.pkt_in_window < s.sending_window_size = ground (arith, go) in
        elim (f.input ready) [
          | inl over ↦ absurd (some_when one over)
          | inr reads ↦
              and_then-SendsFirst next _ r.base r.xs out r.total
                (on_input_sends chunk z round r.base r.xs s r.sending f.block_ok (rw r.total reads)
                  ready open_now f.sends)
                (rw test at e)
        ]
