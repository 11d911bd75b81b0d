-- ===== src/Sender/Whole.antt =====
-- A whole round of src/lib/send_data/read_write_loop_sender.c, on every branch.
use linfo1341_project.Common.{
  ℕ, suc, ◌+◌, ◌-◌, ◌^◌, ◌≤◌, ◌<◌, ◌≡◌, ◌≢◌, refl, true, false, ◌&&◌, Bool-cases, ◌⊎◌, inl, inr,
  Option, List, [], ◌∷◌, ◌++◌, arith, ◌==◌, ltb, if◌then◌else◌, length, length-append, Returns,
  Returns-map,
}
use linfo1341_project.Segment.{Zlib, IsPkt}
use linfo1341_project.Sender.{Sender, Round, Outcome, and_then, on_input, send_data}
use linfo1341_project.Sender.Loop.{on_socket, check_timers, close, step}
use linfo1341_project.Sender.Window.{Reads, on_input_sends}
use linfo1341_project.Sender.Kept.{AllData, Ready, Kept, stays}
use linfo1341_project.Sender.Resend.{check_timers_returns}
use linfo1341_project.Sender.Answer.{Hears, on_socket-Kept}
use linfo1341_project.Sender.Closing.{Steps, Kept-widen, and_then-Steps, close-Steps}

-- What the input gives in this round, when it is read: its end, or the next chunk.
pub record Offers (chunk : ℕ → List ℕ) (next : ℕ) (round : Round) : Type 0 where
  pub block_ok : IsPkt round.data_block
  pub input : round.input_ready ≡ true → (round.input_nb ≡ 0) ⊎ Reads chunk next round

-- The same, and `send` does not fail.
pub record Feeds (chunk : ℕ → List ℕ) (next : ℕ) (round : Round) : Type 0 where
  pub block_ok : IsPkt round.data_block
  pub sends : round.send_result < 2 ^ 31
  pub input : round.input_ready ≡ true → (round.input_nb ≡ 0) ⊎ Reads chunk next round

module _ (chunk : ℕ → List ℕ) (z : Zlib) where
  module _ (round : Round) where
    Ready-read :
        (base next : ℕ) (s : Sender)
        → Ready chunk z base base next s
        → Ready chunk z base base next
            (record s { nb = round.input_nb; payload_buffer = round.input_buffer })
    Ready-read base next s r =
        let v = r.sending in
        record {
          base = r.base;
          xs = r.xs;
          sending = record {
            holds = v.holds;
            counted = v.counted;
            open_window = v.open_window;
            room = v.room;
            numbered = v.numbered;
            in_flight = v.in_flight;
          };
          from = r.from;
          upto = r.upto;
          total = r.total;
        }

    -- The number of chunks that the round reads: the input is ready, the window has room, and it is
    -- not the end.
    abbrev pub chunks_read : Sender → ℕ
    chunks_read s =
        if round.input_ready && ltb s.pkt_in_window s.sending_window_size
        then (if round.input_nb == 0 then 0 else 1)
        else 0

    -- What the input does: the chunks read are the same, or one more.
    Input : Sender → (base next : ℕ) (o : Option (List (List ℕ) × Outcome)) → Type 0
    Input s base next o =
        ((chunks_read s ≡ 0) × Returns (Kept chunk z base base next) o)
        ⊎ ((chunks_read s ≡ 1) × Returns (Kept chunk z base base (suc next)) o)

    on_input-Input :
        (base next : ℕ) (s : Sender)
        → Ready chunk z base base next s
        → Offers chunk next round
        → (chunks_read s ≡ 1 → round.send_result < 2 ^ 31)
        → Input s base next (on_input z round s)
    unfolding Input on_input send_data AllData
    on_input-Input base next s r f sends =
        elim (Bool-cases (round.input_ready && ltb s.pkt_in_window s.sending_window_size)) [
          | inr e ↦ inl (rw e refl, rw e (stays chunk z base base next s r))
          | inl e ↦
              let open_now : s.pkt_in_window < s.sending_window_size = ground arith in
              let ready : round.input_ready ≡ true = ground arith in
              elim (f.input ready) [
                | inl z0 ↦
                    let nothing : (round.input_nb == 0) ≡ true = ground arith in
                    inl (
                      rw (e, nothing) refl,
                      rw (e, nothing) (stays chunk z base base next _ (Ready-read base next s r)),
                    )
                | inr reads ↦
                    let some_read : (round.input_nb == 0) ≡ false =
                      ground (arith, reads.sized, reads.some_bytes) in
                    let one : chunks_read s ≡ 1 = rw (e, some_read) refl in
                    inr (
                      one,
                      Returns-map
                          (on_input_sends chunk z round r.base r.xs s r.sending f.block_ok
                            (rw r.total reads) ready open_now (sends one))
                          λ out p. record {
                            after = p.after;
                            goes_on = p.goes_on;
                            ready = record {
                              base = r.base;
                              xs = r.xs ++ p.pkt ∷ [];
                              sending = p.sending;
                              from = r.from;
                              upto = r.upto;
                              total = omega (arith, r.total, length-append r.xs (p.pkt ∷ []));
                            };
                            sent = rw p.sends (
                              (
                                r.base + length r.xs,
                                omega (arith, r.from),
                                omega (arith, r.total),
                                record {
                                  pkt = p.pkt;
                                  carries = p.carries;
                                  coherent = p.coherent_ok;
                                  at = refl;
                                },
                              ),
                              tt,
                            );
                          },
                    )
              ]
        ]

    module _ (base high : ℕ) (up : base ≤ high) (close_ok : IsPkt round.close_block)
        (hears : round.socket_ready ≡ true → Hears chunk z round base high) where
      after_input :
          (next : ℕ) (s : Sender)
          → Returns (Kept chunk z base base next) (on_input z round s)
          → Returns (Steps chunk z base high next) (
              and_then (on_input z round s) (λ a.
                and_then
                  (on_socket z round a)
                  (λ b. and_then (check_timers z round b) (close z round))))
      after_input next s input = and_then-Steps chunk z base base high next input λ a ra.
          and_then-Steps chunk z base high high next
            (on_socket-Kept chunk z round base high next up a ra hears)
            λ b rb.
              let own : Ready chunk z rb.base rb.base next b = record {
                base = rb.base;
                xs = rb.xs;
                sending = rb.sending;
                from = omega arith;
                upto = omega arith;
                total = rb.total;
              } in
              and_then-Steps chunk z base high high next
                (Kept-widen chunk z base high rb.base next rb.from rb.upto
                  (check_timers_returns chunk z round rb.base next b own))
                λ c rc. close-Steps chunk z round base high next c rc close_ok

      -- `send` is asked for the datagram of the chunk read only.
      pub step-Steps_if :
          (next : ℕ) (s : Sender)
          → Ready chunk z base base next s
          → round.pollresp ≢ 2 ^ 32 - 1
          → Offers chunk next round
          → (chunks_read s ≡ 1 → round.send_result < 2 ^ 31)
          → Returns (Steps chunk z base high (next + chunks_read s)) (step z round s)
      unfolding step Input
      step-Steps_if next s r polled f sends =
          let test : (round.pollresp == 2 ^ 32 - 1) ≡ false = ground arith in
          elim (on_input-Input base next s r f sends) [
            | inl (count, k) ↦
                let same : next + chunks_read s ≡ next = omega (arith, count) in
                rw (test, same) (after_input next s k)
            | inr (count, k) ↦
                let more : next + chunks_read s ≡ suc next = omega (arith, count) in
                rw (test, more) (after_input (suc next) s k)
          ]

      -- A round in which no call fails
      pub step-Steps :
          (next : ℕ) (s : Sender)
          → Ready chunk z base base next s
          → round.pollresp ≢ 2 ^ 32 - 1
          → Feeds chunk next round
          → Returns (Steps chunk z base high (next + chunks_read s)) (step z round s)
      step-Steps next s r polled f =
          step-Steps_if next s r polled (record { block_ok = f.block_ok; input = f.input })
            (λ one. f.sends)
