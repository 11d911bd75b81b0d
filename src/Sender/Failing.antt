-- ===== src/Sender/Failing.antt =====
-- A whole round of src/lib/send_data/read_write_loop_sender.c, in which `poll` and `send` may fail too.
use linfo1341_project.Common.{
  ℕ, ◌+◌, ◌-◌, ◌^◌, ◌≤◌, ◌<◌, ◌≡◌, ◌≢◌, refl, true, false, inl, inr, List, [], ◌∷◌, arith, ◌==◌,
  Returns, returns, Returns-map,
}
use native.Mathlib.Decide.{dec_lt, ℕ_discrete}
use linfo1341_project.Segment.{Zlib, IsPkt}
use linfo1341_project.Stats.{int_lt}
use linfo1341_project.Sender.{Sender, Round, Outcome, returned, poll_error, send_error}
use linfo1341_project.Sender.Loop.{step}
use linfo1341_project.Sender.Window.{on_input-Handed}
use linfo1341_project.Sender.Kept.{IsData, Ready}
use linfo1341_project.Sender.Answer.{Hears}
use linfo1341_project.Sender.Closing.{Steps}
use linfo1341_project.Sender.Whole.{Offers, chunks_read, step-Steps_if}
use linfo1341_project.Sender.Fresh.{open_when}

module _ (chunk : ℕ → List ℕ) (z : Zlib) (round : Round) (base high : ℕ) where
  -- `poll` failed, or `send` of the chunk read, or the round took its course.
  pub data Outcomes (next : ℕ) (s : Sender) (out : List (List ℕ) × Outcome) : Type 0 where
    unpolled :
        round.pollresp ≡ 2 ^ 32 - 1 → out ≡ ([], returned poll_error []) → Outcomes next s out
    unsent :
        (bytes : List ℕ)
        → round.pollresp ≢ 2 ^ 32 - 1
        → 2 ^ 31 ≤ round.send_result
        → chunks_read chunk z round s ≡ 1
        → IsData chunk z next bytes
        → out ≡ (bytes ∷ [], returned send_error [])
        → Outcomes next s out
    took_course :
        round.pollresp ≢ 2 ^ 32 - 1
        → (chunks_read chunk z round s ≡ 1 → round.send_result < 2 ^ 31)
        → Steps chunk z base high (next + chunks_read chunk z round s) out
        → Outcomes next s out

  send_fails :
      (next : ℕ) (s : Sender)
      → Ready chunk z base base next s
      → round.pollresp ≢ 2 ^ 32 - 1
      → Offers chunk next round
      → chunks_read chunk z round s ≡ 1
      → 2 ^ 31 ≤ round.send_result
      → round.send_result < 2 ^ 32
      → Returns (Outcomes next s) (step z round s)
  unfolding step
  send_fails next s r polled f one failed word =
      let test : (round.pollresp == 2 ^ 32 - 1) ≡ false = ground arith in
      let no_end : int_lt round.send_result 0 ≡ true = ground arith in
      let is_open = open_when chunk z round base next s r one in
      let ready : round.input_ready ≡ true = ground (arith, is_open) in
      let place : s.pkt_in_window < s.sending_window_size = ground (arith, is_open) in
      elim (f.input ready) [
        | inl ended ↦
            let none_read : chunks_read chunk z round s ≡ 0 = ground (arith, is_open, ended) in
            absurd (omega arith)
        | inr reads ↦
            let p =
              on_input-Handed chunk z round r.base r.xs s r.sending f.block_ok (rw r.total reads)
                ready place in
            rw (test, p.at, no_end)
              (returns (
                unsent _ polled failed one
                  (record {
                    pkt = p.pkt;
                    carries = rw (← r.total) p.carries;
                    coherent = p.coherent_ok;
                    at = refl;
                  })
                  refl))
      ]

  -- A round of the sender from its invariant, with well-formed blocks of packets, in which the
  -- input gives the next chunk, of 1 to 512 bytes, or its end, and the socket, if it is ready,
  -- any 528 bytes of which an acknowledgement tells of chunks below `high` only, returns without
  -- a fault, whatever the packet that arrives and the results of `poll` and `send`: if `poll`
  -- fails, the loop returns with nothing sent; if a chunk is read and its `send` fails, it
  -- returns with the datagram of that chunk as the only one handed to `send`; otherwise it goes
  -- on with its invariant kept, having sent only chunks that were read and were not acknowledged
  -- before the round, or it ends with the packet without payload behind these, when every chunk
  -- read is acknowledged.
  pub step-Outcomes :
      (next : ℕ) (s : Sender)
      → base ≤ high
      → IsPkt round.close_block
      → (round.socket_ready ≡ true → Hears chunk z round base high)
      → Ready chunk z base base next s
      → Offers chunk next round
      → round.send_result < 2 ^ 32
      → Returns (Outcomes next s) (step z round s)
  unfolding step
  step-Outcomes next s up close_ok hears r f word = elim (ℕ_discrete round.pollresp (2 ^ 32 - 1)) [
    | yes broken ↦
        let test : (round.pollresp == 2 ^ 32 - 1) ≡ true = ground arith in
        rw test (returns (unpolled broken refl))
    | no polled ↦ elim (dec_lt round.send_result (2 ^ 31)) [
      | yes sends ↦
          Returns-map
            (step-Steps_if chunk z round base high up close_ok hears next s r polled f
              (λ one. sends))
            λ out k. took_course polled (λ one. sends) k
      | no fails ↦ elim (ℕ_discrete (chunks_read chunk z round s) 1) [
        | yes one ↦ send_fails next s r polled f one (omega arith) word
        | no none_read ↦
            let unasked : chunks_read chunk z round s ≡ 1 → round.send_result < 2 ^ 31 =
              λ one. absurd (none_read one) in
            Returns-map
              (step-Steps_if chunk z round base high up close_ok hears next s r polled f unasked)
              λ out k. took_course polled unasked k
      ]
    ]
  ]
