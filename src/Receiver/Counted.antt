-- ===== src/Receiver/Counted.antt =====
-- What the counters of src/lib/send_data/read_write_loop_server.c have to say of what a part of a
-- round sends.
use linfo1341_project.Common.{
  ℕ, zero, suc, ◌+◌, ◌≡◌, ◌≢◌, refl, ap, Bool, true, false, Option, some, List, [], ◌∷◌, ◌++◌, ◌==◌,
  if◌then◌else◌, ◌>>=◌, length, faults, gives, IfReturns-any, IfReturns-option, IfReturns,
  IfReturns-bind, IfReturns-if,
}
use linfo1341_project.Common.Memory.{read_bytes}
use linfo1341_project.Segment.{Pkt, PktStatusCode, pkt_ok}
use linfo1341_project.SortedList.{Pstl, SortedList, AddResult, added, duplicate, failed}
use linfo1341_project.SortedList
use linfo1341_project.Stats.{Logger, write_in_file, remove_logger, add_packet_ignored}
use linfo1341_project.Stats.Totals.{
  Adds, after-Adds, remove_logger-active, same-Adds, add_packet_ignored-Adds,
}
use linfo1341_project.Receiver.{
  Receiver, Action, wrote, sent, sent_by, timeout, closed, disconnected, write_error, send_error,
  add_error, Outcome, running, returned, Drained, DrainEnd, drained, stopped, next_block,
  drain_loop, also,
}

-- The answers that a part of a round sends are counted, also in the statistics that are written when
-- the receiver stops because nothing arrives or the sender has closed.
abbrev pub CountedAs : ℕ → Logger → Outcome → Type 0
CountedAs n l (running r) = Adds 0 n l r.logger
CountedAs n l (returned timeout file) =
    (after : Logger) × (file ≡ write_in_file after) × Adds 0 n l after
CountedAs n l (returned disconnected file) =
    (after : Logger) × (file ≡ write_in_file after) × Adds 0 n l after
CountedAs n l (returned _ file) = file ≡ []

abbrev pub Counted : Logger → List Action × Outcome → Type 0
Counted l (actions, outcome) = CountedAs (length (sent_by actions)) l outcome

pub sent_by-append :
    (actions more : List Action) → sent_by (actions ++ more) ≡ sent_by actions ++ sent_by more
unfolding sent_by
sent_by-append [] more = refl
sent_by-append (wrote bytes ∷ rest) more = sent_by-append rest more
sent_by-append (sent bytes ∷ rest) more = ap (λ rest. bytes ∷ rest) (sent_by-append rest more)

-- Writing to the output sends nothing.
abbrev pub IsQuiet : List Action × DrainEnd → Type 0
IsQuiet (actions, end) = (sent_by actions ≡ []) × (end ≢ stopped timeout)

pub also-IsQuiet :
    (bytes : List ℕ) {rest : Option (List Action × DrainEnd)}
    → IfReturns IsQuiet rest
    → IfReturns IsQuiet (also (wrote bytes) rest)
unfolding sent_by
also-IsQuiet bytes rest = IfReturns-bind rest λ (actions, end) quiet. gives quiet

pub drain_loop-IsQuiet :
    (fuel : ℕ) (write_result : ℕ → ℕ) (k : ℕ) (d : Drained)
    → IfReturns IsQuiet (drain_loop fuel write_result k d)
unfolding drain_loop sent_by
drain_loop-IsQuiet zero write_result k d = faults
drain_loop-IsQuiet (suc fuel) write_result k d =
    IfReturns-any (next_block d.list d.waited) λ (awaited, list).
      IfReturns-option awaited (gives (refl, λ e. cc e)) λ block.
        IfReturns-if (block.length == 0) (λ _. gives (refl, λ e. cc e))
          (λ _. IfReturns-any (read_bytes block.payload 0 block.length) λ bytes.
            IfReturns-any (SortedList.pop list) λ popped.
              IfReturns-if (write_result k == 0) (λ _. gives (refl, λ e. cc e))
                (λ _. also-IsQuiet bytes (drain_loop-IsQuiet fuel write_result (k + 1) _)))

pub CountedAs-append :
    (n : ℕ) (l k : Logger) (outcome : Outcome)
    → Adds 0 0 l k
    → CountedAs n k outcome
    → CountedAs n l outcome
CountedAs-append n l k (running r) a c = after-Adds a c
CountedAs-append n l k (returned timeout file) a (after, e, c) = (after, e, after-Adds a c)
CountedAs-append n l k (returned disconnected file) a (after, e, c) = (after, e, after-Adds a c)
CountedAs-append n l k (returned closed file) a c = c
CountedAs-append n l k (returned write_error file) a c = c
CountedAs-append n l k (returned send_error file) a c = c
CountedAs-append n l k (returned add_error file) a c = c

pub after-Counted :
    (l k : Logger) {code : Option (List Action × Outcome)}
    → Adds 0 0 l k
    → IfReturns (Counted k) code
    → IfReturns (Counted l) code
after-Counted l k a faults = faults
after-Counted l k a (gives {a = (actions, outcome)} c) =
    gives (CountedAs-append (length (sent_by actions)) l k outcome a c)

-- What follows the packets that were written
pub drained-Counted :
    (l : Logger) (active : l.activated ≡ 1) (bytes : List ℕ) (actions : List Action)
    → (end : DrainEnd) → IsQuiet (actions, end)
    → {fill : Drained → Option (List Action × Outcome)}
    → ((d : Drained) → IfReturns (Counted l) (fill d))
    → IfReturns (Counted l) (elim end [
      | stopped disconnected ↦ some (wrote bytes ∷ actions, returned disconnected (remove_logger l))
      | stopped e ↦ some (wrote bytes ∷ actions, returned e [])
      | drained d ↦ do (acks, outcome) ← fill d; some (wrote bytes ∷ actions ++ acks, outcome)
    ])
unfolding sent_by
drained-Counted l active bytes actions (stopped disconnected) (quiet, goes) next =
    gives (l, remove_logger-active l active, rw quiet (same-Adds l active))
drained-Counted l active bytes actions (stopped timeout) (quiet, goes) next = absurd (goes refl)
drained-Counted l active bytes actions (stopped closed) (quiet, goes) next = gives refl
drained-Counted l active bytes actions (stopped write_error) (quiet, goes) next = gives refl
drained-Counted l active bytes actions (stopped send_error) (quiet, goes) next = gives refl
drained-Counted l active bytes actions (stopped add_error) (quiet, goes) next = gives refl
drained-Counted l active bytes actions (drained d) (quiet, goes) next =
    IfReturns-bind (next d) λ (acks, outcome) c. gives (rw (sent_by-append actions acks, quiet) c)

-- The answer is counted only if the `send` did not fail.
pub if_sent-Counted :
    (l : Logger) (failed : Bool) (bytes : List ℕ) (r : Receiver)
    → Adds 0 1 l r.logger
    → Counted l (sent bytes ∷ [], (if failed then returned send_error [] else running r))
unfolding sent_by
if_sent-Counted l true bytes r a = refl
if_sent-Counted l false bytes r a = a

pub added-Counted :
    (l : Logger) (result : AddResult)
    {failed_code duplicate_code added_code : Option (List Action × Outcome)}
    → IfReturns (Counted l) failed_code
    → IfReturns (Counted l) duplicate_code
    → IfReturns (Counted l) added_code
    → IfReturns
        (Counted l)
        (elim result [ failed ↦ failed_code | duplicate ↦ duplicate_code | added ↦ added_code ])
added-Counted l failed a b c = a
added-Counted l duplicate a b c = b
added-Counted l added a b c = c

pub decoded-Counted :
    (r : Receiver) (pkt : Pkt) (active : r.logger.activated ≡ 1) (status : PktStatusCode)
    {ok : Option (List Action × Outcome)}
    → IfReturns (Counted r.logger) ok
    → IfReturns (Counted r.logger) (elim status [
      | pkt_ok ↦ ok
      | _ ↦ some ([], running (record r { pkt = pkt; logger = add_packet_ignored r.logger }))
    ])
unfolding sent_by
decoded-Counted r pkt active pkt_ok c = c
decoded-Counted r pkt active _ c = gives (add_packet_ignored-Adds r.logger active)
