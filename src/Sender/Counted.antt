-- ===== src/Sender/Counted.antt =====
-- What the counters of src/lib/send_data/read_write_loop_sender.c have to say of what a part of a
-- round sends.
use linfo1341_project.Common.{
  ℕ, ◌≡◌, refl, ◌∙◌, Bool, true, false, Option, some, List, [], ◌∷◌, ◌++◌, if◌then◌else◌, length,
  length-append, faults, gives, IfReturns, IfReturns-bind,
}
use linfo1341_project.Segment.{PktStatusCode, pkt_ok}
use linfo1341_project.Stats.{Logger, write_in_file}
use linfo1341_project.Stats.Totals.{Adds, Adds-append}
use linfo1341_project.Sender.{
  Sender, Outcome, running, returned, terminated, poll_error, encode_error, send_error, and_then,
}

-- The logger writes the statistics of a sender.
pub record Counting (l : Logger) : Type 0 where
  pub active : l.activated ≡ 1
  pub is_sender : l.is_sender ≡ 1

-- What a part of a round sends is counted, also in the statistics that are written at the end.
abbrev pub Counted : Logger → List (List ℕ) × Outcome → Type 0
Counted l (sent, running s) = Adds (length sent) 0 l s.logger
Counted l (sent, returned terminated file) =
    (after : Logger) × (file ≡ write_in_file after) × Adds (length sent) 0 l after
Counted l (sent, returned _ file) = file ≡ []

pub kept : {sent : ℕ} {l after : Logger} → Counting l → Adds sent 0 l after → Counting after
kept c a = record { active = a.active; is_sender = a.role ∙ c.is_sender }

pub Counted-append :
    (l k : Logger) (sent more : List (List ℕ)) (end : Outcome)
    → Adds (length sent) 0 l k
    → Counted k (more, end)
    → Counted l (sent ++ more, end)
Counted-append l k sent more (running s) a c =
    rw (length-append sent more) (Adds-append (length sent) (length more) 0 0 a c)
Counted-append l k sent more (returned terminated file) a (after, e, c) =
    (after, e, rw (length-append sent more) (Adds-append (length sent) (length more) 0 0 a c))
Counted-append l k sent more (returned poll_error file) a c = c
Counted-append l k sent more (returned encode_error file) a c = c
Counted-append l k sent more (returned send_error file) a c = c

pub after-Counted :
    (l k : Logger) {code : Option (List (List ℕ) × Outcome)}
    → Adds 0 0 l k
    → IfReturns (Counted k) code
    → IfReturns (Counted l) code
after-Counted l k a faults = faults
after-Counted l k a (gives {a = (sent, end)} c) = gives (Counted-append l k [] sent end a c)

pub and_then-Counted :
    (l : Logger) (counting : Counting l) {first : Option (List (List ℕ) × Outcome)}
    {rest : Sender → Option (List (List ℕ) × Outcome)}
    → IfReturns (Counted l) first
    → ((s : Sender) → Counting s.logger → IfReturns (Counted s.logger) (rest s))
    → IfReturns (Counted l) (and_then first rest)
and_then-Counted l counting faults next = faults
and_then-Counted l counting (gives {a = (sent, running s)} c) next =
    IfReturns-bind (next s (kept counting c))
      λ (more, end) d. gives (Counted-append l s.logger sent more end c d)
and_then-Counted l counting (gives {a = (sent, returned e file)} c) next = gives c

pub encoded-Counted :
    (l : Logger) (status : PktStatusCode) {ok : Option (List (List ℕ) × Outcome)}
    → IfReturns (Counted l) ok
    → IfReturns (Counted l) (elim status [ pkt_ok ↦ ok | _ ↦ some ([], returned encode_error []) ])
encoded-Counted l pkt_ok c = c
encoded-Counted l _ c = gives refl

-- The packet is counted only if the `send` did not fail.
pub if_sent-Counted :
    (l : Logger) (failed : Bool) (bytes : List ℕ) (s : Sender)
    → Adds 1 0 l s.logger
    → Counted l (bytes ∷ [], (if failed then returned send_error [] else running s))
if_sent-Counted l true bytes s a = refl
if_sent-Counted l false bytes s a = a
