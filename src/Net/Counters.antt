-- ===== src/Net/Counters.antt =====
-- The statistics of src/lib/send_data/read_write_loop_sender.c and
-- src/lib/send_data/read_write_loop_server.c against what was handed to `send`.
use linfo1341_project.Common.{
  ℕ, ◌+◌, ◌%◌, ◌^◌, ◌≡◌, refl, sym, subst, true, some, ◌∙◌, List, [], ◌∷◌, ◌++◌, arith, length,
  IfReturns-at,
}
use linfo1341_project.Segment.{Zlib}
use linfo1341_project.Stats.{Logger, write_in_file, new_logger}
use linfo1341_project.Stats.Totals.{Adds}
use linfo1341_project.Sender
use linfo1341_project.Sender.Loop
use linfo1341_project.Sender.Counted.{Counting, Counted}
use linfo1341_project.Sender.Counts.{step-Counted}
use linfo1341_project.Receiver
use linfo1341_project.Receiver.{Action, sent_by}
use linfo1341_project.Receiver.Counted as Answered
use linfo1341_project.Receiver.Counts as Answers
use linfo1341_project.Net.{Datagram, System, Setup, stamped, begin}

-- A logger of the sender that counts `n` packets, new ones and repeated ones.
pub record DataCount (n : ℕ) (l : Logger) : Type 0 where
  pub counting : Counting l
  pub data_total : (l.data_sent + l.packet_retransmitted) % 2 ^ 32 ≡ n % 2 ^ 32

-- A logger of the receiver that counts `n` answers, of both kinds.
pub record AnswerCount (n : ℕ) (l : Logger) : Type 0 where
  pub active : l.activated ≡ 1
  pub answer_total : (l.ack_sent + l.nack_sent) % 2 ^ 32 ≡ n % 2 ^ 32

-- While the sender runs its logger counts `n` packets, and so does the file that it writes at the end.
abbrev pub SenderCounts : ℕ → Sender.Outcome → Type 0
SenderCounts n (Sender.running a) = DataCount n a.logger
SenderCounts n (Sender.returned Sender.terminated file) =
    (l : Logger) × (file ≡ write_in_file l) × DataCount n l
SenderCounts n (Sender.returned _ file) = file ≡ []

abbrev pub ReceiverCounts : ℕ → Receiver.Outcome → Type 0
ReceiverCounts n (Receiver.running r) = AnswerCount n r.logger
ReceiverCounts n (Receiver.returned Receiver.timeout file) =
    (l : Logger) × (file ≡ write_in_file l) × AnswerCount n l
ReceiverCounts n (Receiver.returned Receiver.disconnected file) =
    (l : Logger) × (file ≡ write_in_file l) × AnswerCount n l
ReceiverCounts n (Receiver.returned _ file) = file ≡ []

pub record Counters (s : System) : Type 0 where
  pub sent : SenderCounts (length s.outbound) s.sender
  pub answered : ReceiverCounts (length s.inbound) s.receiver

length-stamped :
    (now : ℕ) (more : List (List ℕ)) (history : List Datagram)
    → length (stamped now more ++ history) ≡ length history + length more
length-stamped now [] history = omega arith
length-stamped now (bytes ∷ more) history = omega (arith, length-stamped now more history)

DataCount-Adds :
    (n k : ℕ) (l after : Logger) → DataCount n l → Adds k 0 l after → DataCount (n + k) after
DataCount-Adds n k l after d a = record {
  counting = record { active = a.active; is_sender = a.role ∙ d.counting.is_sender };
  data_total = omega (arith, d.data_total, a.data_total);
}

AnswerCount-Adds :
    (n k : ℕ) (l after : Logger) → AnswerCount n l → Adds 0 k l after → AnswerCount (n + k) after
AnswerCount-Adds n k l after d a = record {
  active = a.active;
  answer_total = omega (arith, d.answer_total, a.answer_total);
}

SenderCounts-Counted :
    (n : ℕ) (l : Logger) (sent : List (List ℕ)) (outcome : Sender.Outcome)
    → DataCount n l
    → Counted l (sent, outcome)
    → SenderCounts (n + length sent) outcome
SenderCounts-Counted n l sent (Sender.running a) d c = DataCount-Adds n (length sent) l a.logger d c
SenderCounts-Counted n l sent (Sender.returned Sender.terminated file) d (after, e, c) =
    (after, e, DataCount-Adds n (length sent) l after d c)
SenderCounts-Counted n l sent (Sender.returned Sender.poll_error file) d c = c
SenderCounts-Counted n l sent (Sender.returned Sender.encode_error file) d c = c
SenderCounts-Counted n l sent (Sender.returned Sender.send_error file) d c = c

ReceiverCounts-CountedAs :
    (n k : ℕ) (l : Logger) (outcome : Receiver.Outcome)
    → AnswerCount n l
    → Answered.CountedAs k l outcome
    → ReceiverCounts (n + k) outcome
ReceiverCounts-CountedAs n k l (Receiver.running r) d c = AnswerCount-Adds n k l r.logger d c
ReceiverCounts-CountedAs n k l (Receiver.returned Receiver.timeout file) d (after, e, c) =
    (after, e, AnswerCount-Adds n k l after d c)
ReceiverCounts-CountedAs n k l (Receiver.returned Receiver.disconnected file) d (after, e, c) =
    (after, e, AnswerCount-Adds n k l after d c)
ReceiverCounts-CountedAs n k l (Receiver.returned Receiver.closed file) d c = c
ReceiverCounts-CountedAs n k l (Receiver.returned Receiver.write_error file) d c = c
ReceiverCounts-CountedAs n k l (Receiver.returned Receiver.send_error file) d c = c
ReceiverCounts-CountedAs n k l (Receiver.returned Receiver.add_error file) d c = c

module _ (z : Zlib) where
  -- One round of one of the two loops, whatever the calls of the round give back: `poll` may run out
  -- of time, any call may fail, and any bytes may arrive. What is read and written is not followed.
  pub data AnyStep (s t : System) : Type 0 where
    sender_takes :
        (round : Sender.Round) (a : Sender.Sender) (out : List (List ℕ) × Sender.Outcome)
        → s.sender ≡ Sender.running a
        → Sender.Loop.step z round a ≡ some out
        → t
          ≡ record s { sender = out.1; outbound = stamped (length s.written) (out.0) ++ s.outbound }
        → AnyStep s t
    receiver_takes :
        (round : Receiver.Round) (r : Receiver.Receiver) (out : List Action × Receiver.Outcome)
        → s.receiver ≡ Receiver.running r
        → Receiver.step z round r ≡ some out
        → t ≡ record s {
          receiver = out.1;
          inbound = stamped (length s.written) (sent_by (out.0)) ++ s.inbound;
        }
        → AnyStep s t

  -- The states that such rounds lead to
  pub data Occurs (c : Setup) : System → Type 0 where
    at_start : Occurs c (begin c)
    takes : {s t : System} → Occurs c s → AnyStep s t → Occurs c t

  Counters-AnyStep : (s t : System) → Counters s → AnyStep s t → Counters t
  Counters-AnyStep s t n (sender_takes round a out at e same) =
      let d : DataCount (length s.outbound) a.logger =
        subst (SenderCounts (length s.outbound)) at n.sent in
      let c = IfReturns-at (step-Counted z round a d.counting) e in
      subst Counters (sym same) (record {
        sent =
            rw (length-stamped (length s.written) (out.0) s.outbound)
              (SenderCounts-Counted (length s.outbound) a.logger (out.0) (out.1) d c);
        answered = n.answered;
      })
  Counters-AnyStep s t n (receiver_takes round r out at e same) =
      let d : AnswerCount (length s.inbound) r.logger =
        subst (ReceiverCounts (length s.inbound)) at n.answered in
      let c = IfReturns-at (Answers.step-Counted z round r d.active) e in
      subst Counters (sym same) (record {
        sent = n.sent;
        answered = rw (length-stamped _ (sent_by (out.0)) s.inbound) (
            ReceiverCounts-CountedAs (length s.inbound) (length (sent_by (out.0))) r.logger (out.1)
              d c);
      })

  -- When both programs have a file for the statistics, then after any rounds of the two loops,
  -- in any order and whatever their calls give back (`poll` running out of time, a call that
  -- fails, any bytes), modulo 2^32, the counters of packets sent and sent again of the running
  -- sender add up to the number of datagrams that it ever handed to `send`, and the counters of
  -- acknowledgements and negative acknowledgements of the running receiver to the number of
  -- those that it ever handed to `send`; the statistics that are written when the sender
  -- terminates, or when the receiver has waited too long or is disconnected, hold these totals
  -- too, and in every other ending none are written.
  pub Occurs-Counters :
      (c : Setup)
      → c.sender_has_file ≡ true
      → c.receiver_has_file ≡ true
      → (s : System) → Occurs c s
      → Counters s
  unfolding begin Sender.start Receiver.start new_logger
  Occurs-Counters c sender_file receiver_file _ at_start = record {
    sent =
        rw sender_file
          (record { counting = record { active = refl; is_sender = refl }; data_total = refl });
    answered = rw receiver_file (record { active = refl; answer_total = refl });
  }
  Occurs-Counters c sender_file receiver_file s (takes r step) =
      Counters-AnyStep _ s (Occurs-Counters c sender_file receiver_file _ r) step
