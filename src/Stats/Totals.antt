-- ===== src/Stats/Totals.antt =====
-- What the counters of src/lib/stats/stat.c add up to: what was sent, and what was answered.
use linfo1341_project.Common.{
  ℕ, ◌+◌, ◌%◌, ◌^◌, ◌≡◌, refl, ◌∙◌, Bool, true, false, arith, if◌then◌else◌,
}
use linfo1341_project.Stats.{
  Logger, write_in_file, remove_logger, add_data_sent, add_data_received,
  add_data_truncated_received, add_ack_sent, add_ack_received, add_nack_sent, add_nack_received,
  add_packet_ignored, add_packet_duplicated, add_packet_retransmitted, new_rtt,
}

-- `after` counts `sent` data packets and `answered` acknowledgements more than `l`.
pub record Adds (sent answered : ℕ) (l after : Logger) : Type 0 where
  pub active : after.activated ≡ 1
  pub role : after.is_sender ≡ l.is_sender
  pub data_total :
      (after.data_sent + after.packet_retransmitted) % 2 ^ 32
      ≡ (l.data_sent + l.packet_retransmitted + sent) % 2 ^ 32
  pub answer_total :
      (after.ack_sent + after.nack_sent) % 2 ^ 32 ≡ (l.ack_sent + l.nack_sent + answered) % 2 ^ 32

pub Adds-append :
    (m n i j : ℕ) {l k after : Logger}
    → Adds m i l k
    → Adds n j k after
    → Adds (m + n) (i + j) l after
Adds-append m n i j a b = record {
  active = b.active;
  role = b.role ∙ a.role;
  data_total = omega (arith, a.data_total, b.data_total);
  answer_total = omega (arith, a.answer_total, b.answer_total);
}

pub after-Adds : {n : ℕ} {l k after : Logger} → Adds 0 0 l k → Adds 0 n k after → Adds 0 n l after
after-Adds a b = record {
  active = b.active;
  role = b.role ∙ a.role;
  data_total = omega (arith, a.data_total, b.data_total);
  answer_total = omega (arith, a.answer_total, b.answer_total);
}

pub if-Adds :
    (test : Bool) {m n : ℕ} {l yes_logger no_logger : Logger}
    → Adds m n l yes_logger
    → Adds m n l no_logger
    → Adds m n l (if test then yes_logger else no_logger)
if-Adds true a b = a
if-Adds false a b = b

module _ (l : Logger) (c : l.activated ≡ 1) where
  pub remove_logger-active : remove_logger l ≡ write_in_file l
  unfolding remove_logger
  remove_logger-active = rw c refl

  pub same-Adds : Adds 0 0 l l
  same-Adds = record {
    active = c;
    role = refl;
    data_total = omega arith;
    answer_total = omega arith;
  }

  pub add_data_sent-Adds : Adds 1 0 l (add_data_sent l)
  unfolding add_data_sent
  add_data_sent-Adds = ground (arith, c)

  pub add_packet_retransmitted-Adds : l.is_sender ≡ 1 → Adds 1 0 l (add_packet_retransmitted l)
  unfolding add_packet_retransmitted
  add_packet_retransmitted-Adds s = ground (arith, c, s)

  pub add_ack_sent-Adds : Adds 0 1 l (add_ack_sent l)
  unfolding add_ack_sent
  add_ack_sent-Adds = ground (arith, c)

  pub add_nack_sent-Adds : Adds 0 1 l (add_nack_sent l)
  unfolding add_nack_sent
  add_nack_sent-Adds = ground (arith, c)

  pub add_data_received-Adds : Adds 0 0 l (add_data_received l)
  unfolding add_data_received
  add_data_received-Adds = ground (arith, c)

  pub add_data_truncated_received-Adds : Adds 0 0 l (add_data_truncated_received l)
  unfolding add_data_truncated_received
  add_data_truncated_received-Adds = ground (arith, c)

  pub add_ack_received-Adds : Adds 0 0 l (add_ack_received l)
  unfolding add_ack_received
  add_ack_received-Adds = ground (arith, c)

  pub add_nack_received-Adds : Adds 0 0 l (add_nack_received l)
  unfolding add_nack_received
  add_nack_received-Adds = ground (arith, c)

  pub add_packet_ignored-Adds : Adds 0 0 l (add_packet_ignored l)
  unfolding add_packet_ignored
  add_packet_ignored-Adds = ground (arith, c)

  pub add_packet_duplicated-Adds : Adds 0 0 l (add_packet_duplicated l)
  unfolding add_packet_duplicated
  add_packet_duplicated-Adds = ground (arith, c)

  pub new_rtt-Adds : (rtt : ℕ) → Adds 0 0 l (new_rtt l rtt)
  unfolding new_rtt
  new_rtt-Adds rtt = ground (arith, c)
