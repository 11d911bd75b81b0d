-- ===== src/Net/Sound.antt =====
-- What holds of the whole at any moment: src/lib/send_data/read_write_loop_sender.c and
-- src/lib/send_data/read_write_loop_server.c on a link.
use linfo1341_project.Common.{
  ℕ, zero, suc, ◌+◌, ◌%◌, ◌≤◌, ◌<◌, ◌≡◌, ◌⊎◌, inl, refl, sym, ap, ◌∙◌, true, List, [], ◌∷◌, ◌++◌,
  arith, ltb, if◌then◌else◌, length, All,
}
use linfo1341_project.Segment.{Pkt, Zlib}
use linfo1341_project.Segment.Wire.{wire}
use linfo1341_project.Sender
use linfo1341_project.Sender.Kept.{IsData, AllData, Ready}
use linfo1341_project.Receiver
use linfo1341_project.Receiver.{written_by, sent_by, Action, wrote, sent}
use linfo1341_project.Receiver.Stream.{Carries, IsBlock, deliveries}
use linfo1341_project.Receiver.Deliver.{Receiving}
use linfo1341_project.Receiver.Ack.{IsAck}
use linfo1341_project.Receiver.Store.{Answers, silent, acknowledges}
use linfo1341_project.Receiver.Closing.{IsClosing}
use linfo1341_project.Net.{Datagram, System, stamped}

-- The `count` chunks from `n` on
unfoldable pub chunks : (ℕ → List ℕ) → (n count : ℕ) → List (List ℕ)
chunks chunk n zero = []
chunks chunk n (suc count) = chunk n ∷ chunks chunk (n + 1) count

-- The stream as far as it was read
unfoldable pub cut : ℕ → (ℕ → List ℕ) → ℕ → List ℕ
cut total chunk n = if ltb n total then chunk n else []

module _ (chunk : ℕ → List ℕ) where
  pub chunks-append :
      (n a b : ℕ) → chunks chunk n a ++ chunks chunk (n + a) b ≡ chunks chunk n (a + b)
  unfolding chunks
  chunks-append n zero b =
      let here : n + 0 ≡ n = omega arith in
      let total : 0 + b ≡ b = omega arith in rw (here, total) refl
  chunks-append n (suc a) b =
      let shift : n + suc a ≡ n + 1 + a = omega arith in
      let total : suc a + b ≡ suc (a + b) = omega arith in
      rw (shift, total) (ap (λ rest. chunk n ∷ rest) (chunks-append (n + 1) a b))

  pub length-chunks : (n count : ℕ) → length (chunks chunk n count) ≡ count
  unfolding chunks
  length-chunks n zero = refl
  length-chunks n (suc count) = ap suc (length-chunks (n + 1) count)

  pub cut-below : (total n : ℕ) → n < total → cut total chunk n ≡ chunk n
  unfolding cut
  cut-below total n h = let test : ltb n total ≡ true = ground arith in rw test refl

  pub below-cut : (total n : ℕ) → 0 < length (cut total chunk n) → n < total
  unfolding cut
  below-cut total n h = ground arith

  pub written_by-deliveries :
      (total n count : ℕ) (rest : List Action)
      → n + count ≤ total
      → written_by (deliveries (cut total chunk) n count ++ rest)
        ≡ chunks chunk n count ++ written_by rest
  unfolding written_by deliveries chunks
  written_by-deliveries total n zero rest h = refl
  written_by-deliveries total n (suc count) rest h =
      rw
        (
          cut-below total n (omega arith),
          written_by-deliveries total (n + 1) count rest (omega arith),
        )
        refl

  pub sent_by-deliveries :
      (s : ℕ → List ℕ) (n count : ℕ) (rest : List Action)
      → sent_by (deliveries s n count ++ rest) ≡ sent_by rest
  unfolding sent_by deliveries
  sent_by-deliveries s n zero rest = refl
  sent_by-deliveries s n (suc count) rest = sent_by-deliveries s (n + 1) count rest

module _ (s t : ℕ → List ℕ) (m : ℕ) (same : s m ≡ t m) where
  pub Carries-same : (pkt : Pkt) → Carries s m pkt → Carries t m pkt
  Carries-same pkt c = record {
    is_data = c.is_data;
    whole = c.whole;
    numbered = c.numbered;
    sized = rw (← same) c.sized;
    some_bytes = rw (← same) c.some_bytes;
    fits = rw (← same) c.fits;
    array = c.array;
    bytes = rw (← same) c.bytes;
  }

  IsBlock-same : (block : _) → IsBlock s m block → IsBlock t m block
  IsBlock-same block c = record {
    numbered = c.numbered;
    sized = rw (← same) c.sized;
    some_bytes = rw (← same) c.some_bytes;
    fits = rw (← same) c.fits;
    array = c.array;
    bytes = rw (← same) c.bytes;
  }

module _ (chunk : ℕ → List ℕ) (z : Zlib) where
  -- The receiver has no chunk that was not read: more can be read.
  pub Receiving-grows :
      (total more n : ℕ) (r : Receiver.Receiver)
      → total ≤ more
      → Receiving (cut total chunk) n r
      → Receiving (cut more chunk) n r
  Receiving-grows total more n r h v = record {
    waiting = record {
      slots = v.waiting.slots;
      counted = v.waiting.counted;
      start = v.waiting.start;
      free = v.waiting.free;
      at = λ i block e.
          (let b = v.waiting.at i block e in
            let below = below-cut chunk total (n + i) b.some_bytes in
            IsBlock-same (cut total chunk) (cut more chunk) (n + i)
              (cut-below chunk total (n + i) below
                ∙ sym (cut-below chunk more (n + i) (omega arith)))
              block b);
    };
    waited = v.waited;
    ack_room = v.ack_room;
    buffer_room = v.buffer_room;
    pkt_ok = v.pkt_ok;
  }

  -- A datagram with a chunk that was read
  pub record FromChunk (total : ℕ) (d : Datagram) : Type 0 where
    pub number : ℕ
    pub below : number < total
    pub carried : IsData chunk z number d.bytes
    pub recent : d.sent_at ≤ number + 31

  -- When the sender has ended, one datagram may be the last packet.
  pub data Outbound (total : ℕ) (d : Datagram) : Type 0 where
    from_chunk : FromChunk total d → Outbound total d
    closing : (pkt : Pkt) → IsClosing total pkt → d.bytes ≡ wire z pkt → Outbound total d

  -- An acknowledgement, or a negative one, of all that was written when it was sent
  pub record AckOf (written : ℕ) (d : Datagram) : Type 0 where
    pub ack : Pkt
    pub kind : ℕ
    pub answers : (kind ≡ 2) ⊎ (kind ≡ 3)
    pub is_ack : IsAck kind (d.sent_at % 256) ack
    pub at : d.bytes ≡ wire z ack
    pub past : d.sent_at ≤ written

  pub data SenderSide (s : System) : Type 0 where
    sending :
        (a : Sender.Sender) (base : ℕ)
        → s.sender ≡ Sender.running a
        → Ready chunk z base base s.total_read a
        → base ≤ length s.written
        → All (FromChunk s.total_read) s.outbound
        → SenderSide s
    ended :
        (file : _)
        → s.sender ≡ Sender.returned Sender.terminated file
        → length s.written ≡ s.total_read
        → All (Outbound s.total_read) s.outbound
        → SenderSide s

  pub data ReceiverSide (s : System) : Type 0 where
    receiving :
        (r : Receiver.Receiver)
        → s.receiver ≡ Receiver.running r
        → Receiving (cut s.total_read chunk) (length s.written) r
        → ReceiverSide s
    closed :
        (file : _) (stats : _)
        → s.receiver ≡ Receiver.returned Receiver.disconnected file
        → s.sender ≡ Sender.returned Sender.terminated stats
        → ReceiverSide s

  -- The invariant
  pub record IsSound (s : System) : Type 0 where
    pub sender_side : SenderSide s
    pub receiver_side : ReceiverSide s
    pub in_order : s.written ≡ chunks chunk 0 (length s.written)
    pub upto : length s.written ≤ s.total_read
    pub acks : All (AckOf (length s.written)) s.inbound

  pub AllData-stamped :
      (n low total : ℕ) (xs : List (List ℕ))
      → n ≤ low + 31
      → AllData chunk z low total xs
      → All (FromChunk total) (stamped n xs)
  unfolding AllData
  AllData-stamped n low total [] h a = tt
  AllData-stamped n low total (x ∷ xs) h ((m, from, below, d), rest) = (
    record { number = m; below = below; carried = d; recent = omega arith },
    AllData-stamped n low total xs h rest,
  )

  pub Answers-stamped :
      (n : ℕ) (answer : List Action)
      → Answers z n answer
      → (written_by answer ≡ []) × All (AckOf n) (stamped n (sent_by answer))
  unfolding written_by sent_by
  Answers-stamped n answer silent = (refl, tt)
  Answers-stamped n answer (acknowledges ack a) = (
    refl,
    (
      record { ack = ack; kind = 2; answers = inl refl; is_ack = a; at = refl; past = omega arith },
      tt,
    ),
  )

  pub closing-stamped :
      (n total : ℕ) (xs : List (List ℕ)) (pkt : Pkt)
      → All (FromChunk total) (stamped n xs)
      → IsClosing total pkt
      → All (Outbound total) (stamped n (xs ++ (wire z pkt ∷ [])))
  closing-stamped n total [] pkt h c = (closing pkt c refl, tt)
  closing-stamped n total (x ∷ xs) pkt h c =
      (from_chunk (h.0), closing-stamped n total xs pkt (h.1) c)
