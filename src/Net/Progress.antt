-- ===== src/Net/Progress.antt =====
-- A chunk that src/lib/send_data/read_write_loop_sender.c has read is on the link until
-- src/lib/send_data/read_write_loop_server.c has written it.
use linfo1341_project.Common.{
  ℕ, zero, suc, ◌+◌, ◌-◌, ◌^◌, Option, none, replicate, append-nil, Returns-at, ◌≤◌, ◌<◌, ◌≡◌, refl,
  sym, ap, subst, ◌∙◌, some, List, [], ◌∷◌, ◌++◌, arith, length, length-append, get_elem?,
  get_elem?-append-tail, Returns-inv,
}
use native.Mathlib.Decide.{dec_lt}
use linfo1341_project.Segment.{Zlib}
use linfo1341_project.Sender
use linfo1341_project.Sender.Loop
use linfo1341_project.Sender.Kept.{IsData, Ready}
use linfo1341_project.Sender.Whole.{chunks_read}
use linfo1341_project.Sender.Fresh.{room-read, step-SendsFirst}
use linfo1341_project.Receiver
use linfo1341_project.Segment.Wire.{wire}
use linfo1341_project.Receiver.{written_by, Action, sent}
use linfo1341_project.Receiver.Stream.{deliveries}
use linfo1341_project.Receiver.Deliver.{Receiving, Advanced}
use linfo1341_project.Receiver.Step.{Arrives, step_advances}
use linfo1341_project.Receiver.Any.{Passes, Allocates}
use linfo1341_project.Net.{
  Datagram, System, Setup, begin, SenderTurn, ReceiverTurn, Succeeds, intact, Step, sender_turn,
  receiver_turn, Reach, here, later, stamped,
}
use linfo1341_project.Net.Sound.{
  chunks, below-cut, written_by-deliveries, cut, cut-below, Carries-same, sending, ended, receiving,
  closed, IsSound,
}
use linfo1341_project.Net.Delivery.{Reach-IsSound}

-- A round that writes nothing
pub silent-Succeeds :
    (round : Receiver.Round) (o : Receiver.Outcome) (x : Option (List Action × Receiver.Outcome))
    (out : List Action × Receiver.Outcome)
    → x ≡ some ([], o)
    → x ≡ some out
    → round.send_result < 2 ^ 31
    → Succeeds round (out.0)
unfolding written_by
silent-Succeeds round o x out nothing e sends =
    let same : ([], o) ≡ out = cc (nothing, e) in
    rw (← same) (record { whole = λ k bytes at. cc at; sends = sends })

module _ (chunk : ℕ → List ℕ) (z : Zlib) where
  -- A datagram with chunk `m` is among these, and is not old.
  pub record OnLink (history : List Datagram) (m : ℕ) : Type 0 where
    pub place : ℕ
    pub datagram : Datagram
    pub at : get_elem? history place ≡ some datagram
    pub carried : IsData chunk z m datagram.bytes
    pub alive : m ≤ datagram.sent_at + 30

  OnLink-later :
      (new history : List Datagram) (m : ℕ) → OnLink history m → OnLink (new ++ history) m
  OnLink-later new history m l = record {
    place = length new + l.place;
    datagram = l.datagram;
    at = get_elem?-append-tail new history l.place ∙ l.at;
    carried = l.carried;
    alive = l.alive;
  }

  abbrev AllOnLink : System → Type 0
  AllOnLink s = (m : ℕ) → length s.written ≤ m → m < s.total_read → OnLink s.outbound m

  sends-AllOnLink :
      (s : System) (round : Sender.Round) (a : Sender.Sender) (base : ℕ)
      (out : List (List ℕ) × Sender.Outcome)
      → Ready chunk z base base s.total_read a
      → base ≤ length s.written
      → (turn : SenderTurn chunk z s round) → Sender.Loop.step z round a ≡ some out
      → AllOnLink s
      → (m : ℕ) → length s.written ≤ m
      → m < s.total_read + chunks_read chunk z round a
      → OnLink (stamped (length s.written) (out.0) ++ s.outbound) m
  sends-AllOnLink s round a base out r from turn ran link m low high =
      elim (dec_lt m s.total_read) [
        | yes old ↦ OnLink-later (stamped (length s.written) (out.0)) s.outbound m (link m low old)
        | no new ↦
            let one : chunks_read chunk z round a ≡ 1 = ground arith in
            let here_now : m ≡ s.total_read = omega arith in
            let first =
              step-SendsFirst chunk z round base s.total_read a r out turn.polled turn.feeds one
                ran in
            let room = room-read chunk z round base s.total_read a r one in
            record {
              place = 0;
              datagram = record { bytes = first.bytes; sent_at = length s.written };
              at = rw first.at refl;
              carried = rw here_now first.carried;
              alive = omega arith;
            }
      ]

  Step-AllOnLink : {s t : System} → Step chunk z s t → IsSound chunk z s → AllOnLink s → AllOnLink t
  Step-AllOnLink {s} (sender_turn round a out e turn ran t_is) sound link = elim sound.sender_side [
    | ended file f all old ↦ cc (e, f)
    | sending b base f r from old ↦
        let same : b ≡ a = cc (e, f) in
        let ready : Ready chunk z base base s.total_read a =
          subst (Ready chunk z base base s.total_read) same r in
        rw t_is (sends-AllOnLink s round a base out ready from turn ran link)
  ]
  Step-AllOnLink {s} (receiver_turn round r out e turn ran t_is) sound link =
      rw t_is
        λ m low high. link m (omega (arith, length-append s.written (written_by (out.0)))) high

  begin-AllOnLink : (c : Setup) → AllOnLink (begin c)
  unfolding begin
  begin-AllOnLink c m low high = absurd (omega arith)

  pub Reach-AllOnLink :
      (c : Setup) (nulls : c.window ≡ replicate 31 none) (s : System)
      → Reach chunk z c s
      → AllOnLink s
  Reach-AllOnLink c nulls _ here = begin-AllOnLink c
  Reach-AllOnLink c nulls _ (later r step) =
      Step-AllOnLink step (Reach-IsSound chunk z c nulls _ r) (Reach-AllOnLink c nulls _ r)

  written_by-some :
      (n count : ℕ) (s : ℕ → List ℕ) (rest : List Action)
      → 0 < length (written_by (deliveries s n (suc count) ++ rest))
  unfolding written_by deliveries
  written_by-some n count s rest = omega arith

  -- What `write` gives back when it takes the whole chunk, which is not empty.
  abbrev pub taken : ℕ → ℕ
  taken m = suc (length (chunk m) - 1)

  -- The round in which a datagram arrives whole, and the calls succeed.
  abbrev pub hands_over : Receiver.Round → System → Datagram → Receiver.Round
  hands_over calls s d = record calls {
    is_running = 1;
    revents = 1;
    nb = length d.bytes;
    data_buffer = d.bytes ++ [];
    write_result = λ k. taken (length s.written + k);
    send_result = 10;
  }

  pub Passes-hands_over :
      (calls : Receiver.Round) (s : System) (d : Datagram)
      → Allocates calls
      → Passes (hands_over calls s d)
  Passes-hands_over calls s d w = record {
    ack_ok = w.ack_ok;
    sends = omega arith;
    writes = λ k. omega arith;
    fresh = w.fresh;
    slot = w.slot;
    slot_room = w.slot_room;
  }

  taken-OnLink : (s : System) (m : ℕ) → OnLink s.outbound m → taken m ≡ length (chunk m)
  taken-OnLink s m l = omega (arith, l.carried.carries.some_bytes)

  get_elem?-chunks :
      (n count k : ℕ) (bytes : List ℕ)
      → get_elem? (chunks chunk n count) k ≡ some bytes
      → (k < count) × (bytes ≡ chunk (n + k))
  unfolding chunks
  get_elem?-chunks n zero k bytes e = cc e
  get_elem?-chunks n (suc count) zero bytes e =
      let same : n + 0 ≡ n = omega arith in (omega arith, rw same (cc e))
  get_elem?-chunks n (suc count) (suc k) bytes e =
      let (small, at) = get_elem?-chunks (n + 1) count k bytes e in
      let same : n + 1 + k ≡ n + suc k = omega arith in (omega arith, (rw same at at))

  -- The chunks that are written are taken whole.
  Advanced-Succeeds :
      (s : System) (calls : Receiver.Round) (d : Datagram) (out : List Action × Receiver.Outcome)
      → AllOnLink s
      → Advanced (cut s.total_read chunk) z (length s.written) out
      → Succeeds (hands_over calls s d) (out.0)
  unfolding written_by
  Advanced-Succeeds s calls d out link a =
      let n = length s.written in
      let stream = cut s.total_read chunk in
      let top : n + a.count < s.total_read = below-cut chunk s.total_read (n + a.count) a.last in
      let all : written_by (out.0) ≡ chunks chunk n (suc a.count) = rw a.actions (
        written_by-deliveries chunk s.total_read n (suc a.count) (sent (wire z a.ack) ∷ [])
          (omega arith)
        ∙ append-nil (chunks chunk n (suc a.count))) in
      record {
        whole = λ k bytes at.
            (let (small, same) = get_elem?-chunks n (suc a.count) k bytes (rw all at at) in
              rw same (taken-OnLink s (n + k) (link (n + k) (omega arith) (omega arith))));
        sends = omega arith;
      }

  -- The awaited datagram arrives, and its chunk is written.
  hands_over-advances :
      (s : System) (q : Receiver.Receiver) (calls : Receiver.Round) (links : AllOnLink s)
      → s.receiver ≡ Receiver.running q
      → Receiving (cut s.total_read chunk) (length s.written) q
      → length s.written < s.total_read
      → Allocates calls
      → (t : System) × Step chunk z s t
        × (length s.written < length t.written)
        × (t.sender ≡ s.sender)
        × (t.total_read ≡ s.total_read)
  hands_over-advances s q calls links e v waits works =
      let link = links (length s.written) (omega arith) waits in
      let d = link.datagram in
      let data_of = link.carried in
      let round = hands_over calls s d in
      let ok = Passes-hands_over calls s d works in
      let n = length s.written in
      let stream = cut s.total_read chunk in
      let carries =
        Carries-same chunk stream n (sym (cut-below chunk s.total_read n waits)) data_of.pkt
          data_of.carries in
      let arrives : Arrives z data_of.pkt round = record {
        polled = omega arith;
        event = omega arith;
        received = ap length data_of.at;
        rest = [];
        bytes = ap (λ b. b ++ []) data_of.at;
      } in
      let returns =
        (step_advances stream z round ok.ack_ok ok.sends ok.writes n q data_of.pkt v carries
          data_of.coherent arrives) in
      let (out, ran, a) = Returns-inv returns in
      let turn : ReceiverTurn chunk z s round q = record {
        works = ok;
        succeeds = λ o e. Advanced-Succeeds s calls d o links (Returns-at returns e);
        polled = omega arith;
        arrival = intact d (omega arith) refl (record {
          place = link.place;
          at = link.at;
          alive = omega (arith, link.alive);
          rest = [];
          bytes = refl;
        });
      } in
      let more = written_by-some n a.count stream (sent (wire z a.ack) ∷ []) in
      (
        _,
        receiver_turn round q out e turn ran refl,
        omega (arith, length-append s.written (written_by (out.0)), (rw (← a.actions) at more)),
        refl,
        refl,
      )

  -- The same step, with what it leaves alone
  pub Reach-advance :
      (c : Setup) (nulls : c.window ≡ replicate 31 none) (s : System) (q : Receiver.Receiver)
      (calls : Receiver.Round)
      → Reach chunk z c s
      → s.receiver ≡ Receiver.running q
      → length s.written < s.total_read
      → Allocates calls
      → (t : System) × Step chunk z s t
        × (length s.written < length t.written)
        × (t.sender ≡ s.sender)
        × (t.total_read ≡ s.total_read)
  Reach-advance c nulls s q calls r e waits works =
      elim (Reach-IsSound chunk z c nulls s r).receiver_side [
        | closed file stats f g ↦ cc (e, f)
        | receiving b f v ↦
            let same : b ≡ q = cc (e, f) in
            hands_over-advances s q calls (Reach-AllOnLink c nulls s r) e
              (subst (Receiving (cut s.total_read chunk) (length s.written)) same v) waits works
      ]

  -- In every state that the two loops reach on the link that Net.antt models, from a start in
  -- which `window[]` is NULL (`new_list` does not clear it) and with calls that succeed, when
  -- the receiver runs, a chunk was read and is not written, and the blocks that `malloc` gives
  -- it are well-formed, a datagram with the awaited chunk was sent when at most 30 chunks fewer
  -- than now were written, and there is a next step after which more chunks are written.
  pub Reach-advances :
      (c : Setup) (nulls : c.window ≡ replicate 31 none) (s : System) (q : Receiver.Receiver)
      (calls : Receiver.Round)
      → Reach chunk z c s
      → s.receiver ≡ Receiver.running q
      → length s.written < s.total_read
      → Allocates calls
      → OnLink s.outbound (length s.written)
        × ((t : System) × Step chunk z s t × (length s.written < length t.written))
  Reach-advances c nulls s q calls r e waits works =
      let (t, step, more, _, _) = Reach-advance c nulls s q calls r e waits works in
      (Reach-AllOnLink c nulls s r (length s.written) (omega arith) waits, (t, step, more))
