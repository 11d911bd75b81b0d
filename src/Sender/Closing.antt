-- ===== src/Sender/Closing.antt =====
-- How the parts of a round of src/lib/send_data/read_write_loop_sender.c compose when the last may be
-- the end: the packet that closes the connection.
use linfo1341_project.Common.{
  ℕ, ◌+◌, ◌%◌, ◌≤◌, ◌≡◌, refl, sym, true, ◌&&◌, Bool-cases, inl, inr, Option, some, List, [], ◌∷◌,
  ◌++◌, arith, ◌==◌, length, length-append, length-drop, length-take, take, drop, append_assoc,
  Returns, returns, Returns-map, Returns-bind,
}
use Prim.Native.String.{String}
use linfo1341_project.Common.Memory.{read_bytes, read_bytes_in, write_bytes_in, read_bytes_next}
use linfo1341_project.Segment.{Pkt, Zlib, IsPkt, pkt_new, pkt_set_length, pkt_set_payload}
use linfo1341_project.Segment.Wire.{wire}
use linfo1341_project.Segment.EncodeWire.{encode_wire}
use linfo1341_project.Receiver.Closing.{IsClosing}
use linfo1341_project.Sender.{Sender, Round, Outcome, returned, terminated, and_then, build_pkt}
use linfo1341_project.Sender.Loop.{close}
use linfo1341_project.Sender.Window.{header, build_header_lem, length-wire_le}
use linfo1341_project.Sender.Kept.{AllData, AllData-append, Ready, Kept, stays}

module _ (chunk : ℕ → List ℕ) (z : Zlib) where
  AllData-from :
      (low base next : ℕ) (xs : List (List ℕ))
      → low ≤ base
      → AllData chunk z base next xs
      → AllData chunk z low next xs
  unfolding AllData
  AllData-from low base next [] h a = tt
  AllData-from low base next (x ∷ xs) h ((n, from, below, d), rest) =
      ((n, omega arith, below, d), AllData-from low base next xs h rest)

  pub Kept-widen :
      (low high base next : ℕ) {o : Option (List (List ℕ) × Outcome)}
      → low ≤ base
      → base ≤ high
      → Returns (Kept chunk z base base next) o
      → Returns (Kept chunk z low high next) o
  Kept-widen low high base next from upto k = Returns-map k λ out l. record {
    after = l.after;
    goes_on = l.goes_on;
    ready = record {
      base = l.ready.base;
      xs = l.ready.xs;
      sending = l.ready.sending;
      from = omega (arith, l.ready.from);
      upto = omega (arith, l.ready.upto);
      total = l.ready.total;
    };
    sent = AllData-from low base next (out.0) from l.sent;
  }

  -- The sender ends: everything that was read is acknowledged.
  pub record Closes (low high next : ℕ) (out : List (List ℕ) × Outcome) : Type 0 where
    pub file : List (String × ℕ)
    pub ended : out.1 ≡ returned terminated file
    pub earlier : List (List ℕ)
    pub pkt : Pkt
    pub sends : out.0 ≡ earlier ++ (wire z pkt ∷ [])
    pub sent : AllData chunk z low next earlier
    pub closing : IsClosing next pkt
    pub acked : next ≤ high

  pub data Steps (low high next : ℕ) (out : List (List ℕ) × Outcome) : Type 0 where
    goes : Kept chunk z low high next out → Steps low high next out
    ends : Closes low high next out → Steps low high next out

  pub and_then-Steps :
      (low mid high next : ℕ) {first : Option (List (List ℕ) × Outcome)}
      {rest : Sender → Option (List (List ℕ) × Outcome)}
      → Returns (Kept chunk z low mid next) first
      → ((s : Sender) → Ready chunk z low mid next s → Returns (Steps low high next) (rest s))
      → Returns (Steps low high next) (and_then first rest)
  and_then-Steps low mid high next (returns k) then_steps = rw k.goes_on (
      Returns-bind (then_steps k.after k.ready) λ out l. returns (elim l [
        | goes g ↦ goes (record {
          after = g.after;
          goes_on = g.goes_on;
          ready = g.ready;
          sent = AllData-append chunk z low next _ (out.0) k.sent g.sent;
        })
        | ends e ↦ ends (record {
          file = e.file;
          ended = e.ended;
          pkt = e.pkt;
          closing = e.closing;
          acked = e.acked;
          earlier = _ ++ e.earlier;
          sends = rw e.sends (sym (append_assoc _ e.earlier (wire z e.pkt ∷ [])));
          sent = AllData-append chunk z low next _ e.earlier k.sent e.sent;
        })
      ]))

  module _ (round : Round) where
    -- The empty packet is built, whatever the buffer of the payload holds.
    built-IsClosing :
        (next window_size seqnum timestamp : ℕ) (payload : List ℕ)
        → IsPkt round.close_block
        → window_size ≤ 31
        → seqnum ≡ next % 256
        → (pkt : Pkt) × (build_pkt round.close_block window_size seqnum 0 payload timestamp
            ≡ some pkt)
          × IsClosing next pkt
    unfolding build_pkt pkt_set_payload pkt_set_length
    built-IsClosing next window_size seqnum timestamp payload v w e =
        let block = round.close_block in
        let read : read_bytes payload 0 0 ≡ some [] = read_bytes_in payload 0 0 (omega arith) in
        let write = write_bytes_in block.payload 0 [] (omega arith) in
        let pkt : Pkt = record (header chunk block window_size seqnum 0 timestamp) {
          payload = take 0 block.payload ++ drop (0 + 0) block.payload;
        } in
        (
          pkt,
          rw (
            build_header_lem chunk block window_size seqnum 0 timestamp v w (omega arith),
            read,
            write,
          ),
          record {
            coherent = record {
              pkt_fits = record {
                type_fits = omega arith;
                tr_fits = omega arith;
                window_fits = omega arith;
                length_fits = omega arith;
                seqnum_fits = omega arith;
                timestamp_fits = omega arith;
                payload_size = omega (
                  arith,
                  length-append (take 0 block.payload) (drop (0 + 0) block.payload),
                  length-take 0 block.payload,
                  length-drop (0 + 0) block.payload,
                  v.payload_size,
                );
              };
              plain = inl refl;
            };
            is_data = refl;
            whole = refl;
            empty = refl;
            numbered = omega (arith, e);
          },
        )

    -- With an empty window and nothing read, the sender ends.
    pub close-Closes :
        (low high next : ℕ) (s : Sender)
        → Ready chunk z low high next s
        → IsPkt round.close_block
        → s.nb ≡ 0
        → s.pkt_in_window ≡ 0
        → Returns (Closes low high next) (close z round s)
    unfolding close pkt_new AllData
    close-Closes low high next s r v over empty_window =
        let e : (s.nb == 0 && s.pkt_in_window == 0) ≡ true = ground arith in
        let empty : length r.xs ≡ 0 = omega (arith, r.sending.counted) in
        let (pkt, is_built, closing) =
          built-IsClosing next s.sending_window_size s.seqnum round.close_time s.payload_buffer v
            r.sending.open_window (omega (arith, r.sending.numbered, r.total)) in
        let bytes =
          read_bytes_next [] (wire z pkt) (drop (length (wire z pkt)) s.pkt_buffer) 0
            (length (wire z pkt)) refl refl in
        rw
          (
            e,
            is_built,
            encode_wire z pkt closing.coherent s.pkt_buffer 528
                (length-wire_le chunk z pkt closing.coherent) (omega arith)
                (omega (arith, r.sending.room)),
            bytes,
          )
          (returns (record {
            file = _;
            ended = refl;
            earlier = [];
            pkt = pkt;
            sends = refl;
            sent = tt;
            closing = closing;
            acked = omega (arith, r.total, r.upto);
          }))

    pub close-Steps :
        (low high next : ℕ) (s : Sender)
        → Ready chunk z low high next s
        → IsPkt round.close_block
        → Returns (Steps low high next) (close z round s)
    unfolding close
    close-Steps low high next s r v = elim (Bool-cases (s.nb == 0 && s.pkt_in_window == 0)) [
      | inr e ↦ rw e (Returns-map (stays chunk z low high next s r) λ out k. goes k)
      | inl e ↦
          Returns-map (close-Closes low high next s r v (ground arith) (ground arith))
            λ out c. ends c
    ]
