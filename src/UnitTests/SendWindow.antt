-- ===== src/UnitTests/SendWindow.antt =====
-- tests/send_window_test.c: six packets in the sending window, acknowledgements, and a walk over it.
use linfo1341_project.Common.{
  ℕ, zero, suc, ◌+◌, ◌%◌, Bool, Option, none, some, List, [], ◌∷◌, ◌++◌, ◌==◌, if◌then◌else◌, load,
  store, ◌>>=◌,
}
use linfo1341_project.Segment.{
  Pkt, max_window_size, pkt_new, pkt_set_seqnum, pkt_set_payload, pkt_set_timestamp, pkt_get_seqnum,
}
use linfo1341_project.Queue.{Queue, new_list, add, peek, dequeue, is_higher_or_equal, get}

-- `pkt_get_seqnum(peek(list))`
unfoldable pub first_seqnum : Queue → Option ℕ
first_seqnum list = do first ← peek list; pkt ← first; some (pkt_get_seqnum pkt)

-- A new packet in the window: `size`, and the number of the oldest packet
unfoldable pub add_and_check :
    Queue → (fresh : Pkt) → (seqnum : ℕ) → (payload : List ℕ) → Option (List Bool × Queue)
add_and_check list fresh seqnum payload = do
  (_, pkt) ← pkt_set_payload (pkt_set_seqnum (pkt_new fresh) seqnum).1 payload 3
  list1 ← add list (some pkt)
  first ← first_seqnum list1
  some ((seqnum + 1 == list1.size) ∷ (0 == first) ∷ [], list1)

-- An acknowledgement of number 3: the oldest packets leave, and the next one is `i`; on fuel.
unfoldable pub ack_3 : ℕ → Queue → (i : ℕ) → Option (List Bool × (ℕ × Queue))
ack_3 zero list i = none
ack_3 (suc fuel) list i =
    let left = (do
      list1 ← dequeue list
      first ← first_seqnum list1
      (checks, end) ← ack_3 fuel list1 (i + 1)
      some ((i == first) ∷ checks, end)) in
    do covered ← is_higher_or_equal 3 list; (if covered then left else some ([], (i, list)))

-- The two asserts behind it
unfoldable pub check_left : Queue → Option (List Bool)
check_left list = do first ← first_seqnum list; some ((2 == list.size) ∷ (4 == first) ∷ [])

-- The walk over the window: every packet that it finds gets the timestamp 3; on fuel.
unfoldable pub walk : ℕ → Queue → (receive_seqnum : ℕ) → (support_int : Option ℕ) → Option Queue
walk zero list receive_seqnum support_int = none
walk (suc fuel) list receive_seqnum support_int =
    let stamp = λ (index support : ℕ). (do
      slot ← load list.window index
      pkt ← slot
      window ← store list.window index (some (pkt_set_timestamp pkt 3).1)
      walk fuel (record list { window = window }) ((receive_seqnum + 1) % max_window_size)
          (some support)) in
    do
      found ← get list receive_seqnum support_int
      elim found [ none ↦ some list | some (index, support) ↦ stamp index support ]

-- The loop that empties the window, on fuel
unfoldable pub take_out : ℕ → Queue → (i : ℕ) → Option (List Bool)
take_out zero list i = none
take_out (suc fuel) list i =
    let left = (do
      first ← first_seqnum list
      list1 ← dequeue list
      checks ← take_out fuel list1 (i + 1)
      some ((i == first) ∷ checks)) in
    do covered ← is_higher_or_equal 5 list; (if covered then left else some [])

-- `fresh` are the blocks that `malloc` hands back.
unfoldable pub test_case : (fresh : ℕ → Pkt) → Option (List Bool)
test_case fresh = do
  (checks0, list0) ← add_and_check new_list (fresh 0) 0 (b'b' ∷ b'r' ∷ b'0' ∷ 0 ∷ [])
  (checks1, list1) ← add_and_check list0 (fresh 1) 1 (b'b' ∷ b'r' ∷ b'1' ∷ 10 ∷ 0 ∷ [])
  (checks2, list2) ← add_and_check list1 (fresh 2) 2 (b'b' ∷ b'r' ∷ b'2' ∷ 10 ∷ 0 ∷ [])
  (checks3, list3) ← add_and_check list2 (fresh 3) 3 (b'b' ∷ b'r' ∷ b'3' ∷ 10 ∷ 0 ∷ [])
  (checks4, list4) ← add_and_check list3 (fresh 4) 4 (b'b' ∷ b'r' ∷ b'4' ∷ 10 ∷ 0 ∷ [])
  (checks5, list5) ← add_and_check list4 (fresh 5) 5 (b'b' ∷ b'r' ∷ b'5' ∷ 10 ∷ 0 ∷ [])
  (acked1, (i1, left1)) ← ack_3 7 list5 1
  checks6 ← check_left left1
  (acked2, (i2, left2)) ← ack_3 7 left1 i1
  checks7 ← check_left left2
  start ← first_seqnum left2
  walked ← walk 7 left2 start none
  first ← first_seqnum walked
  (acked3, (_, left3)) ← ack_3 7 walked i2
  checks8 ← check_left left3
  emptied ← take_out 7 left3 4
  some (
      checks0
      ++ checks1
      ++ checks2
      ++ checks3
      ++ checks4
      ++ checks5
      ++ acked1
      ++ checks6
      ++ acked2
      ++ checks7
      ++ (4 == first) ∷ acked3
      ++ checks8
      ++ emptied)
