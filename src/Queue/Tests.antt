-- ===== src/Queue/Tests.antt =====
-- Runs of src/lib/queue/queue.c on small windows.
use linfo1341_project.Common.{inr, ◌≡◌, false, none, some, [], ◌∷◌, arith}
use linfo1341_project.Segment.{pkt_get_seqnum}
use linfo1341_project.Segment.Samples.{hello, dirty}
use linfo1341_project.Queue.{Queue, add, dequeue, is_higher_or_equal, higher, get}
use linfo1341_project.Queue.Model.{Holds, covers, position_from}
use linfo1341_project.Queue.Samples.{one, one-Holds}
use linfo1341_project.Queue.Order.{higher-near}
use linfo1341_project.Queue.Refine.{add_refines, dequeue_refines, is_higher_or_equal_refines}
use linfo1341_project.Queue.Get.{get_refines}

add_refines_example :
    (list' : Queue) × (add one (some dirty) ≡ some list') × Holds list' (hello ∷ dirty ∷ [])
add_refines_example = add_refines one (hello ∷ []) one-Holds dirty (omega arith)

dequeue_refines_example : (list' : Queue) × (dequeue one ≡ some list') × Holds list' []
dequeue_refines_example = dequeue_refines one hello [] one-Holds

is_higher_or_equal_refines_example : is_higher_or_equal 0x7c one ≡ some (covers 0x7c (hello ∷ []))
is_higher_or_equal_refines_example = is_higher_or_equal_refines 0x7c one (hello ∷ []) one-Holds

get_refines_example : get one 0x7b none ≡ some (some (30, 0))
unfolding position_from pkt_get_seqnum
get_refines_example = get_refines one 0x7b (hello ∷ []) one-Holds

higher-near_example : higher 250 3 ≡ false
higher-near_example = higher-near 250 3 (omega arith) (omega arith) (inr (omega arith))
