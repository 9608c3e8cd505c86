-- ===== src/Queue/RefineTests.antt =====
-- Three threads on a queue of capacity two, as the bounded list of Queue/Spec.
use market_data_parser.Common.{◌^◌, ◌≡◌, refl, true, some, [], ◌∷◌, arith}
use market_data_parser.Queue.{step, compare_positions, construct, store_numbers, index}
use market_data_parser.Queue.Threads.{note, Reach, later, call_dequeue, events}
use market_data_parser.Queue.Spec.{
  new_buffer, Run, enqueue_call, enqueue_return, dequeue_call, dequeue_return,
}
use market_data_parser.Queue.View.{view}
use market_data_parser.Queue.Holders.{IsHeld, Reach-IsHeld}
use market_data_parser.Queue.Moving.{Moved}
use market_data_parser.Queue.Refines.{Step-Moved, Reach-Run}
use market_data_parser.Queue.Tests.{
  accessed, claimed, claimed-Reach, delivered, asking, asking-Reach, accessed-Step, refused,
  refused-Reach,
}

Reach-IsHeld_example : IsHeld 1 claimed
Reach-IsHeld_example = Reach-IsHeld 1 (omega arith) claimed-Reach (omega arith)

-- The dequeue of thread 1 fails, for thread 0 has put its item in and not returned.
Step-Moved_example : Moved (2 ^ 1) (view asking) (view (accessed 1 asking))
Step-Moved_example = Step-Moved 1 (omega arith) asking-Reach (omega arith) (accessed-Step 1 asking)

-- Thread 0 has put 7 in and returned, and thread 1 has taken it out and returned.
abbrev exchanged-Reach : Reach 1 12 (accessed 1 delivered)
exchanged-Reach =
    let published = later (later claimed-Reach (accessed-Step 0 _)) (accessed-Step 0 _) in
    let asked = later (later published (call_dequeue 1 refl)) (accessed-Step 1 _) in
    later (later (later (later asked (accessed-Step 1 _)) (accessed-Step 1 _)) (accessed-Step 1 _))
      (accessed-Step 1 _)

Reach-Run_example : Run (2 ^ 1) new_buffer (events exchanged-Reach) (view (accessed 1 delivered))
Reach-Run_example = Reach-Run 1 (omega arith) exchanged-Reach (omega arith)

events_of_exchanged :
    events exchanged-Reach
    ≡ enqueue_call 0 7 ∷ enqueue_return 0 true ∷ dequeue_call 1 ∷ dequeue_return 1 (some 7) ∷ []
unfolding step compare_positions construct store_numbers index note
events_of_exchanged = refl

-- Three calls, none of which has returned.
events_of_refused :
    events refused-Reach ≡ enqueue_call 0 7 ∷ enqueue_call 1 8 ∷ enqueue_call 2 9 ∷ []
unfolding step compare_positions construct store_numbers index note
events_of_refused = refl

items_of_refused : (view refused).items ≡ 7 ∷ 8 ∷ []
unfolding step compare_positions construct store_numbers index note
items_of_refused = refl
