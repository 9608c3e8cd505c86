-- ===== src/Queue/Tests.antt =====
-- The unit tests mpmc_queue_basic and mpmc_queue_full of test/test_parser.cpp, two threads on a queue
-- of capacity two, and the theorems on the queue at these.
use market_data_parser.Common.{
  ℕ, ◌^◌, ◌<◌, ◌≡◌, ◌↔◌, refl, true, false, none, some, List, [], ◌∷◌, ◌⊎◌, replicate, arith,
}
use market_data_parser.Common.Update.{update}
use market_data_parser.Queue.{
  MpmcQueue, Pc, admits_capacity, enq_load, deq_load, deq_done, construct, step, index, size,
  try_enqueue, try_dequeue, run, rounds, checked_enqueue, checked_dequeue, compare_positions,
  store_numbers,
}
use market_data_parser.Queue.Capacity.{admits_capacity-power}
use market_data_parser.Queue.Fifo
use market_data_parser.Queue.Calls.{
  Call, enqueue, dequeue, accepted, received, replies, fifo_replies, construct-IsQuiet,
  replies-construct, capacity_one_overwrites,
}
use market_data_parser.Queue.Threads.{
  System, is_over, note, Step, access, call_enqueue, call_dequeue, Reach, start, later, Steps, stay,
  more,
}
use market_data_parser.Queue.Progress.{run-is_over}
use market_data_parser.Queue.Answers.{checked_dequeue-deq_done}
use market_data_parser.Queue.Safety.{
  producer, held, held_slot, held_slot-exclusive, deq_release-enq_write, positions-once,
  positions-ordered,
}

abbrev million : ℕ
million = 1048576

admits_capacity-power_example :
    (admits_capacity million ≡ true) ↔ ((million ≡ 0) ⊎ ((k : ℕ) × (million ≡ 2 ^ k)))
admits_capacity-power_example = admits_capacity-power million (omega arith)

-- Zero is admitted, six is not.
admits_capacity_runs : (admits_capacity 0 ≡ true) × (admits_capacity 6 ≡ false)
unfolding admits_capacity
admits_capacity_runs = (refl, refl)

-- The storage before the constructor runs.
abbrev pub garbage : ℕ → ℕ
garbage i = 99

abbrev fresh : ℕ → MpmcQueue ℕ
fresh k = construct k garbage garbage

-- The calls of mpmc_queue_full, with a spurious failure in two of them.
abbrev calls : List (Call ℕ)
calls =
    enqueue 0 1
    ∷ enqueue 1 2
    ∷ enqueue 0 3
    ∷ enqueue 0 4
    ∷ enqueue 0 5
    ∷ dequeue 1
    ∷ enqueue 0 5
    ∷ []

calls_agree :
    fifo_replies 4 [] calls
    ≡ accepted true
      ∷ accepted true
      ∷ accepted true
      ∷ accepted true
      ∷ accepted false
      ∷ received (some 1)
      ∷ accepted true
      ∷ []
unfolding fifo_replies Fifo.push Fifo.pop
calls_agree = refl

replies-construct_example : replies 2 (fresh 2) calls ≡ some (fifo_replies (2 ^ 2) [] calls)
replies-construct_example = replies-construct 2 garbage garbage calls (omega arith) (omega arith)

-- The same calls, run step by step.
calls_run :
    replies 2 (fresh 2) calls
    ≡ some (
        accepted true
        ∷ accepted true
        ∷ accepted true
        ∷ accepted true
        ∷ accepted false
        ∷ received (some 1)
        ∷ accepted true
        ∷ [])
unfolding replies try_enqueue try_dequeue run rounds step construct store_numbers index
    compare_positions checked_enqueue checked_dequeue
calls_run = refl

capacity_one_overwrites_example :
    (q₁ : MpmcQueue ℕ) × (q₂ : MpmcQueue ℕ) × (try_enqueue 0 0 (fresh 0) 7 ≡ some (true, q₁))
    × (try_enqueue 0 1 q₁ 8 ≡ some (true, q₂))
    × (q₂.buffer 0 ≡ 8)
    × (size q₂ ≡ 2)
unfolding construct
capacity_one_overwrites_example =
    capacity_one_overwrites (fresh 0) 0 1 7 8 (construct-IsQuiet 0 garbage garbage).0 refl
      (omega arith)

-- Thread `i` makes its next access, or calls.
abbrev pub accessed : ℕ → System ℕ → System ℕ
accessed i s =
    let (q, p) = step 1 false s.queue (s.pc i) in
    record { queue = q; pc = update s.pc i p; history = note false s.queue (s.pc i) s.history }

abbrev calling : ℕ → Pc ℕ → System ℕ → System ℕ
calling i pc s = record s { pc = update s.pc i pc }

abbrev initial : System ℕ
initial = record { queue = fresh 1; pc = λ i. deq_done none; history = garbage }

-- Thread 0 has claimed position 0 for the item 7.
abbrev pub claimed : System ℕ
claimed = accessed 0 (accessed 0 (accessed 0 (calling 0 (enq_load 7) initial)))

-- Thread 0 has written and published it, and thread 1 has read it.
abbrev published : System ℕ
published = accessed 0 (accessed 0 claimed)

abbrev pub delivered : System ℕ
delivered = accessed 1 (accessed 1 (accessed 1 (accessed 1 (calling 1 deq_load published))))

abbrev pub accessed-Step : (i : ℕ) (s : System ℕ) → Step 1 s (accessed i s)
accessed-Step i s = access i false refl refl

abbrev pub claimed-Reach : Reach 1 4 claimed
claimed-Reach =
    later
      (later
        (later (later (start garbage garbage garbage) (call_enqueue 0 7 refl)) (accessed-Step 0 _))
        (accessed-Step 0 _))
      (accessed-Step 0 _)

delivered-Steps : Steps 1 claimed 7 delivered
unfolding step
delivered-Steps =
    more
      (more
        (more
          (more
            (more (more (more stay (accessed-Step 0 _)) (accessed-Step 0 _)) (call_dequeue 1 refl))
            (accessed-Step 1 _))
          (accessed-Step 1 _))
        (accessed-Step 1 _))
      (accessed-Step 1 _)

-- Thread 1 claims position 1 while thread 0 has position 0.
abbrev both : System ℕ
both = accessed 1 (accessed 1 (accessed 1 (calling 1 (enq_load 8) claimed)))

both-Steps : Steps 1 claimed 4 both
both-Steps =
    more (more (more (more stay (call_enqueue 1 8 refl)) (accessed-Step 1 _)) (accessed-Step 1 _))
      (accessed-Step 1 _)

abbrev first_thread : ℕ
first_thread = 0

abbrev seven : ℕ
seven = 7

held_slot-exclusive_example : first_thread ≡ 0
unfolding step construct compare_positions store_numbers index held_slot
held_slot-exclusive_example =
    held_slot-exclusive 1 (omega arith) claimed-Reach (omega arith) 0 0 0 refl refl

deq_release-enq_write_example : seven ≡ 7
unfolding step construct compare_positions store_numbers index
deq_release-enq_write_example =
    deq_release-enq_write 1 (omega arith) claimed-Reach delivered-Steps (omega arith) 0 1 0 7 7 refl
      refl

positions-once_example : held producer (claimed.pc 0) ≡ some 0
unfolding step construct compare_positions store_numbers index
positions-once_example =
    positions-once 1 (omega arith) claimed-Reach both-Steps (omega arith) producer 0 0 (omega arith)
      refl

positions-ordered_example : (held producer (claimed.pc 1) ≡ some 1) ⊎ (0 < 1)
unfolding step construct compare_positions store_numbers index
positions-ordered_example =
    positions-ordered 1 (omega arith) claimed-Reach both-Steps (omega arith) producer 0 1 0 1 refl
      refl

-- Thread 1 asks for an item while thread 0 has claimed position 0 and not published it.
abbrev pub asking : System ℕ
asking = accessed 1 (calling 1 deq_load claimed)

abbrev pub asking-Reach : Reach 1 6 asking
asking-Reach = later (later claimed-Reach (call_dequeue 1 refl)) (accessed-Step 1 _)

checked_dequeue-deq_done_example :
    (asking.queue.tail ≡ asking.queue.head)
    ⊎ (asking.queue.sequences (index 1 asking.queue.tail) ≡ asking.queue.tail)
unfolding step construct compare_positions store_numbers index checked_dequeue
checked_dequeue-deq_done_example =
    checked_dequeue-deq_done 1 (omega arith) asking-Reach (omega arith) 1 0 refl refl

-- Thread 1 claims the last free position, and thread 2 finds the queue full.
abbrev pub refused : System ℕ
refused = accessed 2 (calling 2 (enq_load 9) both)

abbrev both-Reach : Reach 1 8 both
both-Reach =
    later
      (later (later (later claimed-Reach (call_enqueue 1 8 refl)) (accessed-Step 1 _))
        (accessed-Step 1 _))
      (accessed-Step 1 _)

abbrev pub refused-Reach : Reach 1 10 refused
refused-Reach = later (later both-Reach (call_enqueue 2 9 refl)) (accessed-Step 2 _)

-- The consumer ends its call although the producer does not go on.
run-is_over_example : is_over (run 1 (replicate 6 false) asking.queue (asking.pc 1)).1 ≡ true
run-is_over_example = run-is_over 1 (omega arith) asking-Reach (omega arith) 1
