-- ===== src/Queue/Alone.antt =====
-- A call that runs with no other under way, whatever compare-exchanges fail spuriously.
use market_data_parser.Common.{
  ℕ, zero, suc, ◌+◌, ◌^◌, ◌≤◌, ◌<◌, ◌≡◌, refl, ap, Bool, true, false, Option, none, some, List, [],
  ◌∷◌, arith,
}
use market_data_parser.Common.Update.{update}
use market_data_parser.Queue.{
  MpmcQueue, enq_check, enq_done, deq_check, deq_done, index, step, run, rounds, try_enqueue,
  try_dequeue, enqueued, dequeued,
}
use market_data_parser.Queue.Slots.{compare_positions_lem}
use native.Mathlib.Nat.{one-le-pow}

module _ {ℓ} {A : Type ℓ} (k : ℕ) (q : MpmcQueue A) where
  -- The queue after a call that claimed the position at its end.
  abbrev pub after_enqueue : A → MpmcQueue A
  after_enqueue x = record q {
    head = q.head + 1;
    buffer = update q.buffer (index k q.head) x;
    sequences = update q.sequences (index k q.head) (q.head + 1);
  }

  abbrev pub after_dequeue : MpmcQueue A
  after_dequeue = record q {
    tail = q.tail + 1;
    sequences = update q.sequences (index k q.tail) (q.tail + 2 ^ k);
  }

  run-enq_done : (fs : List Bool) (b : Bool) → run k fs q (enq_done b) ≡ (q, enq_done b)
  unfolding run step
  run-enq_done [] b = refl
  run-enq_done (f ∷ fs) b = run-enq_done fs b

  run-deq_done : (fs : List Bool) (o : Option A) → run k fs q (deq_done o) ≡ (q, deq_done o)
  unfolding run step
  run-deq_done [] o = refl
  run-deq_done (f ∷ fs) o = run-deq_done fs o

  run-enq_check :
      (r : ℕ) (x : A)
      → q.head < 2 ^ 63
      → q.sequences (index k q.head) ≡ q.head
      → run k (rounds r) q (enq_check x q.head) ≡ (after_enqueue x, enq_done true)
  unfolding run step rounds
  run-enq_check zero x h e =
      ground (arith, compare_positions_lem (q.sequences (index k q.head)) q.head)
  run-enq_check (suc r) x h e =
      ground
        (arith, compare_positions_lem (q.sequences (index k q.head)) q.head, run-enq_check r x h e)

  run-deq_check :
      (r : ℕ)
      → q.tail + 2 ^ k < 2 ^ 63
      → q.sequences (index k q.tail) ≡ q.tail + 1
      → run k (rounds r) q (deq_check q.tail)
        ≡ (after_dequeue, deq_done (some (q.buffer (index k q.tail))))
  unfolding run step rounds
  run-deq_check zero h e =
      ground
        (arith, one-le-pow k 2, compare_positions_lem (q.sequences (index k q.tail)) (q.tail + 1))
  run-deq_check (suc r) h e = ground (
    arith,
    one-le-pow k 2,
    compare_positions_lem (q.sequences (index k q.tail)) (q.tail + 1),
    run-deq_check r h e,
  )

  -- The slot at the end is free: the call claims it and succeeds.
  pub try_enqueue-free :
      (r : ℕ) (x : A)
      → q.head < 2 ^ 63
      → q.sequences (index k q.head) ≡ q.head
      → try_enqueue k r q x ≡ some (true, after_enqueue x)
  unfolding try_enqueue run step
  try_enqueue-free r x h e = ap enqueued (run-enq_check r x h e)

  -- The slot at the end is still taken: the call fails and changes nothing.
  pub try_enqueue-taken :
      (r : ℕ) (x : A)
      → q.head < 2 ^ 63
      → q.sequences (index k q.head) < q.head
      → try_enqueue k r q x ≡ some (false, q)
  unfolding try_enqueue run step rounds
  try_enqueue-taken zero x h e =
      ground (arith, compare_positions_lem (q.sequences (index k q.head)) q.head)
  try_enqueue-taken (suc r) x h e = ground (
    arith,
    compare_positions_lem (q.sequences (index k q.head)) q.head,
    run-enq_done (rounds r) false,
  )

  pub try_dequeue-published :
      (r : ℕ)
      → q.tail + 2 ^ k < 2 ^ 63
      → q.sequences (index k q.tail) ≡ q.tail + 1
      → try_dequeue k r q ≡ some (some (q.buffer (index k q.tail)), after_dequeue)
  unfolding try_dequeue run step
  try_dequeue-published r h e = ap dequeued (run-deq_check r h e)

  pub try_dequeue-waiting :
      (r : ℕ)
      → q.tail + 1 < 2 ^ 63
      → q.sequences (index k q.tail) ≤ q.tail
      → try_dequeue k r q ≡ some (none, q)
  unfolding try_dequeue run step rounds
  try_dequeue-waiting zero h e =
      ground (arith, compare_positions_lem (q.sequences (index k q.tail)) (q.tail + 1))
  try_dequeue-waiting (suc r) h e = ground (
    arith,
    compare_positions_lem (q.sequences (index k q.tail)) (q.tail + 1),
    run-deq_done (rounds r) none,
  )
