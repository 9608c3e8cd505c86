-- ===== src/Queue/Refines.antt =====
-- Threads that share the queue refine the bounded list of Queue/Spec: every access is a move of it, or none.
use market_data_parser.Common.{ℕ, ◌+◌, ◌^◌, ◌≤◌, ◌<◌, refl, [], arith}
use market_data_parser.Queue.{enq_load, deq_load, construct}
use market_data_parser.Queue.Threads.{
  System, Step, access, call_enqueue, call_dequeue, Reach, start, later, step_events, events,
}
use market_data_parser.Queue.Spec.{
  new_buffer, enqueueing, dequeueing, enqueue_called, dequeue_called, Run, none_yet, and_then,
}
use market_data_parser.Queue.View.{view}
use market_data_parser.Queue.Moving.{Moved, Shown, becomes, IsOver-is_over}
use market_data_parser.Queue.Moments.{access-Shown}

module _ {A : Type 0} (k : ℕ) where
  Step-Shown :
      1 ≤ k
      → {n : ℕ} {s t : System A} → Reach k n s
      → n + 2 ^ k < 2 ^ 63
      → (st : Step k s t) → Shown (2 ^ k) (view s) (view t) (step_events st)
  Step-Shown one {n} {s} r far (access i f es eh) =
      let m = access-Shown k one r far i f (s.pc i) refl in rw (es, eh) at m
  Step-Shown one {n} {s} r far (call_enqueue i x over) = (
    [],
    [],
    enqueue_called i x (IsOver-is_over s.history (s.pc i) over) refl
        (becomes s i s.queue (enq_load x) (enqueueing x) refl),
    refl,
  )
  Step-Shown one {n} {s} r far (call_dequeue i over) = (
    [],
    [],
    dequeue_called i (IsOver-is_over s.history (s.pc i) over) refl
        (becomes s i s.queue deq_load dequeueing refl),
    refl,
  )

  -- Every access and every call, of any thread and in every state that is reached in fewer than 2^63 - 2^k
  -- accesses and calls, is a move of the bounded list or leaves it as it is: a successful
  -- compare-exchange of an enqueue puts its item in, one of a dequeue takes the oldest item out, a call
  -- returns what was put in or taken out, and it fails only if the list is full, or empty, or a call of
  -- the other kind has had its moment and not returned yet. The capacity is 2^k, k at least 1.
  pub Step-Moved :
      1 ≤ k
      → {n : ℕ} {s t : System A} → Reach k n s
      → n + 2 ^ k < 2 ^ 63
      → Step k s t
      → Moved (2 ^ k) (view s) (view t)
  Step-Moved one r far st = let (xs, ys, m, same) = Step-Shown one r far st in (xs, ys, m)

  -- What the callers see of any threads that reach a state in fewer than 2^63 - 2^k accesses and calls on a
  -- new queue of capacity 2^k, k at least 1, they see in a run of the bounded list: the same calls with the
  -- same items and the same returns with the same answers and items, by the same threads and in the same
  -- order, up to the state as a bounded list. In that run each call that succeeds puts its item in, or
  -- takes the oldest item out, at one moment between its begin and its return.
  pub Reach-Run :
      1 ≤ k
      → {n : ℕ} {s : System A} (r : Reach k n s) → n + 2 ^ k < 2 ^ 63
      → Run (2 ^ k) new_buffer (events r) (view s)
  unfolding construct
  Reach-Run one (start buffer sequences h) far = none_yet
  Reach-Run one (later r st) far =
      let (xs, ys, m, same) = Step-Shown one r (omega arith) st in
      rw (← same) (and_then (Reach-Run one r (omega arith)) m)
