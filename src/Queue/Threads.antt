-- ===== src/Queue/Threads.antt =====
-- Any number of threads that call `try_enqueue` and `try_dequeue` on one queue, their accesses to its
-- memory interleaved in any order.
use market_data_parser.Common.{
  ℕ, zero, suc, List, [], ◌∷◌, ◌++◌, Bool, true, false, not, ◌&&◌, none, ◌==◌, if◌then◌else◌, ◌≡◌,
}
use market_data_parser.Common.Update.{update}
use market_data_parser.Queue.Spec.{
  Event, enqueue_call, enqueue_return, dequeue_call, dequeue_return,
}
use market_data_parser.Queue.{
  MpmcQueue, Pc, enq_load, enq_claim, enq_done, deq_load, deq_done, construct, step,
}

-- `history` is no part of the program: it records the item with which each position was claimed.
pub record System (A : Type 0) : Type 0 where
  pub queue : MpmcQueue A
  pub pc : ℕ → Pc A
  pub history : ℕ → A

module _ {A : Type 0} where
  -- The thread is in no call.
  abbrev pub is_over : Pc A → Bool
  is_over (enq_done result) = true
  is_over (deq_done result) = true
  is_over pc = false

  -- What the caller sees of an access of thread `i` that takes it from one place to another: a call that
  -- is under way returns, or nothing.
  abbrev returned : ℕ → Pc A → List (Event A)
  returned i (enq_done result) = enqueue_return i result ∷ []
  returned i (deq_done result) = dequeue_return i result ∷ []
  returned i pc = []

  abbrev pub event : ℕ → (before after : Pc A) → List (Event A)
  event i before after = if is_over before then [] else returned i after

  -- A compare-exchange of `head_` that succeeds claims its position for the producer's item.
  unfoldable pub note : (spurious : Bool) → MpmcQueue A → Pc A → (ℕ → A) → ℕ → A
  note spurious q (enq_claim item pos) history =
      if q.head == pos && not spurious then update history pos item else history
  note spurious q pc history = history

  pub data Step (k : ℕ) (s : System A) : System A → Type 0 where
    access :
        (i : ℕ) (spurious : Bool) {q : MpmcQueue A} {p : Pc A} {h : ℕ → A}
        → step k spurious s.queue (s.pc i) ≡ (q, p)
        → note spurious s.queue (s.pc i) s.history ≡ h
        → Step k s (record { queue = q; pc = update s.pc i p; history = h })
    call_enqueue :
        (i : ℕ) (item : A)
        → is_over (s.pc i) ≡ true
        → Step k s (record s { pc = update s.pc i (enq_load item) })
    call_dequeue :
        (i : ℕ) → is_over (s.pc i) ≡ true → Step k s (record s { pc = update s.pc i deq_load })

  -- The states after `n` accesses and calls, from a new queue with no call under way.
  pub data Reach (k : ℕ) : ℕ → System A → Type 0 where
    start :
        (buffer : ℕ → A) (sequences : ℕ → ℕ) (history : ℕ → A)
        → Reach k zero (record {
          queue = construct k buffer sequences;
          pc = λ i. deq_done none;
          history = history;
        })
    later : {n : ℕ} {s t : System A} → Reach k n s → Step k s t → Reach k (suc n) t

  -- Any number of further accesses and calls.
  pub data Steps (k : ℕ) (s : System A) : ℕ → System A → Type 0 where
    stay : Steps k s zero s
    more : {n : ℕ} {t u : System A} → Steps k s n t → Step k t u → Steps k s (suc n) u

  -- What the callers have seen, oldest first.
  abbrev pub step_events : {k : ℕ} {s t : System A} → Step k s t → List (Event A)
  step_events {s = s} (access i spurious {p = p} eq eh) = event i (s.pc i) p
  step_events (call_enqueue i item over) = enqueue_call i item ∷ []
  step_events (call_dequeue i over) = dequeue_call i ∷ []

  abbrev pub events : {k n : ℕ} {s : System A} → Reach k n s → List (Event A)
  events (start buffer sequences history) = []
  events (later r st) = events r ++ step_events st
