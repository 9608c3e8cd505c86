-- ===== src/Queue.antt =====
-- MPMCQueue<T, Capacity> of include/mpmc_queue.hpp, for a capacity of 2^k (the static assertion).
-- `try_enqueue` and `try_dequeue` are cut into their accesses to shared memory, one to a step, so that the
-- steps of several threads can be interleaved. A member function that runs alone is a run of the steps.
pub mod Slots
pub mod Capacity
pub mod Fifo
pub mod Alone
pub mod Quiet
pub mod Calls
pub mod Shared
pub mod Threads
pub mod Local
pub mod Effect
pub mod Sound
pub mod Invariant
pub mod Reachable
pub mod Onward
pub mod Progress
pub mod Spec
pub mod Keeping
pub mod Holders
pub mod View
pub mod Moving
pub mod Moments
pub mod Refines
pub mod Safety
pub mod Answers
pub mod Tests
mod RefineTests
use market_data_parser.Common.{
  ℕ, zero, suc, ◌+◌, ◌-◌, ◌%◌, ◌^◌, Bool, true, false, not, ◌&&◌, Option, none, some, List, [], ◌∷◌,
  ◌==◌, if◌then◌else◌,
}
use market_data_parser.Common.Int.{ℤ, ◌-ℤ◌, intptr}
use market_data_parser.Common.Update.{update}
use Prim.Native.Nat.{bit_and}

-- The static assertion on `Capacity`, of type size_t.
unfoldable pub admits_capacity : (capacity : ℕ) → Bool
admits_capacity capacity = bit_and capacity ((capacity + 2 ^ 64 - 1) % 2 ^ 64) == 0

-- The arrays `buffer_` and `sequences_`, of `Capacity` elements, are functions of the index.
pub record MpmcQueue {ℓ} (A : Type ℓ) : Type ℓ where
  pub head : ℕ  -- size_t
  pub tail : ℕ  -- size_t
  pub buffer : ℕ → A
  pub sequences : ℕ → ℕ  -- size_t

-- `for (size_t i = 0; i < Capacity; ++i) sequences_[i].value.store(i)`, the first `n` rounds of it.
unfoldable pub store_numbers : ℕ → (ℕ → ℕ) → ℕ → ℕ
store_numbers zero sequences = sequences
store_numbers (suc n) sequences = update (store_numbers n sequences) n n

-- The constructor, on storage that holds anything.
unfoldable pub construct {ℓ} : {A : Type ℓ} (k : ℕ) → (ℕ → A) → (ℕ → ℕ) → MpmcQueue A
construct k buffer sequences = record {
  head = 0;
  tail = 0;
  buffer = buffer;
  sequences = store_numbers (2 ^ k) sequences;
}

abbrev pub size_add : ℕ → ℕ → ℕ
size_add a b = (a + b) % 2 ^ 64

unfoldable pub size {ℓ} : {A : Type ℓ} → MpmcQueue A → ℕ
size q = (q.head + 2 ^ 64 - q.tail) % 2 ^ 64

unfoldable pub empty {ℓ} : {A : Type ℓ} → MpmcQueue A → Bool
unfolding size
empty q = size q == 0

-- Where a thread stands in a member function, with the local variables that are live there.
pub data Pc {ℓ} (A : Type ℓ) : Type ℓ where
  enq_load : (item : A) → Pc A  -- before a load of `head_` into `pos`
  enq_check : (item : A) (pos : ℕ) → Pc A  -- top of the loop: load the sequence, compare
  enq_claim : (item : A) (pos : ℕ) → Pc A  -- before the compare-exchange of `head_`
  enq_write : (item : A) (pos : ℕ) → Pc A  -- claimed, before the write of the data
  enq_publish : (item : A) (pos : ℕ) → Pc A  -- before the store of the sequence
  enq_done : Bool → Pc A
  deq_load : Pc A
  deq_check : (pos : ℕ) → Pc A
  deq_claim : (pos : ℕ) → Pc A
  deq_read : (pos : ℕ) → Pc A
  deq_release : (pos : ℕ) (item : A) → Pc A
  deq_done : Option A → Pc A

-- The three branches on `diff`.
pub data Verdict : Type 0 where
  claim give_up reload : Verdict

abbrev pub judge : ℤ → Verdict
judge (ℤ.pos zero) = claim
judge (ℤ.pos (suc n)) = reload
judge (ℤ.negsuc n) = give_up

unfoldable pub compare_positions : (seq pos : ℕ) → Verdict
compare_positions seq pos = judge (intptr seq -ℤ intptr pos)

-- `pos & (Capacity - 1)`
unfoldable pub index : (k pos : ℕ) → ℕ
index k pos = bit_and pos (2 ^ k - 1)

-- Enough steps for a call whose compare-exchange fails spuriously `retries` times.
unfoldable pub rounds : ℕ → List Bool
rounds zero = false ∷ false ∷ false ∷ false ∷ []
rounds (suc retries) = false ∷ true ∷ rounds retries

-- What a call that is over has returned; `none` if it is not over.
abbrev pub enqueued {ℓ} : {A : Type ℓ} → MpmcQueue A × Pc A → Option (Bool × MpmcQueue A)
enqueued (q, enq_done result) = some (result, q)
enqueued (q, pc) = none

abbrev pub dequeued {ℓ} : {A : Type ℓ} → MpmcQueue A × Pc A → Option (Option A × MpmcQueue A)
dequeued (q, deq_done result) = some (result, q)
dequeued (q, pc) = none

-- The three branches of the loop in `try_enqueue`, and of that in `try_dequeue`.
abbrev pub branch_enqueue {ℓ} : {A : Type ℓ} → A → ℕ → Verdict → Pc A
branch_enqueue item pos claim = enq_claim item pos
branch_enqueue item pos give_up = enq_done false
branch_enqueue item pos reload = enq_load item

abbrev pub branch_dequeue {ℓ} : {A : Type ℓ} → ℕ → Verdict → Pc A
branch_dequeue pos claim = deq_claim pos
branch_dequeue pos give_up = deq_done none
branch_dequeue pos reload = deq_load

module _ {ℓ} {A : Type ℓ} (k : ℕ) where
  unfoldable pub checked_enqueue : MpmcQueue A → A → ℕ → Pc A
  checked_enqueue q item pos =
      branch_enqueue item pos (compare_positions (q.sequences (index k pos)) pos)

  unfoldable pub checked_dequeue : MpmcQueue A → ℕ → Pc A
  checked_dequeue q pos =
      branch_dequeue pos (compare_positions (q.sequences (index k pos)) (size_add pos 1))

  -- One access of a thread to the queue. `spurious` says that a `compare_exchange_weak` fails although
  -- the values are equal, as it may; a failed exchange leaves the current value in `pos`.
  unfoldable pub step : (spurious : Bool) → MpmcQueue A → Pc A → MpmcQueue A × Pc A
  unfolding checked_enqueue checked_dequeue
  step spurious q (enq_load item) = (q, enq_check item q.head)
  step spurious q (enq_check item pos) = (q, checked_enqueue q item pos)
  step spurious q (enq_claim item pos) =
      if q.head == pos && not spurious
      then (record q { head = size_add pos 1 }, enq_write item pos)
      else (q, enq_check item q.head)
  step spurious q (enq_write item pos) =
      (record q { buffer = update q.buffer (index k pos) item }, enq_publish item pos)
  step spurious q (enq_publish item pos) =
      (record q { sequences = update q.sequences (index k pos) (size_add pos 1) }, enq_done true)
  step spurious q (enq_done result) = (q, enq_done result)
  step spurious q deq_load = (q, deq_check q.tail)
  step spurious q (deq_check pos) = (q, checked_dequeue q pos)
  step spurious q (deq_claim pos) =
      if q.tail == pos && not spurious
      then (record q { tail = size_add pos 1 }, deq_read pos)
      else (q, deq_check q.tail)
  step spurious q (deq_read pos) = (q, deq_release pos (q.buffer (index k pos)))
  step spurious q (deq_release pos item) = (
    record q { sequences = update q.sequences (index k pos) (size_add pos (2 ^ k)) },
    deq_done (some item),
  )
  step spurious q (deq_done result) = (q, deq_done result)

  -- A thread that runs alone, for a number of steps; the list says which exchanges fail spuriously.
  unfoldable pub run : List Bool → MpmcQueue A → Pc A → MpmcQueue A × Pc A
  run [] q pc = (q, pc)
  run (spurious ∷ rest) q pc = let (q', pc') = step spurious q pc in run rest q' pc'

  unfoldable pub try_enqueue : (retries : ℕ) → MpmcQueue A → A → Option (Bool × MpmcQueue A)
  try_enqueue retries q item = enqueued (run (false ∷ rounds retries) q (enq_load item))

  unfoldable pub try_dequeue : (retries : ℕ) → MpmcQueue A → Option (Option A × MpmcQueue A)
  try_dequeue retries q = dequeued (run (false ∷ rounds retries) q deq_load)
