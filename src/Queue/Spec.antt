-- ===== src/Queue/Spec.antt =====
-- What the queue promises to threads that share it: a bounded list of items, oldest first, where each call
-- has one moment between its begin and its end at which it puts its item in or takes one out.
use market_data_parser.Common.{
  ℕ, ◌<◌, ◌≡◌, ◌⊎◌, Bool, true, false, Option, none, some, List, [], ◌∷◌, ◌++◌, length,
}
use market_data_parser.Common.Update.{update}

-- What the callers see: thread `i` begins a call, or its call returns.
pub data Event (A : Type 0) : Type 0 where
  enqueue_call : (i : ℕ) → A → Event A
  enqueue_return : (i : ℕ) → Bool → Event A
  dequeue_call : (i : ℕ) → Event A
  dequeue_return : (i : ℕ) → Option A → Event A

-- Where a thread stands in a call, or what its last call returned.
pub data Status (A : Type 0) : Type 0 where
  enqueueing : A → Status A
  put_in : Status A  -- the item is in the list, the call has not returned
  enqueue_returned : Bool → Status A
  dequeueing : Status A
  taken_out : A → Status A  -- the item is out of the list, the call has not returned
  dequeue_returned : Option A → Status A

pub record Buffer (A : Type 0) : Type 0 where
  pub items : List A
  pub status : ℕ → Status A

module _ {A : Type 0} where
  -- The list before any call.
  abbrev pub new_buffer : Buffer A
  new_buffer = record { items = []; status = λ i. dequeue_returned none }

  -- Thread `i` comes to stand at `st`, and no other thread moves.
  abbrev pub Becomes : Buffer A → ℕ → Status A → Buffer A → Type 0
  Becomes b i st c = (j : ℕ) → c.status j ≡ update b.status i st j

  abbrev pub IsOver : Status A → Type 0
  IsOver (enqueue_returned result) = Unit
  IsOver (dequeue_returned result) = Unit
  IsOver st = ⊥

  -- A move, with the items that it puts in and takes out. An enqueue may fail only if the list is full or
  -- another thread has taken an item out and not returned yet; a dequeue, if the list is empty or another
  -- thread has put an item in and not returned yet.
  pub data Move (capacity : ℕ) (b : Buffer A) : List A → List A → Buffer A → Type 0 where
    stays :
        {c : Buffer A}
        → c.items ≡ b.items
        → ((j : ℕ) → c.status j ≡ b.status j)
        → Move capacity b [] [] c
    enqueue_called :
        {c : Buffer A} (i : ℕ) (x : A)
        → IsOver (b.status i)
        → c.items ≡ b.items
        → Becomes b i (enqueueing x) c
        → Move capacity b [] [] c
    dequeue_called :
        {c : Buffer A} (i : ℕ)
        → IsOver (b.status i)
        → c.items ≡ b.items
        → Becomes b i dequeueing c
        → Move capacity b [] [] c
    puts_in :
        {c : Buffer A} (i : ℕ) (x : A)
        → b.status i ≡ enqueueing x
        → length b.items < capacity
        → c.items ≡ b.items ++ (x ∷ [])
        → Becomes b i put_in c
        → Move capacity b (x ∷ []) [] c
    takes_out :
        {c : Buffer A} (i : ℕ) (x : A)
        → b.status i ≡ dequeueing
        → b.items ≡ x ∷ c.items
        → Becomes b i (taken_out x) c
        → Move capacity b [] (x ∷ []) c
    enqueue_succeeds :
        {c : Buffer A} (i : ℕ)
        → b.status i ≡ put_in
        → c.items ≡ b.items
        → Becomes b i (enqueue_returned true) c
        → Move capacity b [] [] c
    dequeue_succeeds :
        {c : Buffer A} (i : ℕ) (x : A)
        → b.status i ≡ taken_out x
        → c.items ≡ b.items
        → Becomes b i (dequeue_returned (some x)) c
        → Move capacity b [] [] c
    enqueue_fails :
        {c : Buffer A} (i : ℕ) (x : A)
        → b.status i ≡ enqueueing x
        → (length b.items ≡ capacity) ⊎ ((j : ℕ) × (y : A) × (b.status j ≡ taken_out y))
        → c.items ≡ b.items
        → Becomes b i (enqueue_returned false) c
        → Move capacity b [] [] c
    dequeue_fails :
        {c : Buffer A} (i : ℕ)
        → b.status i ≡ dequeueing
        → (b.items ≡ []) ⊎ ((j : ℕ) × (b.status j ≡ put_in))
        → c.items ≡ b.items
        → Becomes b i (dequeue_returned none) c
        → Move capacity b [] [] c

  -- What the callers see of a move.
  abbrev pub visible :
      {capacity : ℕ} {b c : Buffer A} {xs ys : List A} → Move capacity b xs ys c → List (Event A)
  visible (stays e st) = []
  visible (enqueue_called i x over e st) = enqueue_call i x ∷ []
  visible (dequeue_called i over e st) = dequeue_call i ∷ []
  visible (puts_in i x at room e st) = []
  visible (takes_out i x at e st) = []
  visible (enqueue_succeeds i at e st) = enqueue_return i true ∷ []
  visible (dequeue_succeeds i x at e st) = dequeue_return i (some x) ∷ []
  visible (enqueue_fails i x at why e st) = enqueue_return i false ∷ []
  visible (dequeue_fails i at why e st) = dequeue_return i none ∷ []

  -- Any number of moves, with what the callers see of them, in order.
  pub data Run (capacity : ℕ) (b : Buffer A) : List (Event A) → Buffer A → Type 0 where
    none_yet : Run capacity b [] b
    and_then :
        {es : List (Event A)} {c d : Buffer A} {xs ys : List A}
        → Run capacity b es c
        → (m : Move capacity c xs ys d) → Run capacity b (es ++ visible m) d
