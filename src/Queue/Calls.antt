-- ===== src/Queue/Calls.antt =====
-- Sequences of calls on a queue, against the same calls on the bounded list.
use market_data_parser.Common.{
  ℕ, zero, suc, ◌+◌, ◌^◌, ◌≤◌, ◌<◌, ◌≡◌, refl, ap, ◌∙◌, Bool, true, Option, none, some, List, [],
  ◌∷◌, length, arith,
}
use market_data_parser.Queue.{MpmcQueue, construct, store_numbers, size, try_enqueue, try_dequeue}
use market_data_parser.Queue.Slots.{index-mod}
use market_data_parser.Queue.Fifo
use market_data_parser.Queue.Alone.{after_enqueue, try_enqueue-free}
use market_data_parser.Queue.Quiet.{
  IsQuiet, contents, two-le-pow, try_enqueue-push, try_dequeue-pop,
}
use native.Mathlib.Nat.{mod-eq_of_lt}
use mathlib.Core.Option

-- A call, with the number of times that its compare-exchange fails spuriously.
pub data Call {ℓ} (A : Type ℓ) : Type ℓ where
  enqueue : (retries : ℕ) → A → Call A
  dequeue : (retries : ℕ) → Call A

pub data Reply {ℓ} (A : Type ℓ) : Type ℓ where
  accepted : Bool → Reply A
  received : Option A → Reply A

pub store_numbers-lt : (n i : ℕ) (sequences : ℕ → ℕ) → i < n → store_numbers n sequences i ≡ i
unfolding store_numbers
store_numbers-lt zero i sequences h = absurd (omega arith)
store_numbers-lt (suc n) i sequences h = ground (arith, store_numbers-lt n i sequences)

module _ {ℓ} {A : Type ℓ} where
  -- What the calls return; `none` if one does not end.
  unfoldable pub replies : (k : ℕ) → MpmcQueue A → List (Call A) → Option (List (Reply A))
  replies k q [] = some []
  replies k q (enqueue retries item ∷ calls) = elim (try_enqueue k retries q item) [
    | none ↦ none
    | some (result, q') ↦ Option.map (λ rest. accepted result ∷ rest) (replies k q' calls)
  ]
  replies k q (dequeue retries ∷ calls) = elim (try_dequeue k retries q) [
    | none ↦ none
    | some (result, q') ↦ Option.map (λ rest. received result ∷ rest) (replies k q' calls)
  ]

  unfoldable pub fifo_replies : (capacity : ℕ) → List A → List (Call A) → List (Reply A)
  fifo_replies capacity items [] = []
  fifo_replies capacity items (enqueue retries item ∷ calls) =
      let (result, items') = Fifo.push capacity items item in
      accepted result ∷ fifo_replies capacity items' calls
  fifo_replies capacity items (dequeue retries ∷ calls) =
      let (result, items') = Fifo.pop items in received result ∷ fifo_replies capacity items' calls

  -- The constructor makes a quiet, empty queue, whatever the storage held before.
  pub construct-IsQuiet :
      (k : ℕ) (buffer : ℕ → A) (sequences : ℕ → ℕ)
      → IsQuiet k (construct k buffer sequences) × (contents k (construct k buffer sequences) ≡ [])
  unfolding construct
  construct-IsQuiet k buffer sequences = (
    record {
      order = omega arith;
      fits = omega arith;
      published = λ p lo hi. absurd (omega arith);
      free = λ p lo hi. ground (
        arith,
        index-mod k p,
        mod-eq_of_lt {n = p} {m = 2 ^ k} (omega arith),
        store_numbers-lt (2 ^ k) p sequences,
      );
    },
    refl,
  )

  replies-fifo_replies :
      (k : ℕ) (two : 2 ≤ 2 ^ k) (calls : List (Call A)) (q : MpmcQueue A)
      → IsQuiet k q
      → q.head + length calls + 2 ^ k < 2 ^ 63
      → replies k q calls ≡ some (fifo_replies (2 ^ k) (contents k q) calls)
  unfolding replies fifo_replies
  replies-fifo_replies k two [] q v far = refl
  replies-fifo_replies k two (enqueue r x ∷ calls) q v far =
      let (q', e, c, v', h, same) = try_enqueue-push k two q v (omega arith) r x in
      rw (e, replies) (rw (replies-fifo_replies k two calls q' v' (omega arith), c) refl)
  replies-fifo_replies k two (dequeue r ∷ calls) q v far =
      let (q', e, c, v', h) = try_dequeue-pop k two q v (omega arith) r in
      rw (e, replies) (rw (replies-fifo_replies k two calls q' v' (omega arith), c) refl)

  -- A new queue of capacity 2^k, k at least 1, with the calls made one after the other: every call
  -- ends, whatever exchanges fail spuriously, and returns what a first-in first-out list of that
  -- capacity returns. The hypothesis is that the counters stay below 2^63.
  pub replies-construct :
      (k : ℕ) (buffer : ℕ → A) (sequences : ℕ → ℕ) (calls : List (Call A))
      → 1 ≤ k
      → length calls + 2 ^ k < 2 ^ 63
      → replies k (construct k buffer sequences) calls ≡ some (fifo_replies (2 ^ k) [] calls)
  replies-construct k buffer sequences calls one far =
      let (v, e) = construct-IsQuiet k buffer sequences in
      replies-fifo_replies k (two-le-pow k one) calls (construct k buffer sequences) v
        (unfold construct in omega arith)
      ∙ ap (λ items. some (fifo_replies (2 ^ k) items calls)) e

  -- With a capacity of one, which the static assertion allows, the queue is never full: after a
  -- successful enqueue into an empty queue a second one succeeds too, and overwrites the item. The
  -- queue then claims to hold two items.
  pub capacity_one_overwrites :
      (q : MpmcQueue A) (r s : ℕ) (x y : A)
      → IsQuiet 0 q
      → q.tail ≡ q.head
      → q.head + 2 < 2 ^ 63
      → (q₁ : MpmcQueue A) × (q₂ : MpmcQueue A) × (try_enqueue 0 r q x ≡ some (true, q₁))
        × (try_enqueue 0 s q₁ y ≡ some (true, q₂))
        × (q₂.buffer 0 ≡ y)
        × (size q₂ ≡ 2)
  unfolding size
  capacity_one_overwrites q r s x y v e far = (
    after_enqueue 0 q x,
    after_enqueue 0 (after_enqueue 0 q x) y,
    try_enqueue-free 0 q r x (omega arith) (v.free q.head (omega arith) (omega arith)),
    try_enqueue-free 0 (after_enqueue 0 q x) s y (omega arith)
        (ground (arith, index-mod 0 q.head, index-mod 0 (q.head + 1))),
    ground (arith, index-mod 0 (q.head + 1)),
    omega arith,
  )
