-- ===== src/Queue/Fifo.antt =====
-- What the queue promises: a bounded list, oldest item first.
use market_data_parser.Common.{
  ℕ, Bool, true, false, Option, none, some, List, [], ◌∷◌, ◌++◌, length, ◌==◌, if◌then◌else◌,
}

module _ {ℓ} {A : Type ℓ} where
  unfoldable pub push : (capacity : ℕ) → List A → A → Bool × List A
  push capacity items item =
      if length items == capacity then (false, items) else (true, items ++ (item ∷ []))

  unfoldable pub pop : List A → Option A × List A
  pop [] = (none, [])
  pop (item ∷ items) = (some item, items)
