-- ===== src/Queue/Quiet.antt =====
-- The queue between calls, with none under way: a bounded first-in first-out list.
use market_data_parser.Common.{
  ℕ, zero, suc, ◌+◌, ◌-◌, ◌^◌, ◌≤◌, ◌<◌, ◌≡◌, refl, sym, ap, ap₂, some, List, [], ◌∷◌, ◌++◌, length,
  ◌==◌, false, arith,
}
use market_data_parser.Common.Update.{update, update_self, update_ne}
use market_data_parser.Queue.{MpmcQueue, index, try_enqueue, try_dequeue, size, empty}
use market_data_parser.Queue.Slots.{index-apart, index-add}
use market_data_parser.Queue.Fifo
use market_data_parser.Queue.Alone.{
  after_enqueue, after_dequeue, try_enqueue-free, try_enqueue-taken, try_dequeue-published,
  try_dequeue-waiting,
}
use native.Mathlib.Nat.{pow-suc, one-le-pow}
use native.Mathlib.Decide.{dec_lt}

pub two-le-pow : (k : ℕ) → 1 ≤ k → 2 ≤ 2 ^ k
two-le-pow zero h = absurd (omega arith)
two-le-pow (suc k) h = omega (arith, pow-suc 2 k, one-le-pow k 2)

module _ {ℓ} {A : Type ℓ} (k : ℕ) where
  -- Every position that is claimed has been published, and every one that is released is free again.
  pub record IsQuiet (q : MpmcQueue A) : Type 0 where
    pub order : q.tail ≤ q.head
    pub fits : q.head ≤ q.tail + 2 ^ k
    pub published : (p : ℕ) → q.tail ≤ p → p < q.head → q.sequences (index k p) ≡ p + 1
    pub free : (p : ℕ) → q.head ≤ p → p < q.tail + 2 ^ k → q.sequences (index k p) ≡ p

  -- The `n` items from position `p` on.
  abbrev pub window : (ℕ → A) → ℕ → ℕ → List A
  window buffer p zero = []
  window buffer p (suc n) = buffer (index k p) ∷ window buffer (p + 1) n

  abbrev pub contents : MpmcQueue A → List A
  contents q = window q.buffer q.tail (q.head - q.tail)

  pub length-window : (buffer : ℕ → A) (p n : ℕ) → length (window buffer p n) ≡ n
  length-window buffer p zero = refl
  length-window buffer p (suc n) = ap suc (length-window buffer (p + 1) n)

  -- A write just past a window that leaves room extends it.
  window-update :
      (buffer : ℕ → A) (x : A) (n p e : ℕ)
      → p + n ≡ e
      → n < 2 ^ k
      → window (update buffer (index k e) x) p (suc n) ≡ window buffer p n ++ (x ∷ [])
  window-update buffer x zero p e h lt =
      let same : e ≡ p = omega arith in
      rw same (ap (λ y. y ∷ []) (update_self buffer (index k p) x))
  window-update buffer x (suc n) p e h lt =
      ap₂ ◌∷◌
        (update_ne buffer (index k e) (index k p) x
          (λ same. omega (arith, index-apart k p e (sym same) (omega arith))))
        (window-update buffer x n (p + 1) e (omega arith) (omega arith))

  pub after_enqueue-IsQuiet :
      (q : MpmcQueue A) (x : A)
      → IsQuiet q
      → q.head < q.tail + 2 ^ k
      → IsQuiet (after_enqueue k q x)
  after_enqueue-IsQuiet q x v room = record {
    order = omega arith;
    fits = omega arith;
    published = λ p lo hi. ground (arith, v.published p, index-apart k p q.head);
    free = λ p lo hi. ground (arith, v.free p, index-apart k q.head p);
  }

  after_dequeue-IsQuiet :
      (q : MpmcQueue A) → IsQuiet q → q.tail < q.head → IsQuiet (after_dequeue k q)
  after_dequeue-IsQuiet q v some_left = record {
    order = omega arith;
    fits = omega arith;
    published = λ p lo hi. ground (arith, v.published p, index-apart k q.tail p);
    free = λ p lo hi. ground (arith, v.free p, index-apart k q.tail p, index-add k q.tail);
  }

  contents-after_enqueue :
      (q : MpmcQueue A) (x : A)
      → IsQuiet q
      → q.head < q.tail + 2 ^ k
      → contents (after_enqueue k q x) ≡ contents q ++ (x ∷ [])
  contents-after_enqueue q x v room =
      let one_more : q.head + 1 - q.tail ≡ suc (q.head - q.tail) = omega arith in
      rw one_more
        (window-update q.buffer x (q.head - q.tail) q.tail q.head (omega arith) (omega arith))

  contents-some :
      (q : MpmcQueue A)
      → q.tail < q.head
      → contents q ≡ q.buffer (index k q.tail) ∷ contents (after_dequeue k q)
  contents-some q some_left =
      let one_less : q.head - q.tail ≡ suc (q.head - (q.tail + 1)) = omega arith in rw one_less refl

  module _ (two : 2 ≤ 2 ^ k) (q : MpmcQueue A) (v : IsQuiet q) (far : q.head + 2 ^ k < 2 ^ 63) where
    -- On a quiet queue of capacity at least two, with `head_` + 2^k below 2^63: `try_enqueue` ends after any
    -- number of spurious failures, answers as `Fifo.push` does, leaves
    -- the queue quiet with the items of `Fifo.push`, and moves `head_` by one at most, and not if it fails.
    pub try_enqueue-push :
        (retries : ℕ) (x : A)
        → (q' : MpmcQueue A) × (try_enqueue k retries q x
            ≡ some ((Fifo.push (2 ^ k) (contents q) x).0, q'))
          × (contents q' ≡ (Fifo.push (2 ^ k) (contents q) x).1)
          × IsQuiet q'
          × (q'.head ≤ q.head + 1)
          × ((Fifo.push (2 ^ k) (contents q) x).0 ≡ false → q'.head ≡ q.head)
    unfolding Fifo.push
    try_enqueue-push retries x = elim (dec_lt q.head (q.tail + 2 ^ k)) [
      | yes room ↦ (
        after_enqueue k q x,
        ground (
          arith,
          length-window q.buffer q.tail (q.head - q.tail),
          try_enqueue-free k q retries x,
          v.free q.head,
        ),
        ground (
          arith,
          length-window q.buffer q.tail (q.head - q.tail),
          contents-after_enqueue q x v room,
        ),
        after_enqueue-IsQuiet q x v room,
        omega arith,
        ground (arith, length-window q.buffer q.tail (q.head - q.tail)),
      )
      | no full ↦ (
        q,
        ground (
          arith,
          length-window q.buffer q.tail (q.head - q.tail),
          try_enqueue-taken k q retries x,
          v.published q.tail,
          index-add k q.tail,
        ),
        ground (arith, length-window q.buffer q.tail (q.head - q.tail)),
        v,
        omega arith,
        λ refused. refl,
      )
    ]

    -- On a quiet queue of capacity at least two, with `head_` + 2^k below 2^63: `try_dequeue` ends after any
    -- number of spurious failures, answers as `Fifo.pop` does, leaves
    -- the queue quiet with the items of `Fifo.pop`, and does not move `head_`.
    pub try_dequeue-pop :
        (retries : ℕ)
        → (q' : MpmcQueue A) × (try_dequeue k retries q ≡ some ((Fifo.pop (contents q)).0, q'))
          × (contents q' ≡ (Fifo.pop (contents q)).1)
          × IsQuiet q'
          × (q'.head ≡ q.head)
    unfolding Fifo.pop
    try_dequeue-pop retries = elim (dec_lt q.tail q.head) [
      | yes some_left ↦ (
        after_dequeue k q,
        rw (contents-some q some_left) (
            try_dequeue-published k q retries (omega arith)
              (v.published q.tail (omega arith) some_left)),
        rw (contents-some q some_left) refl,
        after_dequeue-IsQuiet q v some_left,
        refl,
      )
      | no none_left ↦
          let nothing : q.head - q.tail ≡ 0 = omega arith in
          (
            q,
            rw nothing
                (try_dequeue-waiting k q retries (omega arith) (ground (arith, v.free q.tail))),
            rw nothing refl,
            v,
            refl,
          )
    ]

    -- On a quiet queue, `size` is the number of items and `empty` says whether it is zero.
    pub size-contents : (size q ≡ length (contents q)) × (empty q ≡ (length (contents q) == 0))
    unfolding size empty
    size-contents = ground (arith, length-window q.buffer q.tail (q.head - q.tail))
