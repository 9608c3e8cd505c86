-- ===== src/Queue/Shared.antt =====
-- What holds of the shared memory of the queue at every moment, whatever calls are under way, and
-- that each of the five accesses that change it keeps this.
use market_data_parser.Common.{ℕ, ◌+◌, ◌^◌, ◌≤◌, ◌<◌, ◌≡◌, ◌⊎◌, arith}
use market_data_parser.Common.Update.{update}
use market_data_parser.Queue.{MpmcQueue, index}
use market_data_parser.Queue.Slots.{index-apart, index-add}

module _ {A : Type 0} (k : ℕ) where
  -- `history p` is the item with which position `p` was claimed. A slot is at its own position (free
  -- or being written), one past it (published or being read), or has moved on to the next round.
  pub record IsCoherent (q : MpmcQueue A) (history : ℕ → A) : Type 0 where
    pub order : q.tail ≤ q.head
    pub fits : q.head ≤ q.tail + 2 ^ k
    pub small : (p : ℕ) → q.sequences (index k p) ≤ q.head + 2 ^ k
    pub below :
        (p : ℕ)
        → p < q.tail
        → (q.sequences (index k p) ≡ p + 1) ⊎ (p + 2 ^ k ≤ q.sequences (index k p))
    pub between :
        (p : ℕ)
        → q.tail ≤ p
        → p < q.head
        → (q.sequences (index k p) ≡ p) ⊎ (q.sequences (index k p) ≡ p + 1)
    pub above : (p : ℕ) → q.head ≤ p → q.sequences (index k p) ≤ p
    pub fresh : (p : ℕ) → q.head ≤ p → p < 2 ^ k → q.sequences (index k p) ≡ p
    pub items : (p : ℕ) → q.sequences (index k p) ≡ p + 1 → q.buffer (index k p) ≡ history p

  module _ (two : 2 ≤ 2 ^ k) (q : MpmcQueue A) (h : ℕ → A) (v : IsCoherent q h) where
    -- A producer claims the position at the end, whose slot is free.
    pub claim_head-IsCoherent :
        (x : A)
        → q.sequences (index k q.head) ≡ q.head
        → IsCoherent (record q { head = q.head + 1 }) (update h q.head x)
    claim_head-IsCoherent x free = record {
      order = omega (arith, v.order);
      fits = ground (arith, v.between q.tail, index-add k q.tail);
      small = λ p. omega (arith, v.small p);
      below = λ p lt. v.below p lt;
      between = λ p lo hi. ground (arith, v.between p);
      above = λ p lo. ground (arith, v.above p);
      fresh = λ p lo hi. v.fresh p (omega arith) hi;
      items = λ p e. ground (arith, v.items p);
    }

    module _ (p₀ : ℕ) where
      -- The producer of `p₀` writes its item into the slot that it claimed.
      pub write-IsCoherent :
          (x : A)
          → q.sequences (index k p₀) ≡ p₀
          → IsCoherent (record q { buffer = update q.buffer (index k p₀) x }) h
      write-IsCoherent x own = record {
        order = v.order;
        fits = v.fits;
        small = v.small;
        below = v.below;
        between = v.between;
        above = v.above;
        fresh = v.fresh;
        items = λ p e. ground (arith, v.items p, index-apart k p p₀);
      }

      -- The producer of `p₀` hands the slot over to the consumers.
      pub publish-IsCoherent :
          p₀ < q.head
          → q.sequences (index k p₀) ≡ p₀
          → q.buffer (index k p₀) ≡ h p₀
          → IsCoherent (record q { sequences = update q.sequences (index k p₀) (p₀ + 1) }) h
      publish-IsCoherent lt own held = record {
        order = v.order;
        fits = v.fits;
        small = λ p. ground (arith, v.small p);
        below = λ p lo. ground (arith, v.below p, index-apart k p p₀, index-apart k p₀ p);
        between = λ p lo hi. ground (arith, v.between p, index-apart k p p₀, index-apart k p₀ p);
        above = λ p lo. ground (arith, v.above p);
        fresh = λ p lo hi. ground (arith, v.fresh p, index-apart k p₀ p);
        items = λ p e. ground (arith, v.items p, index-apart k p p₀, index-apart k p₀ p);
      }

    -- A consumer claims the position at the front, which has been published.
    pub claim_tail-IsCoherent :
        q.sequences (index k q.tail) ≡ q.tail + 1 → IsCoherent (record q { tail = q.tail + 1 }) h
    claim_tail-IsCoherent ready = record {
      order = ground (arith, v.above q.tail);
      fits = omega (arith, v.fits);
      small = v.small;
      below = λ p lo. ground (arith, v.below p);
      between = λ p lo hi. v.between p (omega arith) hi;
      above = v.above;
      fresh = v.fresh;
      items = v.items;
    }

    -- The consumer of `p₀` frees the slot for the next round.
    pub release-IsCoherent :
        (p₀ : ℕ)
        → p₀ < q.tail
        → q.sequences (index k p₀) ≡ p₀ + 1
        → IsCoherent (record q { sequences = update q.sequences (index k p₀) (p₀ + 2 ^ k) }) h
    release-IsCoherent p₀ lt own = record {
      order = v.order;
      fits = v.fits;
      small = λ p. ground (arith, v.small p);
      below = λ p lo. ground (arith, v.below p, index-apart k p p₀, index-apart k p₀ p);
      between = λ p lo hi. ground (arith, v.between p, index-apart k p p₀, index-apart k p₀ p);
      above = λ p lo. ground (arith, v.above p, index-apart k p₀ p);
      fresh = λ p lo hi. ground (arith, v.fresh p, v.order, index-apart k p₀ p);
      items = λ p e. ground (arith, v.items p, index-apart k p p₀, index-apart k p₀ p);
    }
