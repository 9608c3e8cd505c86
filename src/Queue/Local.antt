-- ===== src/Queue/Local.antt =====
-- What a thread knows at each place in its call, and that no other thread's access spoils it.
use market_data_parser.Common.{ℕ, ◌+◌, ◌^◌, ◌≤◌, ◌<◌, ◌≡◌, ◌≢◌, Option, none, some, arith}
use market_data_parser.Common.Update.{update}
use market_data_parser.Queue.{
  MpmcQueue, index, Pc, enq_load, enq_check, enq_claim, enq_write, enq_publish, deq_check,
  deq_claim, deq_read, deq_release,
}
use market_data_parser.Queue.Slots.{index-apart}
use market_data_parser.Queue.Shared.{IsCoherent}

module _ {A : Type 0} where
  -- The position that the thread has claimed and not yet published, or not yet released.
  abbrev pub produces : Pc A → Option ℕ
  produces (enq_write item pos) = some pos
  produces (enq_publish item pos) = some pos
  produces pc = none

  abbrev pub consumes : Pc A → Option ℕ
  consumes (deq_read pos) = some pos
  consumes (deq_release pos item) = some pos
  consumes pc = none

module _ {A : Type 0} (k : ℕ) where
  abbrev pub Local : MpmcQueue A → (ℕ → A) → Pc A → Type 0
  Local q h (enq_check x p) = p ≤ q.head
  Local q h (enq_claim x p) = (p ≤ q.head) × (q.head ≤ p → q.sequences (index k p) ≡ p)
  Local q h (enq_write x p) = (p < q.head) × (q.sequences (index k p) ≡ p) × (h p ≡ x)
  Local q h (enq_publish x p) =
      (p < q.head) × (q.sequences (index k p) ≡ p) × (h p ≡ x) × (q.buffer (index k p) ≡ x)
  Local q h (deq_check p) = p ≤ q.tail
  Local q h (deq_claim p) = (p ≤ q.tail) × (q.tail ≤ p → q.sequences (index k p) ≡ p + 1)
  Local q h (deq_read p) = (p < q.tail) × (q.sequences (index k p) ≡ p + 1)
  Local q h (deq_release p x) = (p < q.tail) × (q.sequences (index k p) ≡ p + 1) × (h p ≡ x)
  Local q h pc = Unit

  module _ (two : 2 ≤ 2 ^ k) (q : MpmcQueue A) (h : ℕ → A) (v : IsCoherent k q h) where
    pub claim_head-Local :
        (x : A) (pc : Pc A)
        → Local q h pc
        → Local (record q { head = q.head + 1 }) (update h q.head x) pc
    claim_head-Local x (deq_release p y) l = ground (arith, v.order)
    claim_head-Local x pc l = ground arith

    pub write-Local :
        (x : A) (p₀ : ℕ) (pc : Pc A)
        → q.sequences (index k p₀) ≡ p₀
        → produces pc ≢ some p₀
        → Local q h pc
        → Local (record q { buffer = update q.buffer (index k p₀) x }) h pc
    write-Local x p₀ (enq_publish y p) own ne l = ground arith
    write-Local x p₀ pc own ne l = ground arith

    pub publish-Local :
        (p₀ : ℕ) (pc : Pc A)
        → p₀ < q.head
        → q.sequences (index k p₀) ≡ p₀
        → produces pc ≢ some p₀
        → Local q h pc
        → Local (record q { sequences = update q.sequences (index k p₀) (p₀ + 1) }) h pc
    publish-Local p₀ (enq_write y p) lt own ne l = ground arith
    publish-Local p₀ (enq_publish y p) lt own ne l = ground arith
    publish-Local p₀ (deq_claim p) lt own ne l =
        ground (arith, index-apart k p p₀, index-apart k p₀ p)
    publish-Local p₀ (deq_read p) lt own ne l =
        ground (arith, index-apart k p p₀, index-apart k p₀ p)
    publish-Local p₀ (deq_release p y) lt own ne l =
        ground (arith, index-apart k p p₀, index-apart k p₀ p)
    publish-Local p₀ pc lt own ne l = ground arith

    pub claim_tail-Local : (pc : Pc A) → Local q h pc → Local (record q { tail = q.tail + 1 }) h pc
    claim_tail-Local (enq_load x) l = tt
    claim_tail-Local pc l = ground arith

    pub release-Local :
        (p₀ : ℕ) (pc : Pc A)
        → p₀ < q.tail
        → q.sequences (index k p₀) ≡ p₀ + 1
        → consumes pc ≢ some p₀
        → Local q h pc
        → Local (record q { sequences = update q.sequences (index k p₀) (p₀ + 2 ^ k) }) h pc
    release-Local p₀ (deq_read p) lt own ne l = ground arith
    release-Local p₀ (deq_release p y) lt own ne l = ground arith
    release-Local p₀ (enq_claim x p) lt own ne l = ground (arith, v.order, index-apart k p₀ p)
    release-Local p₀ (enq_write x p) lt own ne l = ground (arith, index-apart k p₀ p)
    release-Local p₀ (enq_publish x p) lt own ne l = ground (arith, index-apart k p₀ p)
    release-Local p₀ pc lt own ne l = ground arith
