-- ===== src/Queue/Keeping.antt =====
-- Which slots are in use after one access of a thread.
use market_data_parser.Common.{
  ℕ, ◌+◌, ◌^◌, ◌≤◌, ◌<◌, ◌≡◌, ◌≢◌, ◌⊎◌, inl, inr, Bool, not, ◌&&◌, ◌==◌, Bool-cases, true, some,
  arith,
}
use market_data_parser.Common.Update.{update}
use market_data_parser.Queue.{
  MpmcQueue, Pc, enq_load, enq_check, enq_claim, enq_write, enq_publish, enq_done, deq_load,
  deq_check, deq_claim, deq_read, deq_release, deq_done, step, index, size_add,
}
use market_data_parser.Queue.Slots.{index-apart}
use market_data_parser.Queue.Shared.{IsCoherent}
use market_data_parser.Queue.Local.{produces, consumes, Local}

module _ {A : Type 0} (k : ℕ) where
  -- A slot in use after the access is the thread's own, or was in use before, by another thread.
  pub record Keeps (q : MpmcQueue A) (pc : Pc A) (q' : MpmcQueue A) (pc' : Pc A) : Type 0 where
    pub written :
        (p : ℕ)
        → p < q'.head
        → q'.sequences (index k p) ≡ p
        → (produces pc' ≡ some p)
          ⊎ ((p < q.head) × (q.sequences (index k p) ≡ p) × (produces pc ≢ some p))
    pub read :
        (p : ℕ)
        → p < q'.tail
        → q'.sequences (index k p) ≡ p + 1
        → (consumes pc' ≡ some p)
          ⊎ ((p < q.tail) × (q.sequences (index k p) ≡ p + 1) × (consumes pc ≢ some p))

  pub idle :
      (q : MpmcQueue A) (pc pc' : Pc A)
      → ((c : ℕ) → produces pc ≢ some c)
      → ((c : ℕ) → consumes pc ≢ some c)
      → Keeps q pc q pc'
  idle q pc pc' np nc = record {
    written = λ p lt e. inr (lt, e, np p);
    read = λ p lt e. inr (lt, e, nc p);
  }

  module _ (two : 2 ≤ 2 ^ k) (q : MpmcQueue A) (h : ℕ → A) (v : IsCoherent k q h)
      (far : q.head + 2 ^ k < 2 ^ 63) where
    claim_head-Keeps :
        (x : A) → Keeps q (enq_claim x q.head) (record q { head = q.head + 1 }) (enq_write x q.head)
    claim_head-Keeps x = record {
      written = λ p lt e. ground arith;
      read = λ p lt e. inr (lt, e, λ c. cc);
    }

    claim_tail-Keeps : Keeps q (deq_claim q.tail) (record q { tail = q.tail + 1 }) (deq_read q.tail)
    claim_tail-Keeps = record {
      written = λ p lt e. inr (lt, e, λ c. cc);
      read = λ p lt e. ground arith;
    }

    publish-Keeps :
        (x : A) (p₀ : ℕ)
        → p₀ < q.head
        → q.sequences (index k p₀) ≡ p₀
        → Keeps q
            (enq_publish x p₀)
            (record q { sequences = update q.sequences (index k p₀) (p₀ + 1) })
            (enq_done true)
    publish-Keeps x p₀ lt₀ own = record {
      written = λ p lt e. ground (arith, index-apart k p p₀, index-apart k p₀ p);
      read = λ p lt e. ground (arith, index-apart k p p₀, index-apart k p₀ p, v.below p);
    }

    release-Keeps :
        (x : A) (p₀ : ℕ)
        → p₀ < q.tail
        → q.sequences (index k p₀) ≡ p₀ + 1
        → Keeps q
            (deq_release p₀ x)
            (record q { sequences = update q.sequences (index k p₀) (p₀ + 2 ^ k) })
            (deq_done (some x))
    release-Keeps x p₀ lt₀ own = record {
      written = λ p lt e.
          ground (
            arith,
            index-apart k p p₀,
            index-apart k p₀ p,
            v.below p,
            v.between p,
            v.order,
            v.fits,
          );
      read = λ p lt e. ground (arith, index-apart k p p₀, index-apart k p₀ p, v.below p, v.order);
    }

    enq_claim-Keeps :
        (f : Bool) (x : A) (p : ℕ)
        → Keeps q (enq_claim x p) (step k f q (enq_claim x p)).0 (step k f q (enq_claim x p)).1
    unfolding step
    enq_claim-Keeps f x p = elim (Bool-cases (q.head == p && not f)) [
      | inl won ↦
          let same : p ≡ q.head = ground arith in
          let next : size_add q.head 1 ≡ q.head + 1 = omega arith in
          rw (won, same, next) (claim_head-Keeps x)
      | inr lost ↦ rw lost (idle q (enq_claim x p) (enq_check x q.head) (λ c e. cc) (λ c e. cc))
    ]

    deq_claim-Keeps :
        (f : Bool) (p : ℕ)
        → Keeps q (deq_claim p) (step k f q (deq_claim p)).0 (step k f q (deq_claim p)).1
    unfolding step
    deq_claim-Keeps f p = elim (Bool-cases (q.tail == p && not f)) [
      | inl won ↦
          let same : p ≡ q.tail = ground arith in
          let next : size_add q.tail 1 ≡ q.tail + 1 = omega (arith, v.order) in
          rw (won, same, next) claim_tail-Keeps
      | inr lost ↦ rw lost (idle q (deq_claim p) (deq_check q.tail) (λ c e. cc) (λ c e. cc))
    ]

    pub step-Keeps :
        (f : Bool) (pc : Pc A) → Local k q h pc → Keeps q pc (step k f q pc).0 (step k f q pc).1
    unfolding step
    step-Keeps f (enq_load x) l = idle q _ _ (λ c e. cc) (λ c e. cc)
    step-Keeps f (enq_check x p) l = idle q _ _ (λ c e. cc) (λ c e. cc)
    step-Keeps f (enq_claim x p) l = enq_claim-Keeps f x p
    step-Keeps f (enq_write x p) l = record {
      written = λ c lt e. ground arith;
      read = λ c lt e. inr (lt, e, λ same. cc);
    }
    step-Keeps f (enq_publish x p) l =
        let next : size_add p 1 ≡ p + 1 = omega arith in rw next (publish-Keeps x p l.0 l.1)
    step-Keeps f (enq_done b) l = idle q _ _ (λ c e. cc) (λ c e. cc)
    step-Keeps f deq_load l = idle q _ _ (λ c e. cc) (λ c e. cc)
    step-Keeps f (deq_check p) l = idle q _ _ (λ c e. cc) (λ c e. cc)
    step-Keeps f (deq_claim p) l = deq_claim-Keeps f p
    step-Keeps f (deq_read p) l = record {
      written = λ c lt e. inr (lt, e, λ same. cc);
      read = λ c lt e. ground arith;
    }
    step-Keeps f (deq_release p x) l =
        let next : size_add p (2 ^ k) ≡ p + 2 ^ k = omega (arith, v.order) in
        rw next (release-Keeps x p l.0 l.1)
    step-Keeps f (deq_done o) l = idle q _ _ (λ c e. cc) (λ c e. cc)
