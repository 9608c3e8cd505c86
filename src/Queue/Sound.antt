-- ===== src/Queue/Sound.antt =====
-- Every access of a thread keeps the shared memory coherent and every thread's knowledge true.
use market_data_parser.Common.{
  ℕ, ◌+◌, ◌^◌, ◌≤◌, ◌<◌, ◌≡◌, refl, sym, ◌∙◌, Bool, not, ◌&&◌, ◌==◌, Bool-cases, inl, inr, arith,
}
use market_data_parser.Common.Update.{update, update_self}
use market_data_parser.Queue.{
  MpmcQueue, Pc, enq_load, enq_check, enq_claim, enq_write, enq_publish, enq_done, deq_load,
  deq_check, deq_claim, deq_read, deq_release, deq_done, step, index, checked_enqueue,
  checked_dequeue, size_add,
}
use market_data_parser.Queue.Shared.{
  IsCoherent, claim_head-IsCoherent, write-IsCoherent, publish-IsCoherent, claim_tail-IsCoherent,
  release-IsCoherent,
}
use market_data_parser.Queue.Local.{
  Local, claim_head-Local, write-Local, publish-Local, claim_tail-Local, release-Local,
}
use market_data_parser.Queue.Threads.{note}
use market_data_parser.Queue.Effect.{
  compare_positions-claim, branch_dequeue-holds, Sound, silent, Outcome, branch_enqueue-Local,
  branch_enqueue-holds, branch_dequeue-Local,
}

module _ {A : Type 0} (k : ℕ) where
  module _ (two : 2 ≤ 2 ^ k) (q : MpmcQueue A) (h : ℕ → A) (v : IsCoherent k q h)
      (far : q.head + 2 ^ k < 2 ^ 63) where
    enq_check-Sound :
        (f : Bool) (x : A) (p : ℕ) → Local k q h (enq_check x p) → Outcome k q h (enq_check x p) f
    unfolding step note
    enq_check-Sound f x p l =
        silent k q h (enq_check x p) (checked_enqueue k q x p) v
          (branch_enqueue-Local k q h x p _ l (
            compare_positions-claim (q.sequences (index k p)) p (omega (arith, v.small p))
              (omega arith)))
          (λ c e. absurd ((branch_enqueue-holds k x p c _).0 e))
          (λ c e. absurd ((branch_enqueue-holds k x p c _).1 e))

    deq_check-Sound : (f : Bool) (p : ℕ) → Local k q h (deq_check p) → Outcome k q h (deq_check p) f
    unfolding step note
    deq_check-Sound f p l =
        silent k q h (deq_check p) (checked_dequeue k q p) v
          (branch_dequeue-Local k q h p _ l (λ e.
            compare_positions-claim (q.sequences (index k p)) (size_add p 1)
              (omega (arith, v.small p)) (omega arith) e
            ∙ omega (arith, v.order)))
          (λ c e. absurd ((branch_dequeue-holds A p c _).0 e))
          (λ c e. absurd ((branch_dequeue-holds A p c _).1 e))

    claim_head-Sound :
        (x : A)
        → q.sequences (index k q.head) ≡ q.head
        → Sound k q h
            (enq_claim x q.head)
            (record q { head = q.head + 1 })
            (update h q.head x)
            (enq_write x q.head)
    claim_head-Sound x free = record {
      coherent = claim_head-IsCoherent k two q h v x free;
      own = (omega arith, free, update_self h q.head x);
      others = λ o dp dc l. claim_head-Local k two q h v x o l;
      production = λ c e. inr (ground arith);
      consumption = λ c e. cc;
      head_step = omega arith;
      head_rises = omega arith;
      tail_rises = omega arith;
      kept = λ c lt. ground arith;
    }

    enq_claim-Sound :
        (f : Bool) (x : A) (p : ℕ) → Local k q h (enq_claim x p) → Outcome k q h (enq_claim x p) f
    unfolding step note
    enq_claim-Sound f x p l = elim (Bool-cases (q.head == p && not f)) [
      | inl won ↦
          let same : p ≡ q.head = ground arith in
          let next : size_add q.head 1 ≡ q.head + 1 = omega arith in
          rw (won, same, next) (claim_head-Sound x (rw same at (l.1 (omega arith))))
      | inr lost ↦ rw lost (
          silent k q h (enq_claim x p) (enq_check x q.head) v (omega arith) (λ c e. cc) (λ c e. cc))
    ]

    claim_tail-Sound :
        q.sequences (index k q.tail) ≡ q.tail + 1
        → Sound k q h (deq_claim q.tail) (record q { tail = q.tail + 1 }) h (deq_read q.tail)
    claim_tail-Sound ready = record {
      coherent = claim_tail-IsCoherent k two q h v ready;
      own = (omega arith, ready);
      others = λ o dp dc l. claim_tail-Local k two q h v o l;
      production = λ c e. cc;
      consumption = λ c e. inr (ground arith);
      head_step = omega arith;
      head_rises = omega arith;
      tail_rises = omega arith;
      kept = λ c lt. refl;
    }

    deq_claim-Sound : (f : Bool) (p : ℕ) → Local k q h (deq_claim p) → Outcome k q h (deq_claim p) f
    unfolding step note
    deq_claim-Sound f p l = elim (Bool-cases (q.tail == p && not f)) [
      | inl won ↦
          let same : p ≡ q.tail = ground arith in
          let next : size_add q.tail 1 ≡ q.tail + 1 = omega (arith, v.order) in
          rw (won, same, next) (claim_tail-Sound (rw same at (l.1 (omega arith))))
      | inr lost ↦
          rw lost
            (silent k q h (deq_claim p) (deq_check q.tail) v (omega arith) (λ c e. cc) (λ c e. cc))
    ]

    enq_write-Sound :
        (f : Bool) (x : A) (p : ℕ) → Local k q h (enq_write x p) → Outcome k q h (enq_write x p) f
    unfolding step note
    enq_write-Sound f x p l = record {
      coherent = write-IsCoherent k two q h v p x l.1;
      own = (l.0, l.1, l.2, update_self q.buffer (index k p) x);
      others = λ o dp dc lo. write-Local k two q h v x p o l.1 (dp p refl) lo;
      production = λ c e. inl e;
      consumption = λ c e. cc;
      head_step = omega arith;
      head_rises = omega arith;
      tail_rises = omega arith;
      kept = λ c lt. refl;
    }

    enq_publish-Sound :
        (f : Bool) (x : A) (p : ℕ)
        → Local k q h (enq_publish x p)
        → Outcome k q h (enq_publish x p) f
    unfolding step note
    enq_publish-Sound f x p l =
        let next : size_add p 1 ≡ p + 1 = omega arith in
        rw next (record {
          coherent = publish-IsCoherent k two q h v p l.0 l.1 (l.3 ∙ sym l.2);
          own = tt;
          others = λ o dp dc lo. publish-Local k two q h v p o l.0 l.1 (dp p refl) lo;
          production = λ c e. cc;
          consumption = λ c e. cc;
          head_step = omega arith;
          head_rises = omega arith;
          tail_rises = omega arith;
          kept = λ c lt. refl;
        })

    deq_read-Sound : (f : Bool) (p : ℕ) → Local k q h (deq_read p) → Outcome k q h (deq_read p) f
    unfolding step note
    deq_read-Sound f p l =
        silent k q h (deq_read p) (deq_release p (q.buffer (index k p))) v
          (l.0, l.1, sym (v.items p l.1)) (λ c e. cc) (λ c e. e)

    deq_release-Sound :
        (f : Bool) (p : ℕ) (x : A)
        → Local k q h (deq_release p x)
        → Outcome k q h (deq_release p x) f
    unfolding step note
    deq_release-Sound f p x l =
        let next : size_add p (2 ^ k) ≡ p + 2 ^ k = omega (arith, v.order) in
        rw next (record {
          coherent = release-IsCoherent k two q h v p l.0 l.1;
          own = tt;
          others = λ o dp dc lo. release-Local k two q h v p o l.0 l.1 (dc p refl) lo;
          production = λ c e. cc;
          consumption = λ c e. cc;
          head_step = omega arith;
          head_rises = omega arith;
          tail_rises = omega arith;
          kept = λ c lt. refl;
        })

    pub step-Sound : (f : Bool) (p : Pc A) → Local k q h p → Outcome k q h p f
    unfolding step note
    step-Sound f (enq_load x) l =
        silent k q h (enq_load x) (enq_check x q.head) v (omega arith) (λ c e. cc) (λ c e. cc)
    step-Sound f (enq_check x p) l = enq_check-Sound f x p l
    step-Sound f (enq_claim x p) l = enq_claim-Sound f x p l
    step-Sound f (enq_write x p) l = enq_write-Sound f x p l
    step-Sound f (enq_publish x p) l = enq_publish-Sound f x p l
    step-Sound f (enq_done b) l = silent k q h (enq_done b) (enq_done b) v tt (λ c e. e) (λ c e. e)
    step-Sound f deq_load l =
        silent k q h deq_load (deq_check q.tail) v (omega arith) (λ c e. cc) (λ c e. cc)
    step-Sound f (deq_check p) l = deq_check-Sound f p l
    step-Sound f (deq_claim p) l = deq_claim-Sound f p l
    step-Sound f (deq_read p) l = deq_read-Sound f p l
    step-Sound f (deq_release p x) l = deq_release-Sound f p x l
    step-Sound f (deq_done o) l = silent k q h (deq_done o) (deq_done o) v tt (λ c e. e) (λ c e. e)
