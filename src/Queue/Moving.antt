-- ===== src/Queue/Moving.antt =====
-- An access as a move of the bounded list of Queue/Spec: the accesses that the list does not see, and why
-- a call fails.
use market_data_parser.Common.{
  ℕ, ◌+◌, ◌-◌, ◌^◌, ◌≤◌, ◌<◌, ◌≡◌, refl, sym, ap, ◌∙◌, ◌⊎◌, inl, inr, true, false, List, [], length,
  none, arith,
}
use market_data_parser.Common.Update.{update, update_self, update_ne}
use market_data_parser.Queue.{
  MpmcQueue, Pc, enq_load, enq_check, enq_claim, enq_done, deq_load, deq_check, deq_claim, deq_done,
  index, size_add, checked_enqueue, checked_dequeue, compare_positions, branch_enqueue,
  branch_dequeue, Verdict, claim, give_up, reload,
}
use market_data_parser.Queue.Quiet.{two-le-pow}
use market_data_parser.Queue.Threads.{System, Reach, is_over, event}
use market_data_parser.Queue.Reachable.{Reach-Inv}
use market_data_parser.Queue.Holders.{Reach-IsHeld}
use market_data_parser.Queue.Answers.{checked_dequeue-deq_done, checked_enqueue-enq_done}
use market_data_parser.Queue.Spec.{
  Status, put_in, enqueue_returned, taken_out, dequeue_returned, Buffer, Becomes, IsOver, Move,
  Event, visible, stays, enqueue_fails, dequeue_fails,
}
use market_data_parser.Queue.View.{
  from, status_of, queued, view, length-from, status_of-produces, status_of-consumes,
  status_of-becomes,
}
use native.Mathlib.Decide.{ℕ_discrete, dec_lt}

module _ {A : Type 0} where
  -- A move, whatever it puts in and takes out.
  abbrev pub Moved : ℕ → Buffer A → Buffer A → Type 0
  Moved capacity b c = (xs : List A) × (ys : List A) × Move capacity b xs ys c

  -- A move of which the callers see these events.
  abbrev pub Shown : ℕ → Buffer A → Buffer A → List (Event A) → Type 0
  Shown capacity b c es =
      (xs : List A) × (ys : List A) × (m : Move capacity b xs ys c) × (visible m ≡ es)

  pub IsOver-is_over : (h : ℕ → A) (pc : Pc A) → is_over pc ≡ true → IsOver (status_of h pc)
  IsOver-is_over h (enq_done b) e = tt
  IsOver-is_over h (deq_done o) e = tt
  IsOver-is_over h pc e = absurd (ground (arith, e))

  update-unchanged :
      (f : ℕ → Status A) (i : ℕ) (st : Status A) → st ≡ f i → (j : ℕ) → update f i st j ≡ f j
  update-unchanged f i st e j = elim (ℕ_discrete i j) [
    | yes same ↦ rw (← same) (update_self f i st ∙ e)
    | no other ↦ update_ne f i j st other
  ]

module _ {A : Type 0} (s : System A) (i : ℕ) where
  -- The state after thread `i` went on.
  abbrev pub went : MpmcQueue A → Pc A → (ℕ → A) → System A
  went q pc h = record { queue = q; pc = update s.pc i pc; history = h }

  pub becomes :
      (q : MpmcQueue A) (pc : Pc A) (st : Status A)
      → status_of s.history pc ≡ st
      → Becomes (view s) i st (view (went q pc s.history))
  becomes q pc st e j =
      status_of-becomes s.history s.history s.pc i pc (λ t. refl) j
      ∙ ap (λ x. update (view s).status i x j) e

  -- An access that the list does not see.
  pub unseen :
      {capacity : ℕ} (q : MpmcQueue A) (pc pc' : Pc A)
      → s.pc i ≡ pc
      → queued q s.history ≡ queued s.queue s.history
      → status_of s.history pc' ≡ status_of s.history pc
      → Shown capacity (view s) (view (went q pc' s.history)) []
  unseen q pc pc' at same e = (
    [],
    [],
    stays same (λ j.
        becomes q pc' (status_of s.history pc') refl j
        ∙ update-unchanged (view s).status i (status_of s.history pc')
            (e ∙ ap (status_of s.history) (sym at)) j),
    refl,
  )

module _ {A : Type 0} (k : ℕ) (one : 1 ≤ k) {n : ℕ} {s : System A} (r : Reach k n s)
    (far : n + 2 ^ k < 2 ^ 63) (i : ℕ) where
  full_or_busy :
      (x : A) (p : ℕ)
      → s.pc i ≡ enq_check x p
      → checked_enqueue k s.queue x p ≡ enq_done false
      → (length (view s).items ≡ 2 ^ k) ⊎ ((j : ℕ) × (y : A) × ((view s).status j ≡ taken_out y))
  full_or_busy x p at e =
      let (inv, le) = Reach-Inv k one r far in
      let v = inv.coherent in
      let (old, behind, used) = checked_enqueue-enq_done k one r far i p x at e in
      elim (dec_lt old s.queue.tail) [
        | yes gone ↦
            let reading : s.queue.sequences (index k old) ≡ old + 1 =
              ground (arith, v.below old, two-le-pow k one) in
            let (j, ej) = (Reach-IsHeld k one r far).read old gone reading in
            let (y, ey) = status_of-consumes s.history (s.pc j) old ej in inr (j, y, ey)
        | no there ↦ inl (
            length-from s.history s.queue.tail (s.queue.head - s.queue.tail)
            ∙ omega (arith, v.fits))
      ]

  empty_or_busy :
      (p : ℕ)
      → s.pc i ≡ deq_check p
      → checked_dequeue k s.queue p ≡ deq_done none
      → ((view s).items ≡ []) ⊎ ((j : ℕ) × ((view s).status j ≡ put_in))
  empty_or_busy p at e =
      let (inv, le) = Reach-Inv k one r far in
      elim (dec_lt s.queue.tail s.queue.head) [
        | yes there ↦
            let writing : s.queue.sequences (index k s.queue.tail) ≡ s.queue.tail =
              ground (arith, checked_dequeue-deq_done k one r far i p at e) in
            let (j, ej) = (Reach-IsHeld k one r far).written s.queue.tail there writing in
            inr (j, status_of-produces s.history (s.pc j) s.queue.tail ej)
        | no none_there ↦
            let nothing : s.queue.head - s.queue.tail ≡ 0 = omega arith in
            inl (ap (from s.history s.queue.tail) nothing)
      ]

  pub enq_checked :
      (x : A) (p : ℕ)
      → s.pc i ≡ enq_check x p
      → (w : Verdict) → compare_positions (s.queue.sequences (index k p)) p ≡ w
      → Shown
          (2 ^ k)
          (view s)
          (view (went s i s.queue (branch_enqueue x p w) s.history))
          (event i (enq_check x p) (branch_enqueue x p w))
  unfolding checked_enqueue
  enq_checked x p at claim e = unseen s i s.queue (enq_check x p) (enq_claim x p) at refl refl
  enq_checked x p at reload e = unseen s i s.queue (enq_check x p) (enq_load x) at refl refl
  enq_checked x p at give_up e = (
    [],
    [],
    enqueue_fails i x (ap (status_of s.history) at)
        (full_or_busy x p at (ap (branch_enqueue x p) e)) refl
        (becomes s i s.queue (enq_done false) (enqueue_returned false) refl),
    refl,
  )

  pub deq_checked :
      (p : ℕ)
      → s.pc i ≡ deq_check p
      → (w : Verdict) → compare_positions (s.queue.sequences (index k p)) (size_add p 1) ≡ w
      → Shown
          (2 ^ k)
          (view s)
          (view (went s i s.queue (branch_dequeue p w) s.history))
          (event i (deq_check p) (branch_dequeue p w))
  unfolding checked_dequeue
  deq_checked p at claim e = unseen s i s.queue (deq_check p) (deq_claim p) at refl refl
  deq_checked p at reload e = unseen s i s.queue (deq_check p) deq_load at refl refl
  deq_checked p at give_up e = (
    [],
    [],
    dequeue_fails i (ap (status_of s.history) at) (empty_or_busy p at (ap (branch_dequeue p) e))
        refl (becomes s i s.queue (deq_done none) (dequeue_returned none) refl),
    refl,
  )
