-- ===== src/Queue/Progress.antt =====
-- A thread that runs alone ends its call, wherever in it it stands and whatever calls of other threads are
-- under way.
use market_data_parser.Common.{
  ℕ, zero, suc, ◌+◌, ◌^◌, ◌≤◌, ◌<◌, ◌≡◌, refl, true, false, Bool-cases, inl, inr, replicate, ◌==◌,
  arith,
}
use market_data_parser.Queue.{
  MpmcQueue, Pc, enq_load, enq_check, enq_claim, enq_write, enq_publish, enq_done, deq_load,
  deq_check, deq_claim, deq_read, deq_release, deq_done, Verdict, claim, give_up, reload, index,
  branch_enqueue, branch_dequeue, step, run, checked_enqueue, checked_dequeue,
}
use market_data_parser.Queue.Slots.{compare_positions_lem}
use market_data_parser.Queue.Quiet.{two-le-pow}
use market_data_parser.Queue.Shared.{IsCoherent}
use market_data_parser.Queue.Threads.{System, is_over, Reach}
use market_data_parser.Queue.Reachable.{Reach-Inv}

module _ {A : Type 0} (k : ℕ) where
  -- The call is over after `n` steps with no other thread in between and no spurious failure.
  abbrev Ends : ℕ → MpmcQueue A → Pc A → Type 0
  Ends n q pc = is_over (run k (replicate n false) q pc).1 ≡ true

  Ends-suc : (n : ℕ) (q : MpmcQueue A) (pc : Pc A) → Ends n q pc → Ends (suc n) q pc
  unfolding run step
  Ends-suc zero q (enq_done b) e = refl
  Ends-suc zero q (deq_done o) e = refl
  Ends-suc zero q pc e = cc
  Ends-suc (suc n) q pc e = Ends-suc n (step k false q pc).0 (step k false q pc).1 e

  module _ (q : MpmcQueue A) (h : ℕ → A) (v : IsCoherent k q h) (far : q.head + 2 ^ k < 2 ^ 63)
      (two : 2 ≤ 2 ^ k) where
    -- The position at the end: its slot is free, or a consumer is not done with it.
    Ends-enq_head : (x : A) → Ends 4 q (enq_check x q.head)
    unfolding run step
    Ends-enq_head x =
        ground (arith, compare_positions_lem (q.sequences (index k q.head)) q.head, v.above q.head)

    Ends-deq_tail : Ends 4 q (deq_check q.tail)
    unfolding run step
    Ends-deq_tail = ground (
      arith,
      compare_positions_lem (q.sequences (index k q.tail)) (q.tail + 1),
      v.above q.tail,
      v.between q.tail,
      v.order,
    )

    Ends-enq_claim : (x : A) (p : ℕ) → Ends 5 q (enq_claim x p)
    unfolding run step
    Ends-enq_claim x p = elim (Bool-cases (q.head == p)) [
      | inl same ↦ rw same refl
      | inr moved ↦ rw moved (Ends-enq_head x)
    ]

    Ends-deq_claim : (p : ℕ) → Ends 5 q (deq_claim p)
    unfolding run step
    Ends-deq_claim p = elim (Bool-cases (q.tail == p)) [
      | inl same ↦ rw same refl
      | inr moved ↦ rw moved Ends-deq_tail
    ]

    Ends-branch_enqueue : (x : A) (p : ℕ) (b : Verdict) → Ends 5 q (branch_enqueue x p b)
    unfolding run step
    Ends-branch_enqueue x p claim = Ends-enq_claim x p
    Ends-branch_enqueue x p give_up = refl
    Ends-branch_enqueue x p reload = Ends-enq_head x

    Ends-branch_dequeue : (p : ℕ) (b : Verdict) → Ends 5 q (branch_dequeue p b)
    unfolding run step
    Ends-branch_dequeue p claim = Ends-deq_claim p
    Ends-branch_dequeue p give_up = refl
    Ends-branch_dequeue p reload = Ends-deq_tail

    Ends-six : (pc : Pc A) → Ends 6 q pc
    unfolding run step checked_enqueue checked_dequeue
    Ends-six (enq_load x) = Ends-suc 5 q (enq_load x) (Ends-enq_head x)
    Ends-six (enq_check x p) = Ends-branch_enqueue x p _
    Ends-six (enq_claim x p) = Ends-suc 5 q (enq_claim x p) (Ends-enq_claim x p)
    Ends-six (enq_write x p) = refl
    Ends-six (enq_publish x p) = refl
    Ends-six (enq_done b) = refl
    Ends-six deq_load = Ends-suc 5 q deq_load Ends-deq_tail
    Ends-six (deq_check p) = Ends-branch_dequeue p _
    Ends-six (deq_claim p) = Ends-suc 5 q (deq_claim p) (Ends-deq_claim p)
    Ends-six (deq_read p) = refl
    Ends-six (deq_release p x) = refl
    Ends-six (deq_done o) = refl

  -- No call waits for another thread: in every state that is reached, any thread, wherever in its call it
  -- stands, ends the call in at most six accesses of its own, if no other thread makes an access in between
  -- and no compare-exchange fails spuriously in them. The capacity is 2^k with k at least 1, and fewer than 2^63 - 2^k
  -- accesses and calls have been made.
  pub run-is_over :
      1 ≤ k
      → {n : ℕ} {s : System A} → Reach k n s
      → n + 2 ^ k < 2 ^ 63
      → (i : ℕ) → is_over (run k (replicate 6 false) s.queue (s.pc i)).1 ≡ true
  run-is_over one {n} {s} r far i =
      let (inv, le) = Reach-Inv k one r far in
      Ends-six s.queue s.history inv.coherent (omega arith) (two-le-pow k one) (s.pc i)
