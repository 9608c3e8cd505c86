-- ===== src/Queue/Answers.antt =====
-- When threads that share a queue are told that it is full, or empty.
use market_data_parser.Common.{ℕ, ◌+◌, ◌-◌, ◌∙◌, ap, ◌^◌, ◌≤◌, ◌<◌, ◌≡◌, ◌⊎◌, false, none, arith}
use market_data_parser.Queue.{
  enq_check, enq_done, deq_check, deq_done, index, size_add, checked_enqueue, checked_dequeue,
  branch_enqueue, branch_dequeue, compare_positions, Verdict, claim, give_up, reload,
}
use market_data_parser.Queue.Slots.{compare_positions_lem, index-add}
use market_data_parser.Queue.Quiet.{two-le-pow}
use market_data_parser.Queue.Threads.{System, Reach}
use market_data_parser.Queue.Reachable.{Reach-Inv}

compare_positions-give_up :
    (a b : ℕ) → a < 2 ^ 63 → b < 2 ^ 63 → compare_positions a b ≡ give_up → a < b
compare_positions-give_up a b ha hb e = ground (arith, compare_positions_lem a b ha hb)

module _ {A : Type 0} where
  branch_enqueue-enq_done :
      (x : A) (p : ℕ) (w : Verdict) → branch_enqueue x p w ≡ enq_done false → w ≡ give_up
  branch_enqueue-enq_done x p claim e = absurd (ground arith)
  branch_enqueue-enq_done x p give_up e = λ i. give_up
  branch_enqueue-enq_done x p reload e = absurd (ground arith)

  branch_dequeue-deq_done :
      (p : ℕ) (w : Verdict) → branch_dequeue {A = A} p w ≡ deq_done none → w ≡ give_up
  branch_dequeue-deq_done p claim e = absurd (ground arith)
  branch_dequeue-deq_done p give_up e = λ i. give_up
  branch_dequeue-deq_done p reload e = absurd (ground arith)

module _ {A : Type 0} (k : ℕ) (one : 1 ≤ k) {n : ℕ} {s : System A} (r : Reach k n s)
    (far : n + 2 ^ k < 2 ^ 63) (i p : ℕ) where
  -- When `try_dequeue` decides to return false: at that moment no position is claimed by producers and
  -- not by consumers, or the next one to dequeue is claimed and not published yet. The capacity is at least
  -- two, and the state is reached in fewer than 2^63 - 2^k accesses and calls.
  pub checked_dequeue-deq_done :
      s.pc i ≡ deq_check p
      → checked_dequeue k s.queue p ≡ deq_done none
      → (s.queue.tail ≡ s.queue.head) ⊎ (s.queue.sequences (index k s.queue.tail) ≡ s.queue.tail)
  unfolding checked_dequeue
  checked_dequeue-deq_done at e =
      let (inv, le) = Reach-Inv k one r far in
      let v = inv.coherent in
      let known : p ≤ s.queue.tail = rw at at (inv.local i) in
      let next : size_add p 1 ≡ p + 1 = omega (arith, v.order, two-le-pow k one) in
      let behind : s.queue.sequences (index k p) < size_add p 1 =
        compare_positions-give_up (s.queue.sequences (index k p)) (size_add p 1)
          (omega (arith, v.small p)) (omega (arith, v.order, two-le-pow k one))
          (branch_dequeue-deq_done p _ e) in
      ground (arith, v.below p, v.between s.queue.tail, v.order)

  -- When `try_enqueue` decides to return false: at that moment the next position to enqueue is a capacity
  -- after one whose slot is still in use, claimed and not published yet, or published and not released.
  -- The capacity is at least two, and the state is reached in fewer than 2^63 - 2^k accesses and calls.
  pub checked_enqueue-enq_done :
      (x : A)
      → s.pc i ≡ enq_check x p
      → checked_enqueue k s.queue x p ≡ enq_done false
      → (old : ℕ) × (old + 2 ^ k ≡ s.queue.head)
        × ((s.queue.sequences (index k old) ≡ old) ⊎ (s.queue.sequences (index k old) ≡ old + 1))
  unfolding checked_enqueue
  checked_enqueue-enq_done x at e =
      let (inv, le) = Reach-Inv k one r far in
      let v = inv.coherent in
      let known : p ≤ s.queue.head = rw at at (inv.local i) in
      let behind : s.queue.sequences (index k p) < p =
        compare_positions-give_up (s.queue.sequences (index k p)) p (omega (arith, v.small p))
          (omega arith) (branch_enqueue-enq_done x p _ e) in
      let last : p ≡ s.queue.head = ground (arith, v.below p, v.between p) in
      let later_round : 2 ^ k ≤ p = ground (arith, v.fresh p) in
      let old = p - 2 ^ k in
      let back : old + 2 ^ k ≡ p = omega arith in
      let slot : index k p ≡ index k old = rw back at (index-add k old) in
      let same : s.queue.sequences (index k p) ≡ s.queue.sequences (index k old) =
        ap s.queue.sequences slot in
      (old, back ∙ last, ground (arith, v.below old, v.between old, two-le-pow k one, back))
