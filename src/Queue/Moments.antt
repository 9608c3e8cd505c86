-- ===== src/Queue/Moments.antt =====
-- Each access of step in include/mpmc_queue.hpp as a move of the bounded list of Queue/Spec: the
-- compare-exchange is the moment of a call.
use market_data_parser.Common.{
  ℕ, suc, ◌+◌, ◌-◌, ◌^◌, ◌≤◌, ◌<◌, ◌≡◌, refl, ap, ◌∙◌, inl, inr, Bool, true, not, ◌&&◌, ◌==◌,
  Bool-cases, [], ◌∷◌, some, arith,
}
use market_data_parser.Common.Update.{update}
use market_data_parser.Queue.{
  Pc, enq_load, enq_check, enq_claim, enq_write, enq_publish, enq_done, deq_load, deq_check,
  deq_claim, deq_read, deq_release, deq_done, step, index, size_add, checked_enqueue,
  checked_dequeue,
}
use market_data_parser.Queue.Quiet.{two-le-pow}
use market_data_parser.Queue.Shared.{claim_head-IsCoherent}
use market_data_parser.Queue.Threads.{System, Reach, note, event}
use market_data_parser.Queue.Reachable.{Reach-Inv}
use market_data_parser.Queue.Spec.{
  enqueue_returned, taken_out, dequeue_returned, puts_in, takes_out, enqueue_succeeds,
  dequeue_succeeds,
}
use market_data_parser.Queue.View.{
  from, status_of, view, length-from, from-update, status_of-update, status_of-becomes,
}
use market_data_parser.Queue.Moving.{Shown, went, becomes, unseen, enq_checked, deq_checked}

module _ {A : Type 0} (k : ℕ) (one : 1 ≤ k) {n : ℕ} {s : System A} (r : Reach k n s)
    (far : n + 2 ^ k < 2 ^ 63) (i : ℕ) where
  -- The claim of a producer puts the item in.
  enq_claimed :
      (x : A)
      → s.pc i ≡ enq_claim x s.queue.head
      → s.queue.sequences (index k s.queue.head) ≡ s.queue.head
      → Shown
          (2 ^ k)
          (view s)
          (view (
            went s i
              (record s.queue { head = s.queue.head + 1 })
              (enq_write x s.queue.head)
              (update s.history s.queue.head x)))
          []
  enq_claimed x at free =
      let (inv, le) = Reach-Inv k one r far in
      let v = inv.coherent in
      let two = two-le-pow k one in
      let q = s.queue in
      let room = (claim_head-IsCoherent k two q s.history v x free).fits in
      let one_more : q.head + 1 - q.tail ≡ suc (q.head - q.tail) = omega (arith, v.order) in
      (
        x ∷ [],
        [],
        puts_in i x (ap (status_of s.history) at)
            (omega (arith, length-from s.history q.tail (q.head - q.tail), room, v.order))
            (ap (from (update s.history q.head x) q.tail) one_more
              ∙ from-update s.history x (q.head - q.tail) q.tail q.head (omega (arith, v.order)))
            (status_of-becomes s.history (update s.history q.head x) s.pc i (enq_write x q.head)
              (λ j. status_of-update k q s.history x q.head (s.pc j) v.order (inv.local j))),
        refl,
      )

  -- The claim of a consumer takes the oldest item out.
  deq_claimed :
      s.pc i ≡ deq_claim s.queue.tail
      → s.queue.tail < s.queue.head
      → Shown
          (2 ^ k)
          (view s)
          (view (
            went s i
              (record s.queue { tail = s.queue.tail + 1 })
              (deq_read s.queue.tail)
              s.history))
          []
  deq_claimed at there =
      let q = s.queue in
      let one_less : q.head - q.tail ≡ suc (q.head - (q.tail + 1)) = omega arith in
      (
        [],
        s.history q.tail ∷ [],
        takes_out i (s.history q.tail) (ap (status_of s.history) at)
            (ap (from s.history q.tail) one_less)
            (becomes s i (record q { tail = q.tail + 1 }) (deq_read q.tail)
              (taken_out (s.history q.tail)) refl),
        refl,
      )

  enq_claim-Shown :
      (f : Bool) (x : A) (p : ℕ)
      → s.pc i ≡ enq_claim x p
      → Shown
          (2 ^ k)
          (view s)
          (view (
            went s i
              (step k f s.queue (enq_claim x p)).0
              (step k f s.queue (enq_claim x p)).1
              (note f s.queue (enq_claim x p) s.history)))
          (event i (enq_claim x p) (step k f s.queue (enq_claim x p)).1)
  unfolding step note
  enq_claim-Shown f x p at =
      let (inv, le) = Reach-Inv k one r far in
      let known = rw at at (inv.local i) in
      elim (Bool-cases (s.queue.head == p && not f)) [
        | inl won ↦
            let same : p ≡ s.queue.head = ground arith in
            let next : size_add s.queue.head 1 ≡ s.queue.head + 1 = omega arith in
            rw (won, same, next)
              (enq_claimed x (rw same at at) (rw same at (known.1 (omega arith))))
        | inr lost ↦
            rw lost (unseen s i s.queue (enq_claim x p) (enq_check x s.queue.head) at refl refl)
      ]

  deq_claim-Shown :
      (f : Bool) (p : ℕ)
      → s.pc i ≡ deq_claim p
      → Shown
          (2 ^ k)
          (view s)
          (view (
            went s i
              (step k f s.queue (deq_claim p)).0
              (step k f s.queue (deq_claim p)).1
              (note f s.queue (deq_claim p) s.history)))
          (event i (deq_claim p) (step k f s.queue (deq_claim p)).1)
  unfolding step note
  deq_claim-Shown f p at =
      let (inv, le) = Reach-Inv k one r far in
      let v = inv.coherent in
      let known = rw at at (inv.local i) in
      elim (Bool-cases (s.queue.tail == p && not f)) [
        | inl won ↦
            let same : p ≡ s.queue.tail = ground arith in
            let next : size_add s.queue.tail 1 ≡ s.queue.tail + 1 = omega (arith, v.order) in
            let ready : s.queue.sequences (index k p) ≡ p + 1 = known.1 (omega arith) in
            let there : s.queue.tail < s.queue.head = ground (arith, v.above p, ready, same) in
            rw (won, same, next) (deq_claimed (rw same at at) there)
        | inr lost ↦
            rw lost (unseen s i s.queue (deq_claim p) (deq_check s.queue.tail) at refl refl)
      ]

  pub access-Shown :
      (f : Bool) (pc : Pc A)
      → s.pc i ≡ pc
      → Shown
          (2 ^ k)
          (view s)
          (view (
            went s i (step k f s.queue pc).0 (step k f s.queue pc).1 (note f s.queue pc s.history)))
          (event i pc (step k f s.queue pc).1)
  unfolding step note checked_enqueue checked_dequeue
  access-Shown f (enq_load x) at = unseen s i s.queue (enq_load x) _ at refl refl
  access-Shown f (enq_check x p) at = enq_checked k one r far i x p at _ refl
  access-Shown f (enq_claim x p) at = enq_claim-Shown f x p at
  access-Shown f (enq_write x p) at =
      unseen s i (step k f s.queue (enq_write x p)).0 (enq_write x p) (enq_publish x p) at refl refl
  access-Shown f (enq_publish x p) at = (
    [],
    [],
    enqueue_succeeds i (ap (status_of s.history) at) refl (
        becomes s i (step k f s.queue (enq_publish x p)).0 (enq_done true) (enqueue_returned true)
          refl),
    refl,
  )
  access-Shown f (enq_done b) at = unseen s i s.queue (enq_done b) _ at refl refl
  access-Shown f deq_load at = unseen s i s.queue deq_load _ at refl refl
  access-Shown f (deq_check p) at = deq_checked k one r far i p at _ refl
  access-Shown f (deq_claim p) at = deq_claim-Shown f p at
  access-Shown f (deq_read p) at =
      let (inv, le) = Reach-Inv k one r far in
      let known = rw at at (inv.local i) in
      unseen s i s.queue (deq_read p) (deq_release p (s.queue.buffer (index k p))) at refl
        (ap taken_out (inv.coherent.items p known.1))
  access-Shown f (deq_release p x) at = (
    [],
    [],
    dequeue_succeeds i x (ap (status_of s.history) at) refl (
        becomes s i (step k f s.queue (deq_release p x)).0 (deq_done (some x))
          (dequeue_returned (some x)) refl),
    refl,
  )
  access-Shown f (deq_done o) at = unseen s i s.queue (deq_done o) _ at refl refl
