-- ===== src/Queue/Holders.antt =====
-- A slot that is in use has a thread that uses it: no slot is lost.
use market_data_parser.Common.{
  ℕ, ◌+◌, ◌^◌, ◌≤◌, ◌<◌, ◌≡◌, ◌≢◌, ap, ◌∙◌, inl, inr, true, some, arith,
}
use market_data_parser.Common.Update.{update, update_self, update_ne}
use market_data_parser.Queue.{
  MpmcQueue, Pc, enq_load, enq_done, deq_load, deq_done, index, construct,
}
use market_data_parser.Queue.Quiet.{two-le-pow}
use market_data_parser.Queue.Local.{produces, consumes}
use market_data_parser.Queue.Threads.{
  System, Step, access, call_enqueue, call_dequeue, Reach, start, later, is_over,
}
use market_data_parser.Queue.Invariant.{Inv}
use market_data_parser.Queue.Reachable.{Reach-Inv}
use market_data_parser.Queue.Keeping.{Keeps, idle, step-Keeps}

module _ {A : Type 0} (k : ℕ) where
  -- A slot at its own position, claimed, is being written; one past a position that is claimed by consumers
  -- is being read.
  pub record IsHeld (s : System A) : Type 0 where
    pub written :
        (p : ℕ)
        → p < s.queue.head
        → s.queue.sequences (index k p) ≡ p
        → (i : ℕ) × (produces (s.pc i) ≡ some p)
    pub read :
        (p : ℕ)
        → p < s.queue.tail
        → s.queue.sequences (index k p) ≡ p + 1
        → (i : ℕ) × (consumes (s.pc i) ≡ some p)

  -- One thread goes on, and the others keep their slots.
  go_on :
      (s : System A) (i : ℕ) (q : MpmcQueue A) (pc : Pc A) (h : ℕ → A)
      → IsHeld s
      → Keeps k s.queue (s.pc i) q pc
      → IsHeld (record { queue = q; pc = update s.pc i pc; history = h })
  go_on s i q pc h held keeps = record {
    written = λ p lt e. elim (keeps.written p lt e) [
      | inl own ↦ (i, ap produces (update_self s.pc i pc) ∙ own)
      | inr before ↦
          let (j, ej) = held.written p before.0 before.1 in
          let other : i ≢ j = λ same. before.2 (ap (λ t. produces (s.pc t)) same ∙ ej) in
          (j, ap produces (update_ne s.pc i j pc other) ∙ ej)
    ];
    read = λ p lt e. elim (keeps.read p lt e) [
      | inl own ↦ (i, ap consumes (update_self s.pc i pc) ∙ own)
      | inr before ↦
          let (j, ej) = held.read p before.0 before.1 in
          let other : i ≢ j = λ same. before.2 (ap (λ t. consumes (s.pc t)) same ∙ ej) in
          (j, ap consumes (update_ne s.pc i j pc other) ∙ ej)
    ];
  }

  over_holds_nothing :
      (pc : Pc A)
      → is_over pc ≡ true
      → ((c : ℕ) → produces pc ≢ some c) × ((c : ℕ) → consumes pc ≢ some c)
  over_holds_nothing (enq_done b) e = (λ c e. cc, λ c e. cc)
  over_holds_nothing (deq_done o) e = (λ c e. cc, λ c e. cc)
  over_holds_nothing pc e = absurd (ground (arith, e))

  Step-IsHeld :
      (two : 2 ≤ 2 ^ k) {s t : System A}
      → Inv k s
      → s.queue.head + 2 ^ k < 2 ^ 63
      → IsHeld s
      → Step k s t
      → IsHeld t
  Step-IsHeld two {s} inv far held (access i f es eh) =
      let e = step-Keeps k two s.queue s.history inv.coherent far f (s.pc i) (inv.local i) in
      go_on s i _ _ _ held (rw es at e)
  Step-IsHeld two {s} inv far held (call_enqueue i x over) =
      let (np, nc) = over_holds_nothing (s.pc i) over in
      go_on s i s.queue (enq_load x) s.history held (idle k s.queue (s.pc i) (enq_load x) np nc)
  Step-IsHeld two {s} inv far held (call_dequeue i over) =
      let (np, nc) = over_holds_nothing (s.pc i) over in
      go_on s i s.queue deq_load s.history held (idle k s.queue (s.pc i) deq_load np nc)

  -- In every state that is reached in fewer than 2^63 - 2^k accesses and calls, with a capacity of at least two: a
  -- slot that is claimed and not published has a producer that is between its claim and its last
  -- access, and a slot that is claimed by consumers and not released has such a consumer. So no slot is
  -- lost to a call that has ended.
  pub Reach-IsHeld : 1 ≤ k → {n : ℕ} {s : System A} → Reach k n s → n + 2 ^ k < 2 ^ 63 → IsHeld s
  unfolding construct
  Reach-IsHeld one (start buffer sequences h) far = record {
    written = λ p lt e. absurd (omega arith);
    read = λ p lt e. absurd (omega arith);
  }
  Reach-IsHeld one (later r st) far =
      let (inv, le) = Reach-Inv k one r (omega arith) in
      Step-IsHeld (two-le-pow k one) inv (omega arith) (Reach-IsHeld one r (omega arith)) st
