-- ===== src/Queue/View.antt =====
-- A reached state seen as the bounded list of Queue/Spec: an item is in the list from the moment at which a
-- producer claims its position to the moment at which a consumer claims it.
use market_data_parser.Common.{
  ℕ, zero, suc, ◌+◌, ◌-◌, ◌≤◌, ◌≡◌, refl, sym, ap, ap₂, ◌∙◌, List, [], ◌∷◌, ◌++◌, length, some,
  arith,
}
use market_data_parser.Common.Update.{update, update_self, update_ne}
use market_data_parser.Queue.{
  MpmcQueue, Pc, enq_load, enq_check, enq_claim, enq_write, enq_publish, enq_done, deq_load,
  deq_check, deq_claim, deq_read, deq_release, deq_done,
}
use market_data_parser.Queue.Local.{Local, produces, consumes}
use market_data_parser.Queue.Threads.{System}
use market_data_parser.Queue.Spec.{
  Status, enqueueing, put_in, enqueue_returned, dequeueing, taken_out, dequeue_returned, Buffer,
}
use native.Mathlib.Decide.{ℕ_discrete}

module _ {A : Type 0} where
  -- The `n` items from position `p` on.
  abbrev pub from : (ℕ → A) → ℕ → ℕ → List A
  from h p zero = []
  from h p (suc n) = h p ∷ from h (p + 1) n

  abbrev pub status_of : (ℕ → A) → Pc A → Status A
  status_of h (enq_load x) = enqueueing x
  status_of h (enq_check x p) = enqueueing x
  status_of h (enq_claim x p) = enqueueing x
  status_of h (enq_write x p) = put_in
  status_of h (enq_publish x p) = put_in
  status_of h (enq_done b) = enqueue_returned b
  status_of h deq_load = dequeueing
  status_of h (deq_check p) = dequeueing
  status_of h (deq_claim p) = dequeueing
  status_of h (deq_read p) = taken_out (h p)
  status_of h (deq_release p x) = taken_out x
  status_of h (deq_done o) = dequeue_returned o

  abbrev pub queued : MpmcQueue A → (ℕ → A) → List A
  queued q h = from h q.tail (q.head - q.tail)

  abbrev pub view : System A → Buffer A
  view s = record { items = queued s.queue s.history; status = λ i. status_of s.history (s.pc i) }

  pub length-from : (h : ℕ → A) (p n : ℕ) → length (from h p n) ≡ n
  length-from h p zero = refl
  length-from h p (suc n) = ap suc (length-from h (p + 1) n)

  -- One more item at the end.
  pub from-update :
      (h : ℕ → A) (x : A) (n p e : ℕ)
      → p + n ≡ e
      → from (update h e x) p (suc n) ≡ from h p n ++ (x ∷ [])
  from-update h x zero p e at =
      let same : e ≡ p = omega arith in rw same (ap (λ y. y ∷ []) (update_self h p x))
  from-update h x (suc n) p e at =
      ap₂ ◌∷◌ (update_ne h e p x (λ same. omega arith)) (from-update h x n (p + 1) e (omega arith))

  -- What a thread has taken out does not change when a later position is claimed.
  pub status_of-update :
      (k : ℕ) (q : MpmcQueue A) (h : ℕ → A) (x : A) (e : ℕ) (pc : Pc A)
      → q.tail ≤ e
      → Local k q h pc
      → status_of (update h e x) pc ≡ status_of h pc
  status_of-update k q h x e (deq_read p) le l =
      ap taken_out (update_ne h e p x (λ same. omega arith))
  status_of-update k q h x e pc le l = refl

  -- A producer that holds a position has put its item in, a consumer has taken its out.
  pub status_of-produces :
      (h : ℕ → A) (pc : Pc A) (c : ℕ) → produces pc ≡ some c → status_of h pc ≡ put_in
  status_of-produces h (enq_write x p) c e = refl
  status_of-produces h (enq_publish x p) c e = refl
  status_of-produces h pc c e = cc

  pub status_of-consumes :
      (h : ℕ → A) (pc : Pc A) (c : ℕ)
      → consumes pc ≡ some c
      → (y : A) × (status_of h pc ≡ taken_out y)
  status_of-consumes h (deq_read p) c e = (h p, refl)
  status_of-consumes h (deq_release p x) c e = (x, refl)
  status_of-consumes h pc c e = cc

  -- The statuses after one thread went on.
  pub status_of-becomes :
      (h h' : ℕ → A) (pcs : ℕ → Pc A) (i : ℕ) (pc : Pc A)
      → ((j : ℕ) → status_of h' (pcs j) ≡ status_of h (pcs j))
      → (j : ℕ)
      → status_of h' (update pcs i pc j) ≡ update (λ t. status_of h (pcs t)) i (status_of h' pc) j
  status_of-becomes h h' pcs i pc others j = elim (ℕ_discrete i j) [
    | yes same ↦ rw (← same) (
        ap (status_of h') (update_self pcs i pc)
        ∙ sym (update_self (λ t. status_of h (pcs t)) i (status_of h' pc)))
    | no other ↦
        ap (status_of h') (update_ne pcs i j pc other)
        ∙ others j
        ∙ sym (update_ne (λ t. status_of h (pcs t)) i j (status_of h' pc) other)
  ]
