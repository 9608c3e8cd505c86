-- ===== src/Queue/Safety.antt =====
-- What threads that share a queue can rely on, in every state that can be reached.
use market_data_parser.Common.{
  ℕ, ◌+◌, ◌-◌, ◌^◌, ◌≤◌, ◌<◌, ◌≡◌, refl, sym, ap, ◌∙◌, Option, none, some, inl, inr, ◌⊎◌, arith,
}
use market_data_parser.Queue.{
  MpmcQueue, Pc, enq_load, enq_write, enq_publish, deq_read, deq_release, index, size,
}
use market_data_parser.Queue.Quiet.{two-le-pow}
use market_data_parser.Queue.Slots.{index-apart}
use market_data_parser.Queue.Local.{produces, consumes, Local}
use market_data_parser.Queue.Threads.{System, Reach, Steps}
use market_data_parser.Queue.Invariant.{Inv, produces-lt, consumes-lt}
use market_data_parser.Queue.Reachable.{Reach-Inv}
use market_data_parser.Queue.Onward.{Steps-Reach, Steps-Onward}

module _ {A : Type 0} where
  -- The slot that a thread has to itself: from the exchange that claims the position to the store
  -- that hands the slot on.
  unfoldable pub held_slot : ℕ → Pc A → Option ℕ
  held_slot k (enq_write item pos) = some (index k pos)
  held_slot k (enq_publish item pos) = some (index k pos)
  held_slot k (deq_read pos) = some (index k pos)
  held_slot k (deq_release pos item) = some (index k pos)
  held_slot k pc = none

pub data Side : Type 0 where
  producer consumer : Side

module _ {A : Type 0} where
  -- The position that a thread has claimed on a side and not yet handed on, and the next one to claim.
  abbrev pub held : Side → Pc A → Option ℕ
  held producer pc = produces pc
  held consumer pc = consumes pc

  abbrev pub front : Side → MpmcQueue A → ℕ
  front producer q = q.head
  front consumer q = q.tail

module _ {A : Type 0} (k : ℕ) where
  held_slot-cases :
      (pc : Pc A) (c : ℕ)
      → held_slot k pc ≡ some c
      → (p : ℕ) × (index k p ≡ c) × ((produces pc ≡ some p) ⊎ (consumes pc ≡ some p))
  unfolding held_slot
  held_slot-cases (enq_write item pos) c e = (pos, cc, inl refl)
  held_slot-cases (enq_publish item pos) c e = (pos, cc, inl refl)
  held_slot-cases (deq_read pos) c e = (pos, cc, inr refl)
  held_slot-cases (deq_release pos item) c e = (pos, cc, inr refl)
  held_slot-cases pc c e = absurd (ground arith)

  produces-sequence :
      (q : MpmcQueue A) (h : ℕ → A) (pc : Pc A) (p : ℕ)
      → Local k q h pc
      → produces pc ≡ some p
      → q.sequences (index k p) ≡ p
  produces-sequence q h (enq_load x) p l e = cc
  produces-sequence q h pc p l e = ground arith

  consumes-sequence :
      (q : MpmcQueue A) (h : ℕ → A) (pc : Pc A) (p : ℕ)
      → Local k q h pc
      → consumes pc ≡ some p
      → q.sequences (index k p) ≡ p + 1
  consumes-sequence q h (enq_load x) p l e = cc
  consumes-sequence q h pc p l e = ground arith

  -- Holders of positions with one slot are the same thread: the sequence of the slot tells the
  -- position, and whether a producer or a consumer has it.
  holders-same :
      (one : 1 ≤ k) (s : System A) (inv : Inv k s) (i j p p' : ℕ)
      → index k p ≡ index k p'
      → (produces (s.pc i) ≡ some p) ⊎ (consumes (s.pc i) ≡ some p)
      → (produces (s.pc j) ≡ some p') ⊎ (consumes (s.pc j) ≡ some p')
      → i ≡ j
  holders-same one s inv i j p p' slots hi hj =
      let own = λ (l p : ℕ). produces-sequence s.queue s.history (s.pc l) p (inv.local l) in
      let ready = λ (l p : ℕ). consumes-sequence s.queue s.history (s.pc l) p (inv.local l) in
      let sequences : s.queue.sequences (index k p) ≡ s.queue.sequences (index k p') =
        ap s.queue.sequences slots in
      ground (
        arith,
        own i p,
        own j p',
        ready i p,
        ready j p',
        two-le-pow k one,
        index-apart k p p',
        index-apart k p' p,
        inv.producer i j p,
        inv.consumer i j p,
      )

  module _ (one : 1 ≤ k) {n : ℕ} {s : System A} (r : Reach k n s) (far : n + 2 ^ k < 2 ^ 63) where
    -- Two threads that hold the same slot are the same thread: between a successful compare-exchange
    -- and the store that hands the slot on, no other producer or consumer uses the slot. The capacity is
    -- at least two, and the state is any that is reached in fewer than 2^63 - 2^k accesses and calls.
    pub held_slot-exclusive :
        (i j c : ℕ) → held_slot k (s.pc i) ≡ some c → held_slot k (s.pc j) ≡ some c → i ≡ j
    held_slot-exclusive i j c ei ej =
        let (inv, le) = Reach-Inv k one r far in
        let (p, ep, hp) = held_slot-cases (s.pc i) c ei in
        let (p', ep', hp') = held_slot-cases (s.pc j) c ej in
        holders-same one s inv i j p p' (ep ∙ sym ep') hp hp'

    -- In a reached state the counters are in order and at most a capacity apart, so `size`, on values
    -- that both counters have at one moment, is the number of positions claimed by producers and not
    -- by consumers, and is at most the capacity. The capacity is at least two, and the state is reached
    -- in fewer than 2^63 - 2^k accesses and calls.
    pub size-bounds :
        (s.queue.tail ≤ s.queue.head)
        × (size s.queue ≡ s.queue.head - s.queue.tail)
        × (size s.queue ≤ 2 ^ k)
    unfolding size
    size-bounds =
        let (inv, le) = Reach-Inv k one r far in
        (
          inv.coherent.order,
          omega (arith, inv.coherent.order),
          omega (arith, inv.coherent.order, inv.coherent.fits),
        )

  module _ (one : 1 ≤ k) {n : ℕ} {s : System A} {m : ℕ} {t : System A} (r : Reach k n s)
      (ss : Steps k s m t) (far : m + n + 2 ^ k < 2 ^ 63) where
    -- Whatever accesses and calls of any threads come between, the thread that has read position `p` in
    -- a dequeue has the item of the thread that claimed `p` in an enqueue. The capacity is at least two,
    -- and there are fewer than 2^63 - 2^k accesses and calls in all.
    pub deq_release-enq_write :
        (i j p : ℕ) (x y : A) → s.pc i ≡ enq_write x p → t.pc j ≡ deq_release p y → y ≡ x
    deq_release-enq_write i j p x y ei ej =
        let (inv, le) = Reach-Inv k one r (omega arith) in
        let (inv', le') = Reach-Inv k one (Steps-Reach k r ss) far in
        let (lt, own, held) = rw ei at (inv.local i) in
        let (lt', own', read) = rw ej at (inv'.local j) in
        sym read ∙ (Steps-Onward k one r ss far).kept p lt ∙ held

    -- A position is handed out once: below `head_` no producer gets it again, and below `tail_` no
    -- consumer does. A thread that has it after any further accesses and calls had it all along. The
    -- capacity is at least two, and there are fewer than 2^63 - 2^k accesses and calls in all.
    pub positions-once :
        (side : Side) (i p : ℕ)
        → p < front side s.queue
        → held side (t.pc i) ≡ some p
        → held side (s.pc i) ≡ some p
    positions-once producer i p lt e =
        let on = Steps-Onward k one r ss far in ground (arith, on.production i p)
    positions-once consumer i p lt e =
        let on = Steps-Onward k one r ss far in ground (arith, on.consumption i p)

    -- Positions are handed out in increasing order: what a producer has later it had before, or it is
    -- after every position that a producer had before; and so for consumers. The capacity is at least
    -- two, and there are fewer than 2^63 - 2^k accesses and calls in all.
    pub positions-ordered :
        (side : Side) (i j p p' : ℕ)
        → held side (s.pc i) ≡ some p
        → held side (t.pc j) ≡ some p'
        → (held side (s.pc j) ≡ some p') ⊎ (p < p')
    positions-ordered producer i j p p' e e' =
        let on = Steps-Onward k one r ss far in
        let (inv, le) = Reach-Inv k one r (omega arith) in
        ground (arith, on.production j p', produces-lt k s.queue s.history (s.pc i) p (inv.local i))
    positions-ordered consumer i j p p' e e' =
        let on = Steps-Onward k one r ss far in
        let (inv, le) = Reach-Inv k one r (omega arith) in
        ground
          (arith, on.consumption j p', consumes-lt k s.queue s.history (s.pc i) p (inv.local i))
