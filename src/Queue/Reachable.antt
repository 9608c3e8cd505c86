-- ===== src/Queue/Reachable.antt =====
-- The invariant of all threads holds in every state that can be reached.
use market_data_parser.Common.{ℕ, ◌+◌, ◌^◌, ◌≤◌, ◌<◌, arith}
use market_data_parser.Queue.{enq_load, deq_load, construct, index}
use market_data_parser.Queue.Quiet.{two-le-pow}
use market_data_parser.Queue.Calls.{store_numbers-lt}
use market_data_parser.Queue.Slots.{index-mod, index-lt}
use market_data_parser.Queue.Shared.{IsCoherent}
use market_data_parser.Queue.Effect.{silent}
use market_data_parser.Queue.Sound.{step-Sound}
use market_data_parser.Queue.Threads.{
  System, Step, access, call_enqueue, call_dequeue, Reach, start, later,
}
use market_data_parser.Queue.Invariant.{Inv, access-Inv}
use native.Mathlib.Nat.{mod-le, mod-eq_of_lt}

module _ {A : Type 0} (k : ℕ) where
  construct-IsCoherent :
      (buffer : ℕ → A) (sequences : ℕ → ℕ) (h : ℕ → A)
      → IsCoherent k (construct k buffer sequences) h
  unfolding construct
  construct-IsCoherent buffer sequences h =
      let number = λ (p : ℕ). store_numbers-lt (2 ^ k) (index k p) sequences (index-lt k p) in
      record {
        order = omega arith;
        fits = omega arith;
        small = λ p. omega (arith, number p, index-lt k p);
        below = λ p lo. absurd (omega arith);
        between = λ p lo hi. absurd (omega arith);
        above = λ p lo. omega (arith, number p, index-mod k p, mod-le p (2 ^ k));
        fresh =
            λ p lo hi. omega (arith, number p, index-mod k p, mod-eq_of_lt {n = p} {m = 2 ^ k} hi);
        items = λ p e. absurd (omega (arith, number p, index-mod k p, mod-le p (2 ^ k)));
      }

  Step-Inv :
      (two : 2 ≤ 2 ^ k) {s t : System A}
      → Inv k s
      → s.queue.head + 2 ^ k < 2 ^ 63
      → Step k s t
      → Inv k t × (t.queue.head ≤ s.queue.head + 1)
  Step-Inv two {s} inv far (access i f es eh) =
      let e = step-Sound k two s.queue s.history inv.coherent far f (s.pc i) (inv.local i) in
      let e' = rw (es, eh) at e in (access-Inv k inv i e', e'.head_step)
  Step-Inv two {s} inv far (call_enqueue i x over) = (
    access-Inv k inv i
        (silent k s.queue s.history (s.pc i) (enq_load x) inv.coherent tt (λ c e. cc) (λ c e. cc)),
    omega arith,
  )
  Step-Inv two {s} inv far (call_dequeue i over) = (
    access-Inv k inv i
        (silent k s.queue s.history (s.pc i) deq_load inv.coherent tt (λ c e. cc) (λ c e. cc)),
    omega arith,
  )

  -- In every state that is reached in fewer than 2^63 - 2^k accesses and calls.
  pub Reach-Inv :
      1 ≤ k
      → {n : ℕ} {s : System A} → Reach k n s
      → n + 2 ^ k < 2 ^ 63
      → Inv k s × (s.queue.head ≤ n)
  unfolding construct
  Reach-Inv one (start buffer sequences h) far = (
    record {
      coherent = construct-IsCoherent buffer sequences h;
      local = λ i. tt;
      producer = λ i j c ei ej. cc;
      consumer = λ i j c ei ej. cc;
    },
    omega arith,
  )
  Reach-Inv one (later {n} r st) far =
      let (inv, le) = Reach-Inv one r (omega arith) in
      let (inv', le') = Step-Inv (two-le-pow k one) inv (omega arith) st in (inv', omega arith)
