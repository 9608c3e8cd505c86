-- ===== src/Queue/Onward.antt =====
-- What further accesses leave as it is: positions only grow, and an item that was claimed stays claimed.
use market_data_parser.Common.{ℕ, ◌+◌, ◌^◌, ◌≤◌, ◌<◌, ◌≡◌, refl, subst, ◌∙◌, some, inl, ◌⊎◌, arith}
use market_data_parser.Common.Update.{update}
use market_data_parser.Queue.{MpmcQueue, Pc, enq_load, deq_load}
use market_data_parser.Queue.Quiet.{two-le-pow}
use market_data_parser.Queue.Local.{produces, consumes}
use market_data_parser.Queue.Effect.{Sound, silent}
use market_data_parser.Queue.Sound.{step-Sound}
use market_data_parser.Queue.Threads.{
  System, Step, access, call_enqueue, call_dequeue, Reach, later, Steps, stay, more,
}
use market_data_parser.Queue.Invariant.{Inv}
use market_data_parser.Queue.Reachable.{Reach-Inv}

module _ {A : Type 0} where
  pub record Onward (s t : System A) : Type 0 where
    pub head_rises : s.queue.head ≤ t.queue.head
    pub tail_rises : s.queue.tail ≤ t.queue.tail
    pub kept : (c : ℕ) → c < s.queue.head → t.history c ≡ s.history c
    pub production :
        (i c : ℕ) → produces (t.pc i) ≡ some c → (produces (s.pc i) ≡ some c) ⊎ (s.queue.head ≤ c)
    pub consumption :
        (i c : ℕ) → consumes (t.pc i) ≡ some c → (consumes (s.pc i) ≡ some c) ⊎ (s.queue.tail ≤ c)

  Onward-refl : (s : System A) → Onward s s
  Onward-refl s = record {
    head_rises = omega arith;
    tail_rises = omega arith;
    kept = λ c lt. refl;
    production = λ i c e. inl e;
    consumption = λ i c e. inl e;
  }

  Onward-trans : {s t u : System A} → Onward s t → Onward t u → Onward s u
  Onward-trans {s} {t} {u} st tu = record {
    head_rises = omega (arith, st.head_rises, tu.head_rises);
    tail_rises = omega (arith, st.tail_rises, tu.tail_rises);
    kept = λ c lt. tu.kept c (omega (arith, st.head_rises)) ∙ st.kept c lt;
    production = λ i c e. ground (arith, tu.production i c, st.production i c, st.head_rises);
    consumption = λ i c e. ground (arith, tu.consumption i c, st.consumption i c, st.tail_rises);
  }

module _ {A : Type 0} (k : ℕ) where
  Sound-Onward :
      (s : System A) (i : ℕ) {q : MpmcQueue A} {h : ℕ → A} {p : Pc A}
      → Sound k s.queue s.history (s.pc i) q h p
      → Onward s (record { queue = q; pc = update s.pc i p; history = h })
  Sound-Onward s i {p = p} e = record {
    head_rises = e.head_rises;
    tail_rises = e.tail_rises;
    kept = e.kept;
    production = λ j c ej. ground (arith, e.production c);
    consumption = λ j c ej. ground (arith, e.consumption c);
  }

  Step-Onward :
      (two : 2 ≤ 2 ^ k) {s t : System A}
      → Inv k s
      → s.queue.head + 2 ^ k < 2 ^ 63
      → Step k s t
      → Onward s t
  Step-Onward two {s} inv far (access i f es eh) =
      let e = step-Sound k two s.queue s.history inv.coherent far f (s.pc i) (inv.local i) in
      Sound-Onward s i (rw (es, eh) at e)
  Step-Onward two {s} inv far (call_enqueue i x over) =
      Sound-Onward s i
        (silent k s.queue s.history (s.pc i) (enq_load x) inv.coherent tt (λ c e. cc) (λ c e. cc))
  Step-Onward two {s} inv far (call_dequeue i over) =
      Sound-Onward s i
        (silent k s.queue s.history (s.pc i) deq_load inv.coherent tt (λ c e. cc) (λ c e. cc))

  pub Steps-Reach :
      {n : ℕ} {s : System A} {m : ℕ} {t : System A}
      → Reach k n s
      → Steps k s m t
      → Reach k (m + n) t
  Steps-Reach {n} {s} r stay = subst (λ m. Reach k m s) (omega arith) r
  Steps-Reach {n} {s} r (more {u = u} ss st) =
      subst (λ m. Reach k m u) (omega arith) (later (Steps-Reach r ss) st)

  pub Steps-Onward :
      1 ≤ k
      → {n : ℕ} {s : System A} {m : ℕ} {t : System A} → Reach k n s
      → Steps k s m t
      → m + n + 2 ^ k < 2 ^ 63
      → Onward s t
  Steps-Onward one {s} r stay far = Onward-refl s
  Steps-Onward one r (more ss st) far =
      let (inv, le) = Reach-Inv k one (Steps-Reach r ss) (omega arith) in
      Onward-trans (Steps-Onward one r ss (omega arith))
        (Step-Onward (two-le-pow k one) inv (omega arith) st)
