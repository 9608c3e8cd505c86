-- ===== src/Queue/Effect.antt =====
-- What an access of a thread does to the shared memory and to what every thread knows.
use market_data_parser.Common.{ℕ, ◌+◌, ◌^◌, ◌≤◌, ◌<◌, ◌≡◌, ◌≢◌, refl, Bool, some, inl, ◌⊎◌, arith}
use market_data_parser.Queue.{
  MpmcQueue, Pc, step, index, compare_positions, branch_enqueue, branch_dequeue, claim, give_up,
  reload, Verdict,
}
use market_data_parser.Queue.Slots.{compare_positions_lem}
use market_data_parser.Queue.Shared.{IsCoherent}
use market_data_parser.Queue.Local.{produces, consumes, Local}
use market_data_parser.Queue.Threads.{note}

pub compare_positions-claim :
    (a b : ℕ) → a < 2 ^ 63 → b < 2 ^ 63 → compare_positions a b ≡ claim → a ≡ b
compare_positions-claim a b ha hb e = ground (arith, compare_positions_lem a b ha hb)

pub branch_dequeue-holds :
    (A : Type 0) (p c : ℕ) (w : Verdict)
    → (produces (branch_dequeue {A = A} p w) ≢ some c)
      × (consumes (branch_dequeue {A = A} p w) ≢ some c)
branch_dequeue-holds A p c claim = (λ e. cc, λ e. cc)
branch_dequeue-holds A p c _ = (λ e. cc, λ e. cc)

module _ {A : Type 0} (k : ℕ) where
  -- The effect of one access by a thread at `p`: the new memory is coherent, the thread's knowledge at
  -- its new place holds, every other thread keeps its own, and a claim that the thread now holds it
  -- held before, or nobody can hold.
  pub record Sound (q : MpmcQueue A) (h : ℕ → A) (p : Pc A) (q' : MpmcQueue A) (h' : ℕ → A)
      (p' : Pc A) : Type 0 where
    pub coherent : IsCoherent k q' h'
    pub own : Local k q' h' p'
    pub others :
        (o : Pc A)
        → ((c : ℕ) → produces p ≡ some c → produces o ≢ some c)
        → ((c : ℕ) → consumes p ≡ some c → consumes o ≢ some c)
        → Local k q h o
        → Local k q' h' o
    pub production : (c : ℕ) → produces p' ≡ some c → (produces p ≡ some c) ⊎ (q.head ≤ c)
    pub consumption : (c : ℕ) → consumes p' ≡ some c → (consumes p ≡ some c) ⊎ (q.tail ≤ c)
    pub head_step : q'.head ≤ q.head + 1
    pub head_rises : q.head ≤ q'.head
    pub tail_rises : q.tail ≤ q'.tail
    pub kept : (c : ℕ) → c < q.head → h' c ≡ h c

  -- An access that writes nothing that other threads read.
  pub silent :
      (q : MpmcQueue A) (h : ℕ → A) (p p' : Pc A)
      → IsCoherent k q h
      → Local k q h p'
      → ((c : ℕ) → produces p' ≡ some c → produces p ≡ some c)
      → ((c : ℕ) → consumes p' ≡ some c → consumes p ≡ some c)
      → Sound q h p q h p'
  silent q h p p' v l np nc = record {
    coherent = v;
    own = l;
    others = λ o dp dc lo. lo;
    production = λ c e. inl (np c e);
    consumption = λ c e. inl (nc c e);
    head_step = omega arith;
    head_rises = omega arith;
    tail_rises = omega arith;
    kept = λ c lt. refl;
  }

  abbrev pub Outcome : (q : MpmcQueue A) (h : ℕ → A) (p : Pc A) → Bool → Type 0
  Outcome q h p f = Sound q h p (step k f q p).0 (note f q p h) (step k f q p).1

  pub branch_enqueue-Local :
      (q : MpmcQueue A) (h : ℕ → A) (x : A) (p : ℕ) (w : Verdict)
      → p ≤ q.head
      → (w ≡ claim → q.sequences (index k p) ≡ p)
      → Local k q h (branch_enqueue x p w)
  branch_enqueue-Local q h x p claim le own = (le, λ hp. own refl)
  branch_enqueue-Local q h x p give_up le own = tt
  branch_enqueue-Local q h x p reload le own = tt

  pub branch_enqueue-holds :
      (x : A) (p c : ℕ) (w : Verdict)
      → (produces (branch_enqueue x p w) ≢ some c) × (consumes (branch_enqueue x p w) ≢ some c)
  branch_enqueue-holds x p c claim = (λ e. cc, λ e. cc)
  branch_enqueue-holds x p c _ = (λ e. cc, λ e. cc)

  pub branch_dequeue-Local :
      (q : MpmcQueue A) (h : ℕ → A) (p : ℕ) (w : Verdict)
      → p ≤ q.tail
      → (w ≡ claim → q.sequences (index k p) ≡ p + 1)
      → Local k q h (branch_dequeue p w)
  branch_dequeue-Local q h p claim le own = (le, λ hp. own refl)
  branch_dequeue-Local q h p give_up le own = tt
  branch_dequeue-Local q h p reload le own = tt
