-- ===== src/Queue/Invariant.antt =====
-- The invariant of all threads together, in every state that can be reached.
use market_data_parser.Common.{ℕ, ◌<◌, ◌≡◌, ◌≢◌, some, inl, inr, arith}
use market_data_parser.Common.Update.{update, update_self, update_ne}
use market_data_parser.Queue.{MpmcQueue, Pc, enq_load}
use market_data_parser.Queue.Shared.{IsCoherent}
use market_data_parser.Queue.Local.{produces, consumes, Local}
use market_data_parser.Queue.Effect.{Sound}
use market_data_parser.Queue.Threads.{System}
use native.Mathlib.Decide.{ℕ_discrete}

module _ {A : Type 0} (k : ℕ) where
  pub record Inv (s : System A) : Type 0 where
    pub coherent : IsCoherent k s.queue s.history
    pub local : (i : ℕ) → Local k s.queue s.history (s.pc i)
    pub producer : (i j c : ℕ) → produces (s.pc i) ≡ some c → produces (s.pc j) ≡ some c → i ≡ j
    pub consumer : (i j c : ℕ) → consumes (s.pc i) ≡ some c → consumes (s.pc j) ≡ some c → i ≡ j

  -- A position that is produced is below `head_`, and one that is consumed is below `tail_`.
  pub produces-lt :
      (q : MpmcQueue A) (h : ℕ → A) (p : Pc A) (c : ℕ)
      → Local k q h p
      → produces p ≡ some c
      → c < q.head
  produces-lt q h (enq_load x) c l e = cc
  produces-lt q h p c l e = ground arith

  pub consumes-lt :
      (q : MpmcQueue A) (h : ℕ → A) (p : Pc A) (c : ℕ)
      → Local k q h p
      → consumes p ≡ some c
      → c < q.tail
  consumes-lt q h (enq_load x) c l e = cc
  consumes-lt q h p c l e = ground arith

  module _ {s : System A} (inv : Inv s) (i : ℕ) {q : MpmcQueue A} {h : ℕ → A} {p : Pc A}
      (e : Sound k s.queue s.history (s.pc i) q h p) where
    update-Local : (j : ℕ) → Local k q h (update s.pc i p j)
    update-Local j = elim (ℕ_discrete i j) [
      | yes same ↦ rw (← same, update_self s.pc i p) e.own
      | no other ↦ rw (update_ne s.pc i j p other) (
          e.others (s.pc j) (λ c ei ej. other (inv.producer i j c ei ej))
            (λ c ei ej. other (inv.consumer i j c ei ej)) (inv.local j))
    ]

    -- Nobody else holds what the thread holds after the access.
    producer_alone : (j c : ℕ) → i ≢ j → produces p ≡ some c → produces (s.pc j) ≢ some c
    producer_alone j c other ep ej = elim (e.production c ep) [
      | inl before ↦ other (inv.producer i j c before ej)
      | inr fresh ↦
          absurd (omega (arith, produces-lt s.queue s.history (s.pc j) c (inv.local j) ej))
    ]

    consumer_alone : (j c : ℕ) → i ≢ j → consumes p ≡ some c → consumes (s.pc j) ≢ some c
    consumer_alone j c other ep ej = elim (e.consumption c ep) [
      | inl before ↦ other (inv.consumer i j c before ej)
      | inr fresh ↦
          absurd (omega (arith, consumes-lt s.queue s.history (s.pc j) c (inv.local j) ej))
    ]

    pub access-Inv : Inv (record { queue = q; pc = update s.pc i p; history = h })
    access-Inv = record {
      coherent = e.coherent;
      local = update-Local;
      producer =
          λ a b c ea eb. ground (arith, producer_alone a c, producer_alone b c, inv.producer a b c);
      consumer =
          λ a b c ea eb. ground (arith, consumer_alone a c, consumer_alone b c, inv.consumer a b c);
    }
