-- ===== src/Queue/Capacity.antt =====
-- The static assertion on the capacity of MPMCQueue in include/mpmc_queue.hpp.
use market_data_parser.Common.{
  ℕ, zero, suc, ◌+◌, ◌-◌, ◌/◌, ◌%◌, ◌^◌, ◌≤◌, ◌<◌, ◌≡◌, ◌↔◌, refl, ap, ◌∙◌, ◌⊎◌, inl, inr, true,
  arith,
}
use market_data_parser.Common.Bits.{and_lowest, bit_and-low_mask}
use market_data_parser.Queue.{admits_capacity}
use Prim.Native.Nat.{bit_and}
use native.Mathlib.Decide.{ℕ_discrete}
use native.Mathlib.Nat.{pow-suc, mod_self}

and_self_below : (n x : ℕ) → x ≤ n → bit_and x x ≡ x
and_self_below zero zero h = refl
and_self_below zero (suc x) h = absurd (omega arith)
and_self_below (suc n) x h = elim (ℕ_discrete x 0) [
  | yes none ↦ rw none refl
  | no some_left ↦ omega (arith, and_lowest x x, and_self_below n (x / 2) (omega arith))
]

power_below : (n c : ℕ) → c ≤ n → 0 < c → bit_and c (c - 1) ≡ 0 → (k : ℕ) × (c ≡ 2 ^ k)
power_below zero c h some_left e = absurd (omega arith)
power_below (suc n) c h some_left e =
    let digits = and_lowest c (c - 1) in
    elim (ℕ_discrete (c % 2) 0) [
      | yes even ↦
          let half : (c - 1) / 2 ≡ c / 2 - 1 = omega arith in
          let rest : bit_and (c / 2) (c / 2 - 1) ≡ 0 =
            omega (arith, digits, ap (bit_and (c / 2)) half) in
          let (k, p) = power_below n (c / 2) (omega arith) (omega arith) rest in
          (suc k, omega (arith, p, pow-suc 2 k))
      | no odd ↦
          let half : (c - 1) / 2 ≡ c / 2 = omega arith in
          let nothing : c / 2 ≡ 0 = omega (
            arith,
            digits,
            ap (bit_and (c / 2)) half,
            and_self_below (c / 2) (c / 2) (omega arith),
          ) in
          (0, omega arith)
    ]

-- The assertion admits exactly the powers of two and zero, of the numbers of 64 bits.
pub admits_capacity-power :
    (capacity : ℕ)
    → capacity < 2 ^ 64
    → (admits_capacity capacity ≡ true) ↔ ((capacity ≡ 0) ⊎ ((k : ℕ) × (capacity ≡ 2 ^ k)))
unfolding admits_capacity
admits_capacity-power zero few = (λ e. inl refl, λ e. refl)
admits_capacity-power (suc c) few =
    let less : (suc c + 2 ^ 64 - 1) % 2 ^ 64 ≡ suc c - 1 = omega arith in
    (
      λ e.
          let wrapped : bit_and (suc c) ((suc c + 2 ^ 64 - 1) % 2 ^ 64) ≡ 0 = ground (arith, e) in
          let nothing : bit_and (suc c) (suc c - 1) ≡ 0 = rw less at wrapped in
          inr (power_below (suc c) (suc c) (omega arith) (omega arith) nothing),
      λ e. elim e [
        | inl none ↦ absurd (omega arith)
        | inr power ↦
            let (k, p) = power in
            let masked : bit_and (2 ^ k) (2 ^ k - 1) ≡ 0 =
              bit_and-low_mask k (2 ^ k) ∙ mod_self (2 ^ k) in
            rw (less, p, masked) refl
      ],
    )
