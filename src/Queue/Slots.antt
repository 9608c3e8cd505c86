-- ===== src/Queue/Slots.antt =====
-- Which slot a position has: positions less than a capacity apart have different slots.
use market_data_parser.Common.{
  ℕ, ◌+◌, ◌/◌, ◌%◌, ◌^◌, ◌≤◌, ◌<◌, ◌≡◌, ◌∙◌, sym, arith, ◌==◌, if◌then◌else◌, ltb,
}
use market_data_parser.Common.Bits.{bit_and-low_mask}
use market_data_parser.Queue.{index, claim, give_up, reload, compare_positions}
use native.Mathlib.Nat.{one-le-pow, div-add-mod, add-mod_right}
use native.Mathlib.Decide.{dec_lt}

pub index-mod : (k p : ℕ) → index k p ≡ p % 2 ^ k
unfolding index
index-mod k p = bit_and-low_mask k p

-- `pos & (Capacity - 1)` is a valid index of the arrays.
pub index-lt : (k p : ℕ) → index k p < 2 ^ k
index-lt k p = grind (arith, index-mod, one-le-pow k 2)

mod-apart : (c p q : ℕ) → p % c ≡ q % c → p < q → p + c ≤ q
mod-apart c p q e h = elim (dec_lt (p / c) (q / c)) [
  | yes lt ↦ grind (arith, div-add-mod p c, div-add-mod q c)
  | no ge ↦ grind (arith, div-add-mod p c, div-add-mod q c)
]

pub index-apart : (k p q : ℕ) → index k p ≡ index k q → p < q → p + 2 ^ k ≤ q
index-apart k p q e h = mod-apart (2 ^ k) p q (sym (index-mod k p) ∙ e ∙ index-mod k q) h

pub index-add : (k p : ℕ) → index k (p + 2 ^ k) ≡ index k p
index-add k p = rw (index-mod k (p + 2 ^ k), index-mod k p) (add-mod_right p (2 ^ k))

-- Below 2^63 the cast to intptr_t keeps the value, and the three branches are an order test.
pub compare_positions_lem :
    (a b : ℕ)
    → a < 2 ^ 63
    → b < 2 ^ 63
    → compare_positions a b ≡ (if a == b then claim else if ltb a b then give_up else reload)
unfolding compare_positions
compare_positions_lem a b ha hb = ground arith
