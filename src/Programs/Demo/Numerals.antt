-- ===== src/Programs/Demo/Numerals.antt =====
-- The decimal text of a number.
use market_data_parser.Common.{
  ℕ, zero, suc, ◌+◌, ◌/◌, ◌%◌, ◌^◌, ◌<◌, ◌≡◌, ◌≢◌, refl, true, false, List, [], ◌∷◌, ◌++◌, All,
  get_or, codes, arith, ltb,
}
use market_data_parser.SystemUtils.{digits_of}
use market_data_parser.SystemUtils.HugePages.{IsDigit, value}
use market_data_parser.SystemUtils.Governor.{digits_of-IsDigit, value-digits_of}
use market_data_parser.Programs.Demo.{decimal}
use native.Mathlib.Nat.{pow-suc}
use native.Mathlib.Decide.{dec_lt}

-- The text is the decimal digits of the number, the first of which is 0 for the number 0 only.
pub record IsNumeral (text : List ℕ) (n : ℕ) : Type 0 where
  pub digits : All IsDigit text
  pub says : value 0 text ≡ n
  pub no_leading_zero : 0 < n → get_or text 0 0 ≢ b'0'
  pub zero : n ≡ 0 → text ≡ codes "0"

get_or-append : (xs ys : List ℕ) → 0 < get_or xs 0 0 → get_or (xs ++ ys) 0 0 ≡ get_or xs 0 0
get_or-append [] ys some_first = absurd (omega arith)
get_or-append (x ∷ xs) ys some_first = refl

first-digits_of : (fuel n : ℕ) → 0 < n → n < 10 ^ fuel → b'0' < get_or (digits_of fuel n) 0 0
first-digits_of zero n positive h = absurd (omega arith)
first-digits_of (suc fuel) n positive h = elim (dec_lt n 10) [
  | yes one_digit ↦ let small : ltb n 10 ≡ true = ground arith in rw small (omega arith)
  | no more ↦
      let big : ltb n 10 ≡ false = ground arith in
      let before = first-digits_of fuel (n / 10) (omega arith) (omega (arith, pow-suc 10 fuel)) in
      let same = get_or-append (digits_of fuel (n / 10)) ((b'0' + n % 10) ∷ []) (omega arith) in
      rw big (omega (arith, before, same))
]

pub decimal-IsNumeral : (n : ℕ) → n < 2 ^ 64 → IsNumeral (decimal n) n
decimal-IsNumeral n small = record {
  digits = digits_of-IsDigit 20 n;
  says = value-digits_of 20 n (omega arith);
  no_leading_zero = λ positive same. omega (arith, first-digits_of 20 n positive (omega arith));
  zero = λ none. rw none refl;
}
