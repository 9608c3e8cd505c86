-- ===== src/SystemUtils/Governor.antt =====
-- What `set_cpu_governor` does to the governor files.
use market_data_parser.Common.{
  ℕ, zero, suc, ◌+◌, ◌-◌, ◌*◌, ◌/◌, ◌%◌, ◌^◌, ◌<◌, ◌≡◌, ◌≢◌, refl, ◌∙◌, List, [], ◌∷◌, ◌++◌, All,
  All-append, Bool, true, false, ◌&&◌, arith, ltb,
}
use market_data_parser.SystemUtils.{Kernel, digits_of, governor_path}
use market_data_parser.SystemUtils.HugePages.{IsDigit, value}
use native.Mathlib.Nat.{pow-suc}
use native.Mathlib.Decide.{dec_lt}

value-snoc :
    (acc : ℕ) (ds : List ℕ) (d : ℕ) → value acc (ds ++ (d ∷ [])) ≡ value acc ds * 10 + (d - b'0')
value-snoc acc [] d = refl
value-snoc acc (e ∷ ds) d = value-snoc (acc * 10 + (e - b'0')) ds d

pub digits_of-IsDigit : (fuel n : ℕ) → All IsDigit (digits_of fuel n)
digits_of-IsDigit zero n = tt
digits_of-IsDigit (suc fuel) n = elim (dec_lt n 10) [
  | yes one_digit ↦
      let small : ltb n 10 ≡ true = ground arith in rw small ((omega arith, omega arith), tt)
  | no more ↦
      let big : ltb n 10 ≡ false = ground arith in
      rw big (
        All-append IsDigit (digits_of fuel (n / 10)) _ (digits_of-IsDigit fuel (n / 10))
          ((omega arith, omega arith), tt))
]

-- The text of a number says the number.
pub value-digits_of : (fuel n : ℕ) → n < 10 ^ fuel → value 0 (digits_of fuel n) ≡ n
value-digits_of zero n h = omega arith
value-digits_of (suc fuel) n h = elim (dec_lt n 10) [
  | yes one_digit ↦ let small : ltb n 10 ≡ true = ground arith in rw small (omega arith)
  | no more ↦
      let big : ltb n 10 ≡ false = ground arith in
      rw big (
        value-snoc 0 (digits_of fuel (n / 10)) (b'0' + n % 10)
        ∙ omega (arith, value-digits_of fuel (n / 10) (omega (arith, pow-suc 10 fuel))))
]

-- `text` is the contents of the file at a path, and `can_open` whether it can be opened for writing. A write
-- to a file that was just opened, which empties it, leaves it with the text; no other file changes.
pub record IsFiles {W C : Type 0} (kernel : Kernel W C) (can_open : List ℕ → Bool)
    (text : List ℕ → W → List ℕ) : Type 0 where
  pub opens : (path : List ℕ) (w : W) → (kernel.open_for_write path w).0 ≡ can_open path
  pub open_others :
      (path other : List ℕ) (w : W)
      → path ≢ other
      → text other (kernel.open_for_write path w).1 ≡ text other w
  pub written :
      (path t : List ℕ) (w : W)
      → can_open path ≡ true
      → text path (kernel.put_text path t (kernel.open_for_write path w).1) ≡ t
  pub put_others :
      (path other t : List ℕ) (w : W)
      → path ≢ other
      → text other (kernel.put_text path t w) ≡ text other w

-- Whether the governor files of the first `n` processors can all be opened.
abbrev pub all_open : (List ℕ → Bool) → ℕ → Bool
all_open can_open zero = true
all_open can_open (suc n) = all_open can_open n && can_open (governor_path n)
