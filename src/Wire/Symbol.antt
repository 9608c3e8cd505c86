-- ===== src/Wire/Symbol.antt =====
-- `get_stock_symbol` of include/itch_protocol.hpp: the symbol without the spaces that pad it.
use market_data_parser.Common.{
  ℕ, zero, suc, ◌≤◌, ◌<◌, ◌-◌, ◌≡◌, ◌≢◌, List, ◌++◌, length, length-append, get_or, take, replicate,
  length-take, take-append, get_or-take, take-append-replicate, length-replicate,
  get_or-append_left, get_or-append_replicate, ◌==◌, if◌then◌else◌, arith,
}
use market_data_parser.Common.Chars.{Chars, chars_bytes, of_list, chars_bytes-of_list}
use native.Mathlib.Decide.{dec_lt}

abbrev pub space : ℕ
space = b' '

-- `while (len > 0 && stock[len - 1] == ' ') --len;`
unfoldable pub trim : List ℕ → ℕ → ℕ
trim stock zero = zero
trim stock (suc n) = if get_or stock n 0 == space then trim stock n else suc n

-- The view of the first `len` characters.
unfoldable pub get_stock_symbol : Chars 8 → List ℕ
get_stock_symbol stock = take (trim (chars_bytes 8 stock) 8) (chars_bytes 8 stock)

trim-le : (stock : List ℕ) (n : ℕ) → trim stock n ≤ n
unfolding trim
trim-le stock zero = omega arith
trim-le stock (suc n) = ground (arith, trim-le stock n)

-- Past the result there are only spaces, and the last character before it is none.
trim_tail : (stock : List ℕ) (n i : ℕ) → trim stock n ≤ i → i < n → get_or stock i 0 ≡ space
unfolding trim
trim_tail stock zero i lo hi = absurd (omega arith)
trim_tail stock (suc n) i lo hi = ground (arith, trim_tail stock n i)

trim_last : (stock : List ℕ) (n k : ℕ) → trim stock n ≡ suc k → get_or stock k 0 ≢ space
unfolding trim
trim_last stock zero k e = ground arith
trim_last stock (suc n) k e = ground (arith, trim_last stock n k)

trim_eq :
    (stock : List ℕ) (n m : ℕ)
    → m ≤ n
    → ((i : ℕ) → m ≤ i → i < n → get_or stock i 0 ≡ space)
    → ((k : ℕ) → m ≡ suc k → get_or stock k 0 ≢ space)
    → trim stock n ≡ m
unfolding trim
trim_eq stock zero m le tail last = omega arith
trim_eq stock (suc n) m le tail last = elim (dec_lt n m) [
  | yes whole ↦ ground (arith, last n)
  | no more ↦
      ground
        (arith, tail n, trim_eq stock n m (omega arith) (λ i lo hi. tail i lo (omega arith)) last)
]

-- A text that does not end in a space.
abbrev pub IsUnpadded : List ℕ → Type 0
IsUnpadded s = (k : ℕ) → length s ≡ suc k → get_or s k 0 ≢ space

-- The symbol is the stock field without its trailing spaces, all of them: padded to eight characters
-- it is the field, and it does not end in a space.
pub get_stock_symbol_lem :
    (stock : Chars 8)
    → (get_stock_symbol stock ++ replicate (8 - length (get_stock_symbol stock)) space
        ≡ chars_bytes 8 stock)
      × IsUnpadded (get_stock_symbol stock)
unfolding get_stock_symbol
get_stock_symbol_lem stock = (
  rw kept (
      take-append-replicate (chars_bytes 8 stock) (trim (chars_bytes 8 stock) 8) space
        (λ i lo hi. trim_tail (chars_bytes 8 stock) 8 i lo hi)),
  λ k e.
      rw
        (get_or-take (trim (chars_bytes 8 stock) 8) (chars_bytes 8 stock) k 0 (omega (arith, kept)))
        (trim_last (chars_bytes 8 stock) 8 k (omega (arith, kept))),
)
  where
    kept :
        length (take (trim (chars_bytes 8 stock) 8) (chars_bytes 8 stock))
        ≡ trim (chars_bytes 8 stock) 8
    kept = length-take _ (chars_bytes 8 stock) (trim-le (chars_bytes 8 stock) 8)

-- The eight characters of a field that holds a text, padded with spaces.
abbrev pub pad : List ℕ → Chars 8
pad s = of_list 8 (s ++ replicate (8 - length s) space)

-- Any text of at most eight characters that does not end in a space is read back from a padded field.
pub get_stock_symbol-pad : (s : List ℕ) → length s ≤ 8 → IsUnpadded s → get_stock_symbol (pad s) ≡ s
unfolding get_stock_symbol
get_stock_symbol-pad s le unpadded =
    rw (chars_bytes-of_list 8 field size) (
      rw (trim_eq field 8 (length s) le tail last) (take-append s (replicate (8 - length s) space)))
  where
    field : List ℕ
    field = s ++ replicate (8 - length s) space

    size : length field ≡ 8
    size = omega (
      arith,
      length-append s (replicate (8 - length s) space),
      length-replicate (8 - length s) space,
    )

    tail : (i : ℕ) → length s ≤ i → i < 8 → get_or field i 0 ≡ space
    tail i lo hi = get_or-append_replicate s (8 - length s) i space 0 lo (omega arith)

    last : (k : ℕ) → length s ≡ suc k → get_or field k 0 ≢ space
    last k e =
        rw (get_or-append_left s (replicate (8 - length s) space) k 0 (omega arith)) (unpadded k e)
