-- ===== src/Common/Chars.antt =====
-- `std::array<char, N>`: N bytes in a row, as nested pairs.
use market_data_parser.Common.Lists.{All, length}
use market_data_parser.Common.Bytes.{IsByte, IsMemory, Pointer, address, bytes_at, bytes_at-address}
use Prim.Native.Nat.{ℕ, zero, suc, ◌+◌}
use mathlib.Core.Path.{◌≡◌, refl, sym, ap, ◌∙◌}
use mathlib.Core.List.{List, [], ◌∷◌}

abbrev pub Chars : ℕ → Type 0
Chars zero = Unit
Chars (suc n) = ℕ × Chars n

abbrev pub IsChars : (n : ℕ) → Chars n → Type 0
IsChars zero a = Unit
IsChars (suc n) a = IsByte a.0 × IsChars n a.1

abbrev pub load_chars : (n : ℕ) → Pointer → ℕ → Chars n
load_chars zero p o = tt
load_chars (suc n) p o = (p o, load_chars n p (o + 1))

abbrev pub chars_bytes : (n : ℕ) → Chars n → List ℕ
chars_bytes zero a = []
chars_bytes (suc n) a = a.0 ∷ chars_bytes n a.1

pub load_chars-IsChars : (n : ℕ) (p : Pointer) (o : ℕ) → IsMemory p → IsChars n (load_chars n p o)
load_chars-IsChars zero p o h = tt
load_chars-IsChars (suc n) p o h = (h o, load_chars-IsChars n p (o + 1) h)

pub chars_bytes-IsByte : (n : ℕ) (a : Chars n) → IsChars n a → All IsByte (chars_bytes n a)
chars_bytes-IsByte zero a h = tt
chars_bytes-IsByte (suc n) a h = (h.0, chars_bytes-IsByte n a.1 h.1)

pub length-chars_bytes : (n : ℕ) (a : Chars n) → length (chars_bytes n a) ≡ n
length-chars_bytes zero a = refl
length-chars_bytes (suc n) a = ap suc (length-chars_bytes n a.1)

-- The first `n` of a list of characters.
abbrev pub of_list : (n : ℕ) → List ℕ → Chars n
of_list n xs = load_chars n (address xs) 0

pub chars_bytes-load_chars :
    (n : ℕ) (p : Pointer) (o : ℕ) → chars_bytes n (load_chars n p o) ≡ bytes_at p o n
chars_bytes-load_chars zero p o = refl
chars_bytes-load_chars (suc n) p o = ap (λ xs. p o ∷ xs) (chars_bytes-load_chars n p (o + 1))

pub chars_bytes-of_list : (n : ℕ) (xs : List ℕ) → length xs ≡ n → chars_bytes n (of_list n xs) ≡ xs
chars_bytes-of_list n xs e =
    chars_bytes-load_chars n (address xs) 0
    ∙ ap (bytes_at (address xs) 0) (sym e)
    ∙ bytes_at-address xs
