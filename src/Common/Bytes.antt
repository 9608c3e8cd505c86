-- ===== src/Common/Bytes.antt =====
-- Memory as bytes: little-endian loads and stores of an x86-64 host, byte reversal, arrays of char.
use market_data_parser.Common.Lists.{length, get_or, All, length-reverse, All-reverse}
use Prim.Native.Nat.{ℕ, zero, suc, ◌+◌, ◌*◌, ◌/◌, ◌%◌, ◌^◌, ◌≤◌, ◌<◌}
use mathlib.Core.Path.{◌≡◌, refl, ap, ap₂, ◌∙◌}
use mathlib.Core.List.{List, [], ◌∷◌, reverse, reverse_aux, reverse-reverse}
use native.Mathlib.Nat.{pow-suc}
use native.Mathlib.Omega.{arith}

abbrev pub IsByte : ℕ → Type 0
IsByte b = b < 256

-- `const uint8_t*`: the byte at each offset from the address that it holds.
abbrev pub Pointer : Type 0
Pointer = ℕ → ℕ

abbrev pub IsMemory : Pointer → Type 0
IsMemory p = (i : ℕ) → IsByte (p i)

-- The address of the first byte of a buffer. What lies behind the buffer is read as 0.
abbrev pub address : List ℕ → Pointer
address bs i = get_or bs i 0

-- The `n` bytes from offset `o` on.
abbrev pub bytes_at : Pointer → ℕ → ℕ → List ℕ
bytes_at p o zero = []
bytes_at p o (suc n) = p o ∷ bytes_at p (o + 1) n

-- The number that an x86-64 host reads from, and stores to, a run of bytes: lowest byte first.
unfoldable pub of_le : List ℕ → ℕ
of_le [] = 0
of_le (b ∷ bs) = b + 256 * of_le bs

unfoldable pub to_le : ℕ → ℕ → List ℕ
to_le zero x = []
to_le (suc n) x = x % 256 ∷ to_le n (x / 256)

pub of_le-to_le : (n x : ℕ) → x < 256 ^ n → of_le (to_le n x) ≡ x
unfolding of_le to_le
of_le-to_le zero x h = omega arith
of_le-to_le (suc n) x h =
    omega (arith, of_le-to_le n (x / 256) (omega (arith, pow-suc 256 n)), pow-suc 256 n)

pub to_le-of_le : (bs : List ℕ) → All IsByte bs → to_le (length bs) (of_le bs) ≡ bs
unfolding of_le to_le
to_le-of_le [] h = refl
to_le-of_le (b ∷ bs) h =
    ap₂ ◌∷◌ (omega arith) (ap (to_le (length bs)) (omega arith) ∙ to_le-of_le bs h.1)

pub of_le-lt : (bs : List ℕ) → All IsByte bs → of_le bs < 256 ^ length bs
unfolding of_le
of_le-lt [] h = omega arith
of_le-lt (b ∷ bs) h = omega (arith, of_le-lt bs h.1, pow-suc 256 (length bs))

pub length-to_le : (n x : ℕ) → length (to_le n x) ≡ n
unfolding to_le
length-to_le zero x = refl
length-to_le (suc n) x = ap suc (length-to_le n (x / 256))

pub to_le-IsByte : (n x : ℕ) → All IsByte (to_le n x)
unfolding to_le
to_le-IsByte zero x = tt
to_le-IsByte (suc n) x = (omega arith, to_le-IsByte n (x / 256))

pub length-bytes_at : (p : Pointer) (o n : ℕ) → length (bytes_at p o n) ≡ n
length-bytes_at p o zero = refl
length-bytes_at p o (suc n) = ap suc (length-bytes_at p (o + 1) n)

pub bytes_at-IsByte : (p : Pointer) → IsMemory p → (o n : ℕ) → All IsByte (bytes_at p o n)
bytes_at-IsByte p h o zero = tt
bytes_at-IsByte p h o (suc n) = (h o, bytes_at-IsByte p h (o + 1) n)

-- The order of the `n` bytes of a number reversed, as `__builtin_bswap16` and its kin are documented.
unfoldable pub bswap : ℕ → ℕ → ℕ
bswap n x = of_le (reverse (to_le n x))

-- The bytes of a number, highest first.
unfoldable pub to_be : ℕ → ℕ → List ℕ
to_be n x = reverse (to_le n x)

to_le-of_le-reverse :
    (n : ℕ) (bs : List ℕ)
    → length bs ≡ n
    → All IsByte bs
    → to_le n (of_le (reverse bs)) ≡ reverse bs
to_le-of_le-reverse n bs e h =
    rw (← e, ← length-reverse bs) (to_le-of_le (reverse bs) (All-reverse IsByte bs h))

-- A swapped number is stored as the big-endian bytes of the number.
pub to_le-bswap : (n x : ℕ) → to_le n (bswap n x) ≡ to_be n x
unfolding bswap to_be
to_le-bswap n x = to_le-of_le-reverse n (to_le n x) (length-to_le n x) (to_le-IsByte n x)

-- The number that a run of bytes stands for, highest byte first.
abbrev be_from : ℕ → List ℕ → ℕ
be_from acc [] = acc
be_from acc (b ∷ bs) = be_from (acc * 256 + b) bs

unfoldable pub of_be : List ℕ → ℕ
of_be bs = be_from 0 bs

of_le-reverse_aux : (bs acc : List ℕ) → of_le (reverse_aux bs acc) ≡ be_from (of_le acc) bs
of_le-reverse_aux [] acc = refl
of_le-reverse_aux (b ∷ bs) acc =
    of_le-reverse_aux bs (b ∷ acc) ∙ ap (λ n. be_from n bs) (unfold of_le in omega arith)

-- Swapping what a little-endian host loads gives the big-endian number.
pub bswap-of_le :
    (n : ℕ) (bs : List ℕ) → length bs ≡ n → All IsByte bs → bswap n (of_le bs) ≡ of_be bs
unfolding bswap of_be
bswap-of_le n bs e h =
    ap (λ xs. of_le (reverse xs)) {x = to_le n (of_le bs)} {y = bs} (rw (← e) (to_le-of_le bs h))
    ∙ of_le-reverse_aux bs []
    ∙ ap (λ k. be_from k bs) (unfold of_le in refl)

pub bswap-bswap : (n x : ℕ) → x < 256 ^ n → bswap n (bswap n x) ≡ x
unfolding bswap
bswap-bswap n x h =
    ap (λ bs. of_le (reverse bs))
      (to_le-of_le-reverse n (to_le n x) (length-to_le n x) (to_le-IsByte n x))
    ∙ ap of_le (reverse-reverse (to_le n x))
    ∙ of_le-to_le n x h

pub bswap-lt : (n x : ℕ) → bswap n x < 256 ^ n
unfolding bswap
bswap-lt n x =
    rw (length-reverse (to_le n x), length-to_le n x) at
      (of_le-lt (reverse (to_le n x)) (All-reverse IsByte _ (to_le-IsByte n x)))

pub bytes_at_agree :
    (p q : Pointer) (o n : ℕ)
    → ((i : ℕ) → o ≤ i → i < o + n → p i ≡ q i)
    → bytes_at p o n ≡ bytes_at q o n
bytes_at_agree p q o zero h = refl
bytes_at_agree p q o (suc n) h =
    ap₂ ◌∷◌ (h o (omega arith) (omega arith))
      (bytes_at_agree p q (o + 1) n (λ i lo hi. h i (omega arith) (omega arith)))

bytes_at-suc : (p : Pointer) (o n : ℕ) → bytes_at p (o + 1) n ≡ bytes_at (λ i. p (suc i)) o n
bytes_at-suc p o zero = refl
bytes_at-suc p o (suc n) = ap₂ ◌∷◌ (ap p (omega arith)) (bytes_at-suc p (o + 1) n)

-- A buffer is read back from its address.
pub bytes_at-address : (xs : List ℕ) → bytes_at (address xs) 0 (length xs) ≡ xs
bytes_at-address [] = refl
bytes_at-address (x ∷ xs) =
    ap (λ bs. x ∷ bs) (bytes_at-suc (address (x ∷ xs)) 0 (length xs) ∙ bytes_at-address xs)

pub address-IsMemory : (xs : List ℕ) → All IsByte xs → IsMemory (address xs)
address-IsMemory [] h i = omega arith
address-IsMemory (x ∷ xs) h zero = h.0
address-IsMemory (x ∷ xs) h (suc i) = address-IsMemory xs h.1 i
