-- ===== src/SystemUtils/HugePages.antt =====
-- What `has_huge_pages` answers.
use market_data_parser.Common.{
  ℕ, suc, ◌+◌, ◌-◌, ◌*◌, ◌^◌, ◌≤◌, ◌<◌, ◌≡◌, ◌≢◌, refl, ◌∙◌, none, some, List, [], ◌∷◌, ◌++◌,
  length, All, drop, Bool, true, false, arith, ltb, ◌==◌,
}
use market_data_parser.SystemUtils.{
  has_huge_pages, contains, is_prefix, find_last_of, stoul, tag, is_digit, is_space, read_digits,
}

abbrev pub IsDigit : ℕ → Type 0
IsDigit c = (b'0' ≤ c) × (c ≤ b'9')

-- The number that digits stand for, on top of `acc`.
abbrev pub value : ℕ → List ℕ → ℕ
value acc [] = acc
value acc (c ∷ cs) = value (acc * 10 + (c - b'0')) cs

is_prefix-append : (xs ys : List ℕ) → is_prefix xs (xs ++ ys) ≡ true
is_prefix-append [] ys = refl
is_prefix-append (x ∷ xs) ys = ground (arith, is_prefix-append xs ys)

contains-append : (x : ℕ) (xs ys : List ℕ) → contains (x ∷ xs) ((x ∷ xs) ++ ys) ≡ true
contains-append x xs ys = ground (arith, is_prefix-append xs ys)

find_last_of-none : (c : ℕ) (ds : List ℕ) → All (λ d. d ≢ c) ds → find_last_of c ds ≡ none
find_last_of-none c [] h = refl
find_last_of-none c (d ∷ ds) h = rw (find_last_of-none c ds h.1) (ground arith)

find_last_of-append :
    (c : ℕ) (xs ds : List ℕ)
    → All (λ d. d ≢ c) ds
    → find_last_of c (xs ++ (c ∷ ds)) ≡ some (length xs)
find_last_of-append c [] ds h = rw (find_last_of-none c ds h) (ground arith)
find_last_of-append c (x ∷ xs) ds h = rw (find_last_of-append c xs ds h) refl

drop-suc-length : (c : ℕ) (xs ds : List ℕ) → drop (suc (length xs)) (xs ++ (c ∷ ds)) ≡ ds
drop-suc-length c [] ds = refl
drop-suc-length c (x ∷ xs) ds = drop-suc-length c xs ds

read_digits-value :
    (seen : Bool) (acc : ℕ) (d : ℕ) (ds : List ℕ)
    → All IsDigit (d ∷ ds)
    → read_digits seen acc (d ∷ ds) ≡ some (value acc (d ∷ ds))
read_digits-value seen acc d [] h = ground arith
read_digits-value seen acc d (e ∷ ds) h =
    let digit : is_digit d ≡ true = ground arith in
    rw digit (read_digits-value true (acc * 10 + (d - b'0')) e ds h.1)

stoul-value :
    (d : ℕ) (ds : List ℕ)
    → All IsDigit (d ∷ ds)
    → value 0 (d ∷ ds) < 2 ^ 64
    → stoul (d ∷ ds) ≡ some (value 0 (d ∷ ds))
stoul-value d ds h small =
    let no_space : is_space d ≡ false = ground arith in
    let no_minus : (d == b'-') ≡ false = ground arith in
    let no_plus : (d == b'+') ≡ false = ground arith in
    let fits : ltb (value 0 (d ∷ ds)) (2 ^ 64) ≡ true = ground arith in
    rw (no_space, no_minus, no_plus, read_digits-value false 0 d ds h, fits) refl

no_space : (ds : List ℕ) → All IsDigit ds → All (λ d. d ≢ b' ') ds
no_space [] h = tt
no_space (d ∷ ds) h = ((λ e. omega arith), no_space ds h.1)

-- Lines with no tag in them are passed over.
skip :
    (before lines : List (List ℕ))
    → All (λ line. contains tag line ≡ false) before
    → has_huge_pages (before ++ lines) ≡ has_huge_pages lines
unfolding has_huge_pages
skip [] lines h = refl
skip (line ∷ before) lines h = rw h.0 (skip before lines h.1)

-- If the first line with "HugePages_Total:" has that, then anything, a space and a decimal number below
-- 2^64 to its end, the answer is whether the number is greater than zero; the lines that follow do not
-- matter.
pub has_huge_pages-value :
    (before after_lines : List (List ℕ)) (filler : List ℕ) (d : ℕ) (ds : List ℕ)
    → All (λ line. contains tag line ≡ false) before
    → All IsDigit (d ∷ ds)
    → value 0 (d ∷ ds) < 2 ^ 64
    → has_huge_pages (before ++ ((tag ++ filler ++ (b' ' ∷ d ∷ ds)) ∷ after_lines))
      ≡ some (ltb 0 (value 0 (d ∷ ds)))
unfolding has_huge_pages
has_huge_pages-value before lines filler d ds h digits small =
    skip before _ h
    ∙ rw
        (
          find_last_of-append b' ' filler (d ∷ ds) (no_space (d ∷ ds) digits),
          drop-suc-length b' ' filler (d ∷ ds),
          stoul-value d ds digits small,
        )
        refl

-- Without such a line, or without the file, the answer is no.
pub has_huge_pages-false :
    (lines : List (List ℕ))
    → All (λ line. contains tag line ≡ false) lines
    → has_huge_pages lines ≡ some false
unfolding has_huge_pages
has_huge_pages-false [] h = refl
has_huge_pages-false (line ∷ lines) h = rw h.0 (has_huge_pages-false lines h.1)
