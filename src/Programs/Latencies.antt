-- ===== src/Programs/Latencies.antt =====
-- The latencies that the programs of src/benchmark.cpp and src/demo.cpp collect, sorted, and reading them at
-- an index. `sort` is std::sort on numbers, whose result does not depend on the algorithm.
use market_data_parser.Common.{
  ℕ, zero, suc, ◌+◌, ◌-◌, ◌%◌, ◌^◌, ◌++◌, length-append, ◌≤◌, ◌<◌, ◌≡◌, refl, ◌∙◌, ap, Bool-cases,
  inl, inr, some, List, [], ◌∷◌, length, All, get_elem?, leb, ltb, if◌then◌else◌, arith,
}
use market_data_parser.Programs.{Reading}

abbrev pub insert : ℕ → List ℕ → List ℕ
insert x [] = x ∷ []
insert x (y ∷ ys) = let rest = insert x ys in if leb x y then x ∷ y ∷ ys else y ∷ rest

abbrev pub sort : List ℕ → List ℕ
sort [] = []
sort (x ∷ xs) = insert x (sort xs)

abbrev IsSorted : List ℕ → Type 0
IsSorted [] = Unit
IsSorted (x ∷ xs) = All (λ y. x ≤ y) xs × IsSorted xs

All-trans : (a b : ℕ) (xs : List ℕ) → a ≤ b → All (λ y. b ≤ y) xs → All (λ y. a ≤ y) xs
All-trans a b [] le h = tt
All-trans a b (x ∷ xs) le h = (omega (arith, h.0), All-trans a b xs le h.1)

All-insert : (P : ℕ → Type 0) (x : ℕ) (xs : List ℕ) → P x → All P xs → All P (insert x xs)
All-insert P x [] p h = (p, tt)
All-insert P x (y ∷ ys) p h = elim (Bool-cases (leb x y)) [
  | inl le ↦ rw le (p, h)
  | inr gt ↦ rw gt (h.0, All-insert P x ys p h.1)
]

insert-IsSorted : (x : ℕ) (xs : List ℕ) → IsSorted xs → IsSorted (insert x xs)
insert-IsSorted x [] s = (tt, tt)
insert-IsSorted x (y ∷ ys) s = elim (Bool-cases (leb x y)) [
  | inl le ↦ rw le ((ground (arith, le), All-trans x y ys (ground (arith, le)) s.0), s)
  | inr gt ↦ rw gt (All-insert (λ z. y ≤ z) x ys (ground (arith, gt)) s.0, insert-IsSorted x ys s.1)
]

sort-IsSorted : (xs : List ℕ) → IsSorted (sort xs)
sort-IsSorted [] = tt
sort-IsSorted (x ∷ xs) = insert-IsSorted x (sort xs) (sort-IsSorted xs)

length-insert : (x : ℕ) (xs : List ℕ) → length (insert x xs) ≡ suc (length xs)
length-insert x [] = refl
length-insert x (y ∷ ys) = ground (arith, length-insert x ys)

pub length-sort : (xs : List ℕ) → length (sort xs) ≡ length xs
length-sort [] = refl
length-sort (x ∷ xs) = length-insert x (sort xs) ∙ ap suc (length-sort xs)

get_elem?-some : (xs : List ℕ) (i : ℕ) → i < length xs → (x : ℕ) × (get_elem? xs i ≡ some x)
get_elem?-some [] i lt = absurd (omega arith)
get_elem?-some (x ∷ xs) zero lt = (x, refl)
get_elem?-some (x ∷ xs) (suc i) lt = get_elem?-some xs i (omega arith)

-- How many elements are below a number, and how many are at most that number.
abbrev pub count_below : ℕ → List ℕ → ℕ
count_below x [] = 0
count_below x (y ∷ ys) = let rest = count_below x ys in if ltb y x then suc rest else rest

abbrev pub count_up_to : ℕ → List ℕ → ℕ
count_up_to x [] = 0
count_up_to x (y ∷ ys) = let rest = count_up_to x ys in if leb y x then suc rest else rest

-- `x` is the element of rank `i`, counted from zero: `i` elements are no greater, and it comes next.
abbrev pub IsRank : List ℕ → ℕ → ℕ → Type 0
IsRank xs i x = (count_below x xs ≤ i) × (i < count_up_to x xs)

count_below-insert : (a x : ℕ) (xs : List ℕ) → count_below a (insert x xs) ≡ count_below a (x ∷ xs)
count_below-insert a x [] = refl
count_below-insert a x (y ∷ ys) = ground (arith, count_below-insert a x ys)

count_up_to-insert : (a x : ℕ) (xs : List ℕ) → count_up_to a (insert x xs) ≡ count_up_to a (x ∷ xs)
count_up_to-insert a x [] = refl
count_up_to-insert a x (y ∷ ys) = ground (arith, count_up_to-insert a x ys)

count_below-sort : (a : ℕ) (xs : List ℕ) → count_below a (sort xs) ≡ count_below a xs
count_below-sort a [] = refl
count_below-sort a (x ∷ xs) =
    ground (arith, count_below-insert a x (sort xs), count_below-sort a xs)

count_up_to-sort : (a : ℕ) (xs : List ℕ) → count_up_to a (sort xs) ≡ count_up_to a xs
count_up_to-sort a [] = refl
count_up_to-sort a (x ∷ xs) =
    ground (arith, count_up_to-insert a x (sort xs), count_up_to-sort a xs)

none_below : (a : ℕ) (xs : List ℕ) → All (λ y. a ≤ y) xs → count_below a xs ≡ 0
none_below a [] h = refl
none_below a (x ∷ xs) h = ground (arith, h.0, none_below a xs h.1)

get_elem?-holds :
    (P : ℕ → Type 0) (xs : List ℕ) (i x : ℕ) → All P xs → get_elem? xs i ≡ some x → P x
get_elem?-holds P [] i x h e = absurd (ground (arith, e))
get_elem?-holds P (y ∷ ys) zero x h e = let same : y ≡ x = ground (arith, e) in rw same at h.0
get_elem?-holds P (y ∷ ys) (suc i) x h e = get_elem?-holds P ys i x h.1 e

get_elem?-IsRank : (xs : List ℕ) (i x : ℕ) → IsSorted xs → get_elem? xs i ≡ some x → IsRank xs i x
get_elem?-IsRank [] i x s e = absurd (ground (arith, e))
get_elem?-IsRank (z ∷ zs) zero x s e =
    let same : z ≡ x = ground (arith, e) in
    let least = none_below x zs (rw same at s.0) in
    (ground (arith, same, least), ground (arith, same))
get_elem?-IsRank (z ∷ zs) (suc i) x s e =
    let (below, up_to) = get_elem?-IsRank zs i x s.1 e in
    let le : z ≤ x = get_elem?-holds (λ w. z ≤ w) zs i x s.0 e in
    (ground (arith, below), ground (arith, up_to, le))

module _ (xs : List ℕ) where
  pub get_elem?-sort :
      (i : ℕ) → i < length xs → (x : ℕ) × (get_elem? (sort xs) i ≡ some x) × IsRank xs i x
  get_elem?-sort i lt =
      let (x, e) = get_elem?-some (sort xs) i (omega (arith, length-sort xs)) in
      let (below, up_to) = get_elem?-IsRank (sort xs) i x (sort-IsSorted xs) e in
      (
        x,
        e,
        (omega (arith, below, count_below-sort x xs), omega (arith, up_to, count_up_to-sort x xs)),
      )

-- The differences of the readings around each of `n` calls, modulo 2^64.
abbrev pub spans : (readings : ℕ → Reading) (n : ℕ) → List ℕ
spans readings zero = []
spans readings (suc i) =
    spans readings i ++ (((readings i).end + 2 ^ 64 - (readings i).start) % 2 ^ 64 ∷ [])

pub length-spans : (readings : ℕ → Reading) (n : ℕ) → length (spans readings n) ≡ n
length-spans readings zero = refl
length-spans readings (suc i) =
    let d = ((readings i).end + 2 ^ 64 - (readings i).start) % 2 ^ 64 in
    length-append (spans readings i) (d ∷ []) ∙ omega (arith, length-spans readings i)
