-- ===== src/SystemUtils/Tests.antt =====
-- The theorems on the system utilities at a small system.
use market_data_parser.Common.{
  ℕ, ◌+◌, ◌*◌, ◌^◌, ◌≤◌, ◌<◌, ◌≡◌, refl, none, some, List, [], ◌∷◌, ◌++◌, Bool, true, false, arith,
  ltb, if◌then◌else◌, codes,
}
use market_data_parser.Common.Int.{ℤ}
use market_data_parser.SystemUtils.{Kernel, warmup_cpu, has_huge_pages, tag, stoul}
use native.Mathlib.Decide.{ℕ_discrete}
use market_data_parser.SystemUtils.Warmup.{warmup_cpu-never_pauses}
use market_data_parser.SystemUtils.HugePages.{value, has_huge_pages-value}

-- A counter that moves by 1000 between readings, up to 10000.
abbrev clock : ℕ → ℕ
clock i = if ltb i 10 then 1000 * i else 10000

clock_rises : (i : ℕ) → clock i ≤ clock (i + 1)
clock_rises i = ground arith

clock_u64 : (i : ℕ) → clock i < 2 ^ 64
clock_u64 i = ground arith

warmup_cpu-never_pauses_example : warmup_cpu 1 clock (ℤ.pos 500) ≡ some 0
warmup_cpu-never_pauses_example =
    warmup_cpu-never_pauses clock clock_rises clock_u64 500 0 (omega arith) (omega arith)

stoul_run : stoul (codes "  +42 kB") ≡ some 42
stoul_run = refl

no_number : has_huge_pages (codes "HugePages_Total: none" ∷ []) ≡ none
unfolding has_huge_pages
no_number = refl

has_huge_pages-value_example :
    has_huge_pages
      ((codes "MemTotal: 5 kB" ∷ []) ++ ((tag ++ (b' ' ∷ []) ++ (b' ' ∷ b'1' ∷ b'2' ∷ [])) ∷ []))
    ≡ some (ltb 0 (value 0 (b'1' ∷ b'2' ∷ [])))
has_huge_pages-value_example =
    has_huge_pages-value (codes "MemTotal: 5 kB" ∷ []) [] (b' ' ∷ []) b'1' (b'2' ∷ []) (refl, tt)
      ((omega arith, omega arith), ((omega arith, omega arith), tt)) (omega arith)

pub List_discrete : Discrete (List ℕ)
List_discrete = hlevel (ℕ_discrete)

-- Two processors; files as a function of the path, memory that can be locked, and an affinity.
pub record World : Type 0 where
  pub files : List ℕ → List ℕ
  pub locked : Bool
  pub affinity : List ℤ

abbrev put_file : List ℕ → List ℕ → World → World
put_file path t w = record w {
  files = λ other. elim (List_discrete path other) [ yes same ↦ t | no differs ↦ w.files other ];
}

abbrev pub kernel : Kernel World (List ℤ)
kernel = record {
  no_cpus = [];
  add_cpu = λ i mask. i ∷ mask;
  set_affinity = λ mask w. (true, record w { affinity = mask });
  set_fifo_priority = λ priority w. (false, w);
  mlockall = λ w. (true, record w { locked = true });
  munlockall = λ w. record w { locked = false };
  hardware_concurrency = λ w. 2;
  mmap_huge = λ size w. (none, w);
  munmap = λ ptr size w. w;
  open_for_write = λ path w. (true, put_file path [] w);
  put_text = put_file;
}

abbrev pub world : World
world = record { files = λ path. []; locked = false; affinity = ℤ.pos 0 ∷ ℤ.pos 1 ∷ [] }
