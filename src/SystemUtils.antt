-- ===== src/SystemUtils.antt =====
-- SystemUtils and the scoped wrappers of include/system_utils.hpp. What the system does is an argument.
pub mod Warmup
pub mod HugePages
pub mod Governor
pub mod Scoped
pub mod Tests
use market_data_parser.Common.{
  ℕ, zero, suc, ◌+◌, ◌-◌, ◌*◌, ◌/◌, ◌%◌, ◌^◌, Bool, true, false, not, ◌&&◌, ◌||◌, Option, none,
  some, List, [], ◌∷◌, ◌++◌, ltb, leb, ◌==◌, if◌then◌else◌, ◌>>=◌, codes, drop,
}
use market_data_parser.Common.Int.{ℤ}
use market_data_parser.Parser.{Tsc}
use Prim.Native.Nat.{bit_or}
use mathlib.Core.Option

-- The calls of libc and of the kernel, on a state of the world outside; `C` is cpu_set_t. The calls that
-- return a status say whether it was 0. `open_for_write` is the constructor of an ofstream.
pub record Kernel (W C : Type 0) : Type 0 where
  pub no_cpus : C
  pub add_cpu : ℤ → C → C
  pub set_affinity : C → W → Bool × W
  pub set_fifo_priority : ℤ → W → Bool × W
  pub mlockall : W → Bool × W
  pub munlockall : W → W
  pub hardware_concurrency : W → ℕ
  pub mmap_huge : (size : ℕ) → W → Option ℕ × W
  pub munmap : (ptr size : ℕ) → W → W
  pub open_for_write : (path : List ℕ) → W → Bool × W
  pub put_text : (path text : List ℕ) → W → W

-- `(static_cast<uint64_t>(hi) << 32) | lo`, of rdtsc and of rdtscp.
unfoldable pub rdtsc : Tsc → ℕ
rdtsc r = bit_or (r.hi * 2 ^ 32 % 2 ^ 64) r.lo

-- A conversion from int to an unsigned 64-bit number.
abbrev pub u64_of_int : ℤ → ℕ
u64_of_int (ℤ.pos n) = n
u64_of_int (ℤ.negsuc n) = 2 ^ 64 - suc n

-- `end - start`
unfoldable pub get_tsc_frequency : (start end : ℕ) → ℕ
get_tsc_frequency start end = (end + 2 ^ 64 - start) % 2 ^ 64

-- The loop of `warmup_cpu`: `clock i` is what the i-th reading of the time stamp counter gives. The result is
-- how often it pauses; none if the fuel runs out.
unfoldable pub wait : (fuel : ℕ) (clock : ℕ → ℕ) (target : ℕ) (i : ℕ) → Option ℕ
wait zero clock target i = none
wait (suc fuel) clock target i =
    let rest = wait fuel clock target (i + 1) in
    if ltb (clock i) target then Option.map suc rest else some 0

-- The second and the third reading are those of `get_tsc_frequency`.
unfoldable pub warmup_cpu : (fuel : ℕ) (clock : ℕ → ℕ) (milliseconds : ℤ) → Option ℕ
warmup_cpu fuel clock milliseconds =
    let start = clock 0 in
    let freq = get_tsc_frequency (clock 1) (clock 2) in
    let target = (start + freq * u64_of_int milliseconds % 2 ^ 64 / 1000) % 2 ^ 64 in
    wait fuel clock target 3

-- std::string: `find` with a result other than npos, `find_last_of` a character, and `stoul`.
abbrev pub is_prefix : List ℕ → List ℕ → Bool
is_prefix [] ys = true
is_prefix (x ∷ xs) [] = false
is_prefix (x ∷ xs) (y ∷ ys) = x == y && is_prefix xs ys

abbrev pub contains : List ℕ → List ℕ → Bool
contains tag [] = is_prefix tag []
contains tag (x ∷ xs) = is_prefix tag (x ∷ xs) || contains tag xs

abbrev pub find_last_of : ℕ → List ℕ → Option ℕ
find_last_of c [] = none
find_last_of c (x ∷ xs) = elim (find_last_of c xs) [
  | some i ↦ some (suc i)
  | none ↦ if x == c then some 0 else none
]

-- `pos + 1`, where npos + 1 is 0.
abbrev pub after : Option ℕ → ℕ
after none = 0
after (some pos) = suc pos

abbrev pub is_digit : ℕ → Bool
is_digit c = leb b'0' c && leb c b'9'

-- The digits at the front, on top of what was read before; the flag says whether there were any.
abbrev pub read_digits : Bool → ℕ → List ℕ → Option ℕ
read_digits seen acc [] = if seen then some acc else none
read_digits seen acc (c ∷ cs) =
    let rest = read_digits true (acc * 10 + (c - b'0')) cs in
    if is_digit c then rest else if seen then some acc else none

-- `std::stoul`: space before the number is skipped, a sign may follow; none where it throws, for want of
-- digits or because the number is out of range.
abbrev pub is_space : ℕ → Bool
is_space c = c == b' ' || leb 9 c && leb c 13

abbrev pub in_range : Bool → ℕ → Option ℕ
in_range negative n =
    if ltb n (2 ^ 64) then some (if negative then (2 ^ 64 - n) % 2 ^ 64 else n) else none

abbrev pub read_signed : List ℕ → Option ℕ
read_signed [] = none
read_signed (c ∷ cs) =
    if c == b'-'
    then read_digits false 0 cs >>= in_range true
    else if c == b'+'
    then read_digits false 0 cs >>= in_range false
    else read_digits false 0 (c ∷ cs) >>= in_range false

abbrev pub stoul : List ℕ → Option ℕ
stoul [] = none
stoul (c ∷ cs) = let rest = stoul cs in if is_space c then rest else read_signed (c ∷ cs)

-- "HugePages_Total:"
abbrev pub tag : List ℕ
tag = codes "HugePages_Total:"

-- `has_huge_pages` on the lines of /proc/meminfo, none if it cannot be read. The result is none where
-- stoul throws, which ends the program, as the function is noexcept.
unfoldable pub has_huge_pages : List (List ℕ) → Option Bool
has_huge_pages [] = some false
has_huge_pages (line ∷ lines) =
    let rest = has_huge_pages lines in
    if contains tag line
    then Option.map (λ total. ltb 0 total) (stoul (drop (after (find_last_of b' ' line)) line))
    else rest

-- `std::to_string` of a count, with fuel for its digits.
abbrev pub digits_of : (fuel n : ℕ) → List ℕ
digits_of zero n = []
digits_of (suc fuel) n =
    let rest = digits_of fuel (n / 10) in
    if ltb n 10 then (b'0' + n) ∷ [] else rest ++ ((b'0' + n % 10) ∷ [])

-- An int has at most ten digits.
abbrev pub governor_path : ℕ → List ℕ
governor_path i =
    codes "/sys/devices/system/cpu/cpu" ++ digits_of 10 i ++ codes "/cpufreq/scaling_governor"

module _ {W C : Type 0} (kernel : Kernel W C) where
  unfoldable pub pin_thread_to_core : ℤ → W → Bool × W
  pin_thread_to_core core_id w = kernel.set_affinity (kernel.add_cpu core_id kernel.no_cpus) w

  unfoldable pub set_realtime_priority : ℤ → W → Bool × W
  set_realtime_priority priority w = kernel.set_fifo_priority priority w

  unfoldable pub lock_memory : W → Bool × W
  lock_memory w = kernel.mlockall w

  unfoldable pub unlock_memory : W → W
  unlock_memory w = kernel.munlockall w

  unfoldable pub get_cpu_count : W → ℕ
  get_cpu_count w = kernel.hardware_concurrency w

  -- The null pointer is none.
  unfoldable pub allocate_huge_pages : ℕ → W → Option ℕ × W
  allocate_huge_pages size w = kernel.mmap_huge size w

  unfoldable pub free_huge_pages : Option ℕ → ℕ → W → W
  free_huge_pages none size w = w
  free_huge_pages (some ptr) size w = kernel.munmap ptr size w

  -- The body of the loop of `set_cpu_governor`.
  abbrev pub set_governor : List ℕ → ℕ → Bool × W → Bool × W
  set_governor governor i (success, w) =
      let (is_open, w') = kernel.open_for_write (governor_path i) w in
      if is_open then (success, kernel.put_text (governor_path i) governor w') else (false, w')

  -- Its first `n` rounds.
  unfoldable pub set_governors : List ℕ → ℕ → W → Bool × W
  set_governors governor zero w = (true, w)
  set_governors governor (suc n) w = set_governor governor n (set_governors governor n w)

  unfoldable pub set_cpu_governor : List ℕ → W → Bool × W
  unfolding get_cpu_count
  set_cpu_governor governor w = set_governors governor (get_cpu_count w) w

  -- The constructor and the destructor of ScopedCPUPin, whose member `pinned_` is the flag.
  unfoldable pub pin : ℤ → W → Bool × W
  unfolding pin_thread_to_core
  pin core_id w = pin_thread_to_core core_id w

  abbrev pub first_cpus : ℕ → C
  first_cpus zero = kernel.no_cpus
  first_cpus (suc n) = kernel.add_cpu (ℤ.pos n) (first_cpus n)

  unfoldable pub unpin : (pinned : Bool) → W → W
  unfolding get_cpu_count
  unpin pinned w = if pinned then (kernel.set_affinity (first_cpus (get_cpu_count w)) w).1 else w

  -- The constructor and the destructor of ScopedMemoryLock, whose member `locked_` is the flag.
  unfoldable pub lock : W → Bool × W
  unfolding lock_memory
  lock w = lock_memory w

  unfoldable pub unlock : (locked : Bool) → W → W
  unfolding unlock_memory
  unlock locked w = if locked then unlock_memory w else w
