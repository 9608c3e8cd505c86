-- ===== src/Programs/Benchmark.antt =====
-- src/benchmark.cpp. What it prints is left out, but for the summary's numbers that are no floating-point
-- numbers; the warm-up and the measurement of the frequency, which change no state of the program, are in
-- SystemUtils. The readings of the clock are arguments, by the number of the message.
pub mod Generated
pub mod Counting
pub mod Percentiles
pub mod Logged
pub mod Main
use market_data_parser.Common.{
  ℕ, zero, suc, ◌+◌, ◌-◌, ◌%◌, ◌^◌, Bool, Option, none, some, List, [], ◌∷◌, ◌++◌, length,
  get_elem?, ◌==◌, if◌then◌else◌, ◌>>=◌,
}
use market_data_parser.Common.Bytes.{address}
use market_data_parser.Common.Int.{ℤ}
use market_data_parser.Parser.{ParsedMessage, parse}
use market_data_parser.Feed.{MessageGenerator, generate_add_order, generate_execute_order}
use market_data_parser.Logger.{Os, AsyncLogger}
use market_data_parser.Logger.Lifecycle.{Outcome, returned, thrown, start, stop, get_total_written}
use market_data_parser.SystemUtils.{Kernel, pin, unpin}
use market_data_parser.Programs.{Reading, latency, Turn, log_waiting}
use market_data_parser.Programs.Latencies.{sort}

pub record Stats : Type 0 where
  pub latencies : List ℕ
  pub total_messages : ℕ  -- uint64_t
  pub total_bytes : ℕ  -- uint64_t
  pub start_time : ℕ
  pub end_time : ℕ

abbrev pub no_stats : Stats
no_stats = record {
  latencies = [];
  total_messages = 0;
  total_bytes = 0;
  start_time = 0;
  end_time = 0;
}

unfoldable pub add_latency : (latency_ns : ℕ) → Stats → Stats
add_latency latency_ns s = record s { latencies = s.latencies ++ (latency_ns ∷ []) }

-- The bodies of `if (parsed)`, without the loop that logs.
unfoldable pub count_message : Reading → (msg : List ℕ) → Stats → Stats
unfolding add_latency
count_message r msg s = record (add_latency (latency r) s) {
  total_messages = (s.total_messages + 1) % 2 ^ 64;
  total_bytes = (s.total_bytes + length msg) % 2 ^ 64;
}

-- The first `n` rounds of the loop that generates the messages; `now i` is what `rdtsc` returns for the i-th.
unfoldable pub pre_generate : (n : ℕ) (now : ℕ → ℕ) → List (List ℕ) × MessageGenerator
pre_generate zero now = ([], record { counter = 0 })
pre_generate (suc i) now =
    let (messages, gen) = pre_generate i now in
    let (msg, gen) =
      if i % 2 == 0 then generate_add_order gen (now i) else generate_execute_order gen (now i) in
    (messages ++ (msg ∷ []), gen)

-- The loop that parses, from the i-th message on.
unfoldable pub parse_all : (readings : ℕ → Reading) (i : ℕ) → List (List ℕ) → Stats → Stats
parse_all readings i [] s = s
parse_all readings i (msg ∷ messages) s =
    let parsed = parse (address msg) (length msg) (readings i).stamp in
    parse_all readings (i + 1) messages
      (elim parsed [ some _ ↦ count_message (readings i) msg s | none ↦ s ])

-- `begin` and `finish` are the readings before and after the loop.
unfoldable pub benchmark_parser_only :
    (num_messages : ℕ) (now : ℕ → ℕ) (begin : ℕ) (readings : ℕ → Reading) (finish : ℕ) → Stats
benchmark_parser_only num_messages now begin readings finish =
    let (messages, gen) = pre_generate num_messages now in
    let s = parse_all readings 0 messages (record no_stats { start_time = begin }) in
    record s { end_time = finish }

-- The same with the thread pinned, from the world at the start to the world after the scope.
unfoldable pub benchmark_with_cpu_pinning :
    {W C : Type 0}
    → Kernel W C
    → (num_messages : ℕ) (now : ℕ → ℕ) (begin : ℕ) (readings : ℕ → Reading) (finish : ℕ) → W
    → Stats × W
benchmark_with_cpu_pinning kernel num_messages now begin readings finish w =
    let (pinned, w) = pin kernel (ℤ.pos 0) w in
    let (messages, gen) = pre_generate num_messages now in
    let s = parse_all readings 0 messages (record no_stats { start_time = begin }) in
    (record s { end_time = finish }, unpin kernel pinned w)

module _ {W : Type 0} (os : Os W) (slack : ParsedMessage → List ℕ) where
  -- The loop that parses and logs; `turns i` are the turns that the i-th message is given.
  unfoldable pub log_all :
      (readings : ℕ → Reading) (turns : ℕ → List Turn) (i : ℕ)
      → List (List ℕ)
      → Stats × AsyncLogger W
      → Option (Stats × AsyncLogger W)
  log_all readings turns i [] (s, l) = some (s, l)
  log_all readings turns i (msg ∷ messages) (s, l) = do
    (s, l) ← elim (parse (address msg) (length msg) (readings i).stamp) [
      | some parsed ↦ log_waiting os slack (turns i) parsed l >>= λ l.
          some (count_message (readings i) msg s, l)
      | none ↦ some (s, l)
    ]
    log_all readings turns (i + 1) messages (s, l)

  -- From the logger as it is constructed. The result has the number of bytes that the program says the logger
  -- wrote; it is none if `start` throws, which ends the program, or if a message is never accepted.
  unfoldable pub benchmark_parser_with_logger :
      (num_messages : ℕ) (now : ℕ → ℕ) (begin : ℕ) (readings : ℕ → Reading) (turns : ℕ → List Turn)
      (finish : ℕ) (fuel : ℕ) (retries : ℕ → ℕ)
      → AsyncLogger W
      → Option (ℕ × Stats × AsyncLogger W)
  unfolding get_total_written
  benchmark_parser_with_logger num_messages now begin readings turns finish fuel retries l =
      let (messages, gen) = pre_generate num_messages now in
      elim (start os l) [
        | returned l ↦ do
          (s, l) ← log_all readings turns 0 messages (record no_stats { start_time = begin }, l)
          l ← stop os slack fuel retries l
          some (get_total_written l, record s { end_time = finish }, l)
        | thrown l ↦ none
      ]

-- What `print_summary` reads from the latencies, in cycles of the time stamp counter.
pub record Figures : Type 0 where
  pub min : ℕ
  pub p50 : ℕ
  pub p90 : ℕ
  pub p99 : ℕ
  pub p999 : ℕ
  pub max : ℕ

pub data Summary : Type 0 where
  no_data : Summary
  figures : (total_messages : ℕ) → Figures → Summary

-- `percentile`, for a number of thousandths: `product` is the product of the size and the fraction in double
-- precision, truncated. None is an access out of range.
abbrev pub percentile : (product : ℕ → ℕ → ℕ) → List ℕ → ℕ → Option ℕ
percentile product latencies p = get_elem? latencies (product (length latencies) p)

unfoldable pub print_summary : (product : ℕ → ℕ → ℕ) → Stats → Option Summary
print_summary product s =
    let latencies = sort s.latencies in
    if length s.latencies == 0 then some no_data else do
      min ← get_elem? latencies 0
      p50 ← percentile product latencies 500
      p90 ← percentile product latencies 900
      p99 ← percentile product latencies 990
      p999 ← percentile product latencies 999
      max ← get_elem? latencies (length latencies - 1)
      some (
          figures s.total_messages
            (record { min = min; p50 = p50; p90 = p90; p99 = p99; p999 = p999; max = max }))
