-- ===== src/Programs/Benchmark/Percentiles.antt =====
-- The figures of the summary.
use market_data_parser.Common.{
  ℕ, suc, ◌-◌, ◌*◌, ◌<◌, ◌≡◌, refl, ap, ◌∙◌, false, some, List, length, get_elem?, ◌==◌, ◌^◌, arith,
}
use market_data_parser.Wire.Scalars.{IsU64}
use market_data_parser.Programs.{Reading}
use market_data_parser.Programs.Latencies.{sort, length-sort, get_elem?-sort, IsRank, spans}
use market_data_parser.Programs.Benchmark.{
  Stats, Figures, figures, print_summary, benchmark_parser_only,
}
use market_data_parser.Programs.Benchmark.Counting.{
  benchmark_parser_only-payloads, benchmark_parser_only-spans,
}

-- The product with a fraction below 1, truncated, is less than the size.
abbrev pub IsProduct : (product : ℕ → ℕ → ℕ) → Type 0
IsProduct product = (n p : ℕ) → 0 < n → p < 1000 → product n p < n

-- Each figure is the latency of its rank.
pub record IsSummary (product : ℕ → ℕ → ℕ) (latencies : List ℕ) (f : Figures) : Type 0 where
  pub min : IsRank latencies 0 f.min
  pub p50 : IsRank latencies (product (length latencies) 500) f.p50
  pub p90 : IsRank latencies (product (length latencies) 900) f.p90
  pub p99 : IsRank latencies (product (length latencies) 990) f.p99
  pub p999 : IsRank latencies (product (length latencies) 999) f.p999
  pub max : IsRank latencies (length latencies - 1) f.max

module _ (product : ℕ → ℕ → ℕ) (d : IsProduct product) where
  -- What is printed for given elements of the sorted latencies.
  print_summary-figures :
      (s : Stats) (f : Figures)
      → (length s.latencies == 0) ≡ false
      → get_elem? (sort s.latencies) 0 ≡ some f.min
      → get_elem? (sort s.latencies) (product (length s.latencies) 500) ≡ some f.p50
      → get_elem? (sort s.latencies) (product (length s.latencies) 900) ≡ some f.p90
      → get_elem? (sort s.latencies) (product (length s.latencies) 990) ≡ some f.p99
      → get_elem? (sort s.latencies) (product (length s.latencies) 999) ≡ some f.p999
      → get_elem? (sort s.latencies) (length s.latencies - 1) ≡ some f.max
      → print_summary product s ≡ some (figures s.total_messages f)
  unfolding print_summary
  print_summary-figures s f nonempty ea e₁ e₂ e₃ e₄ eb =
      rw (nonempty, length-sort s.latencies, ea, e₁, e₂, e₃, e₄, eb) refl

  -- The summary of at least one latency.
  print_summary-IsSummary :
      (s : Stats) (n : ℕ)
      → length s.latencies ≡ suc n
      → (f : Figures) × (print_summary product s ≡ some (figures s.total_messages f))
        × IsSummary product s.latencies f
  print_summary-IsSummary s n size =
      let xs = s.latencies in
      let nonempty : (length s.latencies == 0) ≡ false = ground (arith, size) in
      let below : (p : ℕ) → p < 1000 → product (length xs) p < length xs =
        λ p lt. d (length xs) p (omega arith) lt in
      let (a, ea, ra) = get_elem?-sort xs 0 (omega arith) in
      let (x₁, e₁, r₁) = get_elem?-sort xs (product (length xs) 500) (below 500 (omega arith)) in
      let (x₂, e₂, r₂) = get_elem?-sort xs (product (length xs) 900) (below 900 (omega arith)) in
      let (x₃, e₃, r₃) = get_elem?-sort xs (product (length xs) 990) (below 990 (omega arith)) in
      let (x₄, e₄, r₄) = get_elem?-sort xs (product (length xs) 999) (below 999 (omega arith)) in
      let (b, eb, rb) = get_elem?-sort xs (length xs - 1) (omega arith) in
      let f : Figures = record { min = a; p50 = x₁; p90 = x₂; p99 = x₃; p999 = x₄; max = b } in
      (
        f,
        print_summary-figures s f nonempty ea e₁ e₂ e₃ e₄ eb,
        record { min = ra; p50 = r₁; p90 = r₂; p99 = r₃; p999 = r₄; max = rb },
      )

  -- The first benchmark with at least one message prints a summary: no access to the latencies is out of
  -- range, the number of messages is that of the command line, and each figure is the latency of its
  -- rank, from zero in rising order, among the differences, modulo 2^64, of the readings around the calls of
  -- `parse`, one for each message: rank 0 for the least, the products of the number of latencies and 0.5, 0.9,
  -- 0.99 and 0.999 for the percentiles, and the last rank for the greatest. The clock readings for the
  -- messages are 64-bit numbers, 38 times the number of messages is below 2^64, and the product of a
  -- positive size and a fraction below 1, in double precision and truncated, is below the size.
  pub print_summary-benchmark_parser_only :
      (n : ℕ) (now : ℕ → ℕ) (begin : ℕ) (readings : ℕ → Reading) (finish : ℕ)
      → ((i : ℕ) → IsU64 (now i))
      → 0 < n
      → n * 38 < 2 ^ 64
      → let s = benchmark_parser_only n now begin readings finish in
        (f : Figures) × (print_summary product s ≡ some (figures n f))
        × IsSummary product (spans readings n) f
  print_summary-benchmark_parser_only n now begin readings finish u64 some_message few =
      let s = benchmark_parser_only n now begin readings finish in
      let (messages, bytes, latencies, start, end) =
        benchmark_parser_only-payloads n now begin readings finish u64 few in
      let (f, e, o) = print_summary-IsSummary s (n - 1) (omega (arith, latencies)) in
      let same = benchmark_parser_only-spans n now begin readings finish u64 in
      (f, e ∙ ap (λ m. some (figures m f)) messages, rw same at o)
