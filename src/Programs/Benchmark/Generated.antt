-- ===== src/Programs/Benchmark/Generated.antt =====
-- The messages that the benchmarks generate, and how long they are together.
use market_data_parser.Common.{
  ℕ, zero, suc, ◌+◌, ◌*◌, ◌/◌, ◌%◌, ◌^◌, ◌≡◌, refl, ap, Bool-cases, inl, inr, List, [], ◌∷◌, ◌++◌,
  length, ◌==◌, if◌then◌else◌, arith,
}
use market_data_parser.Wire.Scalars.{IsU64}
use market_data_parser.Wire.ObjectLength
use market_data_parser.Parser.{Payload, add_order, execute_order}
use market_data_parser.Parser.Members.{size_of}
use market_data_parser.Feed.{MessageGenerator, count, generate_add_order, generate_execute_order}
use market_data_parser.Feed.Bench.{
  bench_add_order, bench_execute_order, parse-generate_add_order, parse-generate_execute_order,
}
use market_data_parser.Programs.Reads.{IsRead, Reads, Reads-snoc, sizes, sizes-snoc, length-snoc}
use market_data_parser.Programs.Benchmark.{pre_generate}

generate_add_order-IsRead :
    (gen : MessageGenerator) (now : ℕ)
    → IsU64 now
    → IsRead (generate_add_order gen now).0 (add_order (bench_add_order gen now))
unfolding generate_add_order
generate_add_order-IsRead gen now h = record {
  accepted = λ tsc. parse-generate_add_order gen now h tsc;
  size = ObjectLength.add_order _;
  in_memory = ObjectLength.add_order _;
}

generate_execute_order-IsRead :
    (gen : MessageGenerator) (now : ℕ)
    → IsU64 now
    → IsRead (generate_execute_order gen now).0 (execute_order (bench_execute_order gen now))
unfolding generate_execute_order
generate_execute_order-IsRead gen now h = record {
  accepted = λ tsc. parse-generate_execute_order gen now h tsc;
  size = ObjectLength.execute_order _;
  in_memory = ObjectLength.execute_order _;
}

abbrev with_counter : ℕ → MessageGenerator
with_counter c = record { counter = c }

-- The i-th message, in host order.
abbrev pub payload : (now : ℕ → ℕ) (i : ℕ) → Payload
payload now i =
    let gen = with_counter (i % 2 ^ 32) in
    if i % 2 == 0
    then add_order (bench_add_order gen (now i))
    else execute_order (bench_execute_order gen (now i))

abbrev pub payloads : (now : ℕ → ℕ) (n : ℕ) → List Payload
payloads now zero = []
payloads now (suc i) = payloads now i ++ (payload now i ∷ [])

module _ (now : ℕ → ℕ) where
  pub length-payloads : (n : ℕ) → length (payloads now n) ≡ n
  length-payloads zero = refl
  length-payloads (suc i) =
      omega (arith, length-payloads i, length-snoc (payloads now i) (payload now i))

  pub sizes-payloads : (n : ℕ) → sizes (payloads now n) ≡ (n + 1) / 2 * 38 + n / 2 * 33
  sizes-payloads zero = refl
  sizes-payloads (suc i) = elim (Bool-cases (i % 2 == 0)) [
    | inl even ↦
        let more : size_of (payload now i) ≡ 38 = rw even refl in
        ground (arith, even, sizes-payloads i, sizes-snoc (payloads now i) (payload now i))
    | inr odd ↦
        let more : size_of (payload now i) ≡ 33 = rw odd refl in
        ground (arith, odd, sizes-payloads i, sizes-snoc (payloads now i) (payload now i))
  ]

  pub pre_generate-Reads :
      ((i : ℕ) → IsU64 (now i))
      → (n : ℕ)
      → Reads (pre_generate n now).0 (payloads now n)
        × ((pre_generate n now).1 ≡ record { counter = n % 2 ^ 32 })
  unfolding pre_generate generate_add_order generate_execute_order count
  pre_generate-Reads u64 zero = (tt, refl)
  pre_generate-Reads u64 (suc i) =
      let (reads, counted) = pre_generate-Reads u64 i in
      let gen = with_counter (i % 2 ^ 32) in
      let next =
        ap with_counter {x = (i % 2 ^ 32 + 1) % 2 ^ 32} {y = suc i % 2 ^ 32} (omega arith) in
      elim (Bool-cases (i % 2 == 0)) [
        | inl even ↦
            rw (even, counted)
              (
                Reads-snoc (pre_generate i now).0 (payloads now i) _ _ reads
                    (generate_add_order-IsRead gen (now i) (u64 i)),
                next,
              )
        | inr odd ↦
            rw (odd, counted)
              (
                Reads-snoc (pre_generate i now).0 (payloads now i) _ _ reads
                    (generate_execute_order-IsRead gen (now i) (u64 i)),
                next,
              )
      ]
