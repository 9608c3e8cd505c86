-- ===== src/Programs/Benchmark/Counting.antt =====
-- What the benchmarks count: every generated message is parsed.
use market_data_parser.Common.{
  ℕ, suc, ap, ◌∙◌, ◌++◌, ◌+◌, ◌*◌, ◌/◌, ◌^◌, ◌<◌, ◌≡◌, refl, List, [], ◌∷◌, length, length-append,
  arith,
}
use market_data_parser.Wire.Scalars.{IsU64}
use market_data_parser.Parser.{Payload}
use market_data_parser.Programs.{Reading, latency}
use market_data_parser.Programs.Latencies.{spans}
use market_data_parser.Programs.Reads.{IsRead, Reads, sizes}
use market_data_parser.Programs.Benchmark.{
  Stats, no_stats, add_latency, count_message, pre_generate, parse_all, benchmark_parser_only,
}
use market_data_parser.Programs.Benchmark.Generated.{
  payloads, length-payloads, sizes-payloads, pre_generate-Reads,
}

-- Statistics after the messages `bs`.
pub record Counted (s : Stats) (bs : List Payload) (s' : Stats) : Type 0 where
  pub latencies : length s'.latencies ≡ length s.latencies + length bs
  pub messages : s'.total_messages ≡ s.total_messages + length bs
  pub bytes : s'.total_bytes ≡ s.total_bytes + sizes bs
  pub started : s'.start_time ≡ s.start_time

pub Counted-nil : (s : Stats) → Counted s [] s
Counted-nil s = record {
  latencies = omega arith;
  messages = omega arith;
  bytes = omega arith;
  started = refl;
}

pub Counted-cons :
    (r : Reading) (msg : List ℕ) (b : Payload) (bs : List Payload) (s s' : Stats)
    → IsRead msg b
    → s.total_messages + length (b ∷ bs) < 2 ^ 64
    → s.total_bytes + sizes (b ∷ bs) < 2 ^ 64
    → Counted (count_message r msg s) bs s'
    → Counted s (b ∷ bs) s'
unfolding count_message
Counted-cons r msg b bs s s' h few small c = record {
  latencies = omega (arith, c.latencies, length-append s.latencies (latency r ∷ []));
  messages = omega (arith, c.messages);
  bytes = omega (arith, c.bytes, h.size);
  started = c.started;
}

parse_all-Counted :
    (readings : ℕ → Reading) (i : ℕ) (messages : List (List ℕ)) (bs : List Payload) (s : Stats)
    → Reads messages bs
    → s.total_messages + length bs < 2 ^ 64
    → s.total_bytes + sizes bs < 2 ^ 64
    → Counted s bs (parse_all readings i messages s)
unfolding parse_all count_message
parse_all-Counted readings i [] [] s h few small = Counted-nil s
parse_all-Counted readings i [] (b ∷ bs) s h few small = absurd h
parse_all-Counted readings i (msg ∷ messages) [] s h few small = absurd h
parse_all-Counted readings i (msg ∷ messages) (b ∷ bs) s h few small =
    let rest =
      parse_all-Counted readings (i + 1) messages bs (count_message (readings i) msg s) h.1
        (omega arith) (omega (arith, h.0.size)) in
    rw (h.0.accepted (readings i).stamp) (Counted-cons (readings i) msg b bs s _ h.0 few small rest)

-- The first benchmark counts every one of its messages, and a latency for each: of n messages, the half that
-- is rounded up are add orders of 38 bytes, the others executions of 33 bytes. The readings of the time
-- stamp counter are 64-bit numbers, and 38 times the number of messages is below 2^64.
pub benchmark_parser_only-payloads :
    (n : ℕ) (now : ℕ → ℕ) (begin : ℕ) (readings : ℕ → Reading) (finish : ℕ)
    → ((i : ℕ) → IsU64 (now i))
    → n * 38 < 2 ^ 64
    → let s = benchmark_parser_only n now begin readings finish in
      (s.total_messages ≡ n)
      × (s.total_bytes ≡ (n + 1) / 2 * 38 + n / 2 * 33)
      × (length s.latencies ≡ n)
      × (s.start_time ≡ begin)
      × (s.end_time ≡ finish)
unfolding benchmark_parser_only
benchmark_parser_only-payloads n now begin readings finish u64 few =
    let (reads, counter) = pre_generate-Reads now u64 n in
    let c =
      parse_all-Counted readings 0 (pre_generate n now).0 (payloads now n)
        (record no_stats { start_time = begin }) reads (omega (arith, length-payloads now n))
        (omega (arith, sizes-payloads now n)) in
    (
      omega (arith, c.messages, length-payloads now n),
      omega (arith, c.bytes, sizes-payloads now n),
      omega (arith, c.latencies, length-payloads now n),
      c.started,
      refl,
    )

-- The latency of each message is the difference of its readings.
parse_all-spans :
    (readings : ℕ → Reading) (i : ℕ) (messages : List (List ℕ)) (bs : List Payload) (s : Stats)
    → Reads messages bs
    → s.latencies ≡ spans readings i
    → (parse_all readings i messages s).latencies ≡ spans readings (i + length bs)
unfolding parse_all count_message add_latency latency
parse_all-spans readings i [] [] s h before = let same : i + 0 ≡ i = omega arith in rw same before
parse_all-spans readings i [] (b ∷ bs) s h before = absurd h
parse_all-spans readings i (msg ∷ messages) [] s h before = absurd h
parse_all-spans readings i (msg ∷ messages) (b ∷ bs) s h before =
    let next : i + 1 ≡ suc i = omega arith in
    let further : i + 1 + length bs ≡ i + suc (length bs) = omega arith in
    let one_more : (count_message (readings i) msg s).latencies ≡ spans readings (i + 1) =
      rw next (ap (λ xs. xs ++ (latency (readings i) ∷ [])) before) in
    let rest =
      parse_all-spans readings (i + 1) messages bs (count_message (readings i) msg s) h.1
        one_more in
    rw (parse_all, h.0.accepted (readings i).stamp) (rest ∙ ap (spans readings) further)

pub benchmark_parser_only-spans :
    (n : ℕ) (now : ℕ → ℕ) (begin : ℕ) (readings : ℕ → Reading) (finish : ℕ)
    → ((i : ℕ) → IsU64 (now i))
    → (benchmark_parser_only n now begin readings finish).latencies ≡ spans readings n
unfolding benchmark_parser_only
benchmark_parser_only-spans n now begin readings finish u64 =
    let (reads, counter) = pre_generate-Reads now u64 n in
    let all : 0 + length (payloads now n) ≡ n = omega (arith, length-payloads now n) in
    parse_all-spans readings 0 (pre_generate n now).0 (payloads now n)
      (record no_stats { start_time = begin }) reads refl
    ∙ ap (spans readings) all
