-- ===== src/Programs/Benchmark/Main.antt =====
-- `main` of src/benchmark.cpp. Of what it prints only the number of bytes is modelled.
use market_data_parser.Common.{
  ℕ, ◌+◌, ◌*◌, ◌/◌, ◌^◌, ◌<◌, ◌≡◌, refl, sym, ap, ◌∙◌, false, Option, none, some, List, length,
  codes, arith, ◌>>=◌,
}
use market_data_parser.Common.Int.{ℤ}
use market_data_parser.Wire.Scalars.{IsU64}
use market_data_parser.Parser.{ParsedMessage}
use market_data_parser.Queue.{construct}
use market_data_parser.Logger.{Os, WriteMode}
use market_data_parser.Logger.Lifecycle.{queue_bits, create, destroy, is_negative, open_flags}
use market_data_parser.Logger.Draining.{destroy-stopped}
use market_data_parser.Logger.Stopping.{IsFile}
use market_data_parser.SystemUtils.{Kernel, stoul}
use market_data_parser.SystemUtils.Scoped.{unpin-kept}
use market_data_parser.Programs.Constructed.{constructed, constructed-IsStopped}
use market_data_parser.Programs.{Reading, Turn}
use market_data_parser.Programs.Waiting.{IsFair}
use market_data_parser.Programs.Benchmark.{
  Stats, benchmark_parser_only, benchmark_parser_with_logger, benchmark_with_cpu_pinning,
}
use market_data_parser.Programs.Benchmark.Counting.{benchmark_parser_only-payloads}
use market_data_parser.Programs.Benchmark.Logged.{
  Benchmarked, benchmark_parser_with_logger-Benchmarked,
}

-- The number of messages: the default, or what the first argument says; none where `stoull` throws.
abbrev pub num_messages : (argument : Option (List ℕ)) → Option ℕ
num_messages none = some 10000000
num_messages (some text) = stoul text

-- The readings of the clocks in one benchmark.
pub record BenchmarkClocks : Type 0 where
  pub now : ℕ → ℕ
  pub begin : ℕ
  pub readings : ℕ → Reading
  pub finish : ℕ

-- The statistics of the three benchmarks, and the number of bytes that the second one says were written.
pub record Result (W : Type 0) : Type 0 where
  pub parser_only : Stats
  pub written : ℕ
  pub with_logger : Stats
  pub with_cpu_pinning : Stats
  pub world : W

abbrev pub benchmark_output : List ℕ
benchmark_output = codes "benchmark_output.bin"

module _ {W C : Type 0} (os : Os W) (slack : ParsedMessage → List ℕ) (kernel : Kernel W C) where
  -- `clocks` has the clocks of each benchmark; `allocated`, `items` and `sequences` are what the logger's
  -- constructor finds. None is an exception, or a message that is never accepted. The logger is
  -- destroyed at the end of the second benchmark.
  unfoldable pub main :
      (argument : Option (List ℕ)) (clocks : ℕ → BenchmarkClocks) (allocated : Option (ℕ → ℕ))
      (items : ℕ → ParsedMessage) (sequences : ℕ → ℕ) (turns : ℕ → List Turn) (fuel : ℕ)
      (retries : ℕ → ℕ)
      → W
      → Option (Result W)
  main argument clocks allocated items sequences turns fuel retries w = do
    n ← num_messages argument
    let c = clocks 0
    let parser_only = benchmark_parser_only n c.now c.begin c.readings c.finish
    l ← create allocated benchmark_output WriteMode.buffered items sequences w
    let c = clocks 1
    (written, with_logger, l) ←
        benchmark_parser_with_logger os slack n c.now c.begin c.readings turns c.finish fuel retries
          l
    w ← destroy os slack fuel retries l
    let c = clocks 2
    let (with_cpu_pinning, w) =
        benchmark_with_cpu_pinning kernel n c.now c.begin c.readings c.finish w
    some (record {
      parser_only = parser_only;
      written = written;
      with_logger = with_logger;
      with_cpu_pinning = with_cpu_pinning;
      world = w;
    })

  pinned-only :
      (n : ℕ) (c : BenchmarkClocks) (w : W)
      → (benchmark_with_cpu_pinning kernel n c.now c.begin c.readings c.finish w).0
        ≡ benchmark_parser_only n c.now c.begin c.readings c.finish
  unfolding benchmark_with_cpu_pinning benchmark_parser_only
  pinned-only n c w = refl

  module _ (file : W → List ℕ) (d : IsFile os file)
      (kept : (mask : C) (w : W) → file (kernel.set_affinity mask w).1 ≡ file w) where
    pinned-kept :
        (n : ℕ) (c : BenchmarkClocks) (w : W)
        → file (benchmark_with_cpu_pinning kernel n c.now c.begin c.readings c.finish w).1 ≡ file w
    unfolding benchmark_with_cpu_pinning
    pinned-kept n c w = unpin-kept kernel file kept (ℤ.pos 0) w

    parser_only-counts :
        (n : ℕ) (c : BenchmarkClocks)
        → ((i : ℕ) → IsU64 (c.now i))
        → n * 38 < 2 ^ 64
        → let s = benchmark_parser_only n c.now c.begin c.readings c.finish in
          (s.total_messages ≡ n) × (s.total_bytes ≡ (n + 1) / 2 * 38 + n / 2 * 33)
    parser_only-counts n c u64 few =
        let (messages, bytes, _, _, _) =
          benchmark_parser_only-payloads n c.now c.begin c.readings c.finish u64 few in
        (messages, bytes)

    constructed-Benchmarked :
        (n : ℕ) (c : BenchmarkClocks) (buffer : ℕ → ℕ) (items : ℕ → ParsedMessage)
        (sequences : ℕ → ℕ) (turns : ℕ → List Turn) (fuel : ℕ) (retries : ℕ → ℕ) (w : W)
        → is_negative (os.open_file benchmark_output (open_flags WriteMode.buffered) w).0 ≡ false
        → ((i : ℕ) → IsU64 (c.now i))
        → ((i : ℕ) → IsFair (turns i))
        → n * 38 + 2 ^ queue_bits < 2 ^ 63
        → 2 ^ queue_bits < fuel
        → Benchmarked os slack file d n c.now c.begin c.readings turns c.finish fuel retries
            (constructed benchmark_output buffer items sequences w)
    unfolding construct
    constructed-Benchmarked n c buffer items sequences turns fuel retries w opens u64 fair fewer
          enough =
        benchmark_parser_with_logger-Benchmarked os slack file d n c.now c.begin c.readings turns
          c.finish fuel retries (constructed benchmark_output buffer items sequences w)
          (constructed-IsStopped benchmark_output buffer items sequences w) opens u64 fair
          (omega arith) (omega arith) enough

    -- The three benchmarks have run: each counts all n messages and the same number of bytes, which is the
    -- length of the log file at the end and the number that is printed as written.
    pub record Completed (argument : Option (List ℕ)) (clocks : ℕ → BenchmarkClocks)
        (buffer : ℕ → ℕ) (items : ℕ → ParsedMessage) (sequences : ℕ → ℕ) (turns : ℕ → List Turn)
        (fuel : ℕ) (retries : ℕ → ℕ) (w : W) (n : ℕ) : Type 0 where
      pub result : Result W
      pub ends :
          main argument clocks (some buffer) items sequences turns fuel retries w ≡ some result
      pub messages :
          (result.parser_only.total_messages ≡ n)
          × (result.with_logger.total_messages ≡ n)
          × (result.with_cpu_pinning.total_messages ≡ n)
      pub bytes :
          (result.parser_only.total_bytes ≡ result.written)
          × (result.with_logger.total_bytes ≡ result.written)
          × (result.with_cpu_pinning.total_bytes ≡ result.written)
      pub saved : length (file result.world) ≡ result.written

    -- The benchmark program, for the default number of messages or the one that its argument says, where the
    -- logger's buffer is allocated, the log file can be opened and every write succeeds in full: it ends,
    -- all three benchmarks count all messages and the same number of bytes, and the log file has that many
    -- bytes at the end, which is also the number printed as written. Setting the affinity does not touch
    -- the file. In one of the turns that a message is offered, not the last, the worker thread makes an
    -- iteration; the clocks have 64 bits, 38 times the number of messages is below 2^63 - 2^20, and
    -- the fuel for the worker's last loop is more than the capacity of the queue.
    pub main-Completed :
        (argument : Option (List ℕ)) (clocks : ℕ → BenchmarkClocks) (buffer : ℕ → ℕ)
        (items : ℕ → ParsedMessage) (sequences : ℕ → ℕ) (turns : ℕ → List Turn) (fuel : ℕ)
        (retries : ℕ → ℕ) (w : W) (n : ℕ)
        → num_messages argument ≡ some n
        → is_negative (os.open_file benchmark_output (open_flags WriteMode.buffered) w).0 ≡ false
        → ((b i : ℕ) → IsU64 ((clocks b).now i))
        → ((i : ℕ) → IsFair (turns i))
        → n * 38 + 2 ^ queue_bits < 2 ^ 63
        → 2 ^ queue_bits < fuel
        → Completed argument clocks buffer items sequences turns fuel retries w n
    unfolding create main
    main-Completed argument clocks buffer items sequences turns fuel retries w n count opens u64
          fair fewer enough =
        let c₀ = clocks 0 in
        let c₂ = clocks 2 in
        let (m₀, b₀) = parser_only-counts n c₀ (u64 0) (omega arith) in
        let (m₂, b₂) = parser_only-counts n c₂ (u64 2) (omega arith) in
        let r =
          constructed-Benchmarked n (clocks 1) buffer items sequences turns fuel retries w opens
            (u64 1) fair fewer enough in
        let same = pinned-only n c₂ r.final.world in
        let says : r.written ≡ r.stats.total_bytes = omega (arith, r.says) in
        let destroyed = destroy-stopped os slack fuel retries r.final r.stopped.running in
        record {
          result = record {
            parser_only = benchmark_parser_only n c₀.now c₀.begin c₀.readings c₀.finish;
            written = r.written;
            with_logger = r.stats;
            with_cpu_pinning =
                (benchmark_with_cpu_pinning kernel n c₂.now c₂.begin c₂.readings c₂.finish
                  r.final.world).0;
            world =
                (benchmark_with_cpu_pinning kernel n c₂.now c₂.begin c₂.readings c₂.finish
                  r.final.world).1;
          };
          ends = rw (main, count, r.ends, destroyed) refl;
          messages = (m₀, r.messages, ap (λ (s : Stats). s.total_messages) same ∙ m₂);
          bytes = (
            b₀ ∙ sym r.bytes ∙ sym says,
            sym says,
            ap (λ (s : Stats). s.total_bytes) same ∙ b₂ ∙ sym r.bytes ∙ sym says,
          );
          saved = ap length (pinned-kept n c₂ r.final.world) ∙ r.counts ∙ sym says;
        }
