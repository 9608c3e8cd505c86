-- ===== src/Programs/Tests.antt =====
-- The programs at small runs: a clock that stands still, a disk that is a list of bytes, and a logger whose
-- worker thread makes an iteration after each attempt.
use market_data_parser.Common.{
  ℕ, ◌+◌, ◌*◌, ◌/◌, ◌≡◌, refl, true, inl, some, List, [], ◌∷◌, codes, arith,
}
use market_data_parser.Common.Int.{ℤ}
use market_data_parser.Common.Bytes.{to_le}
use market_data_parser.Wire.Object
use market_data_parser.Wire.Scalars.{IsU64}
use market_data_parser.Parser.{Tsc}
use market_data_parser.Queue.{construct}
use market_data_parser.Queue.Calls.{construct-IsQuiet}
use market_data_parser.Feed.{DemoMessageGenerator, create_add_order, create_trade}
use market_data_parser.Feed.Demo.{Inputs}
use market_data_parser.Logger.{AsyncLogger, WriteMode}
use market_data_parser.Logger.Lifecycle.{queue_bits}
use market_data_parser.Logger.Holding.{Holds}
use market_data_parser.Logger.Sinks.{buffered_sink}
use market_data_parser.Logger.Tests.{disk, file, disk-Appends, slack, event}
use market_data_parser.Logger.SessionTests.{created, created-IsStopped, disk-IsFile}
use market_data_parser.Programs.{Reading, Turn}
use market_data_parser.Programs.Latencies.{spans}
use market_data_parser.Programs.Waiting.{IsFair, Waited, log_waiting-Waited}
use market_data_parser.Programs.Benchmark.{Figures, figures, print_summary, benchmark_parser_only}
use market_data_parser.Programs.Benchmark.Percentiles.{
  IsProduct, IsSummary, print_summary-benchmark_parser_only,
}
use market_data_parser.Programs.Benchmark.Logged.{
  Benchmarked, benchmark_parser_with_logger-Benchmarked,
}
use market_data_parser.Programs.Demo.{show}
use market_data_parser.Programs.Demo.Printing.{IsLine, unpadded, show-create}
use market_data_parser.Programs.Demo.Logged.{Demonstrated, demo_async_logging-Demonstrated}
use native.Mathlib.Nat.{mul-le-mul_left}

abbrev pub tsc : Tsc
tsc = record { lo = 7; hi = 1 }

abbrev pub now : ℕ → ℕ
now i = 99

pub now_u64 : (i : ℕ) → IsU64 (now i)
now_u64 i = omega arith

abbrev pub readings : ℕ → Reading
readings i = record { start = 5; stamp = tsc; end = 5 + i }

abbrev pub turns : ℕ → List Turn
turns i = record { retries = 1; worker = 0 ∷ [] } ∷ record { retries = 0; worker = [] } ∷ []

pub turns-IsFair : (i : ℕ) → IsFair (turns i)
turns-IsFair i = inl (omega arith)

-- A logger that has been started.
abbrev started : AsyncLogger (List ℕ)
started = record (created WriteMode.buffered) { fd = ℤ.pos 3; running = true; world = [] }

started-Holds : Holds disk slack (buffered_sink disk slack file disk-Appends) [] 0 started [] []
started-Holds =
    let (quiet, empty) = construct-IsQuiet queue_bits (λ i. event) (λ i. 0) in
    record {
      quiet = quiet;
      state = (refl, omega arith);
      queued = empty;
      consistent = tt;
      sent = [];
      all_logged = refl;
      in_order = refl;
      counts = refl;
    }

log_waiting-Waited_example :
    Waited disk slack (buffered_sink disk slack file disk-Appends) [] 0 (turns 0) event started []
unfolding construct Object.system_event to_le
log_waiting-Waited_example =
    log_waiting-Waited disk slack (buffered_sink disk slack file disk-Appends) [] 0 (turns 0) event
      started [] [] (turns-IsFair 0) started-Holds refl (omega arith) (omega arith)

-- The product without rounding.
abbrev product : ℕ → ℕ → ℕ
product n p = n * p / 1000

product-IsProduct : IsProduct product
product-IsProduct n p some_left lt =
    omega (arith, mul-le-mul_left {m = p} {n = 999} n (omega arith))

print_summary-benchmark_parser_only_example :
    let s = benchmark_parser_only 3 now 1 readings 2 in
    (f : Figures) × (print_summary product s ≡ some (figures 3 f))
    × IsSummary product (spans readings 3) f
print_summary-benchmark_parser_only_example =
    print_summary-benchmark_parser_only product product-IsProduct 3 now 1 readings 2 now_u64
      (omega arith) (omega arith)

benchmark_parser_with_logger-Benchmarked_example :
    Benchmarked disk slack file disk-IsFile 3 now 1 readings turns 2 2000000
      (λ i. 1)
      (created WriteMode.buffered)
unfolding construct
benchmark_parser_with_logger-Benchmarked_example =
    benchmark_parser_with_logger-Benchmarked disk slack file disk-IsFile 3 now 1 readings turns 2
      2000000 (λ i. 1) (created WriteMode.buffered) created-IsStopped refl now_u64 turns-IsFair
      (omega arith) (omega arith) (omega arith)

demo_async_logging-Demonstrated_example :
    Demonstrated disk slack file now now_u64
      (λ i. tsc)
      turns
      turns-IsFair
      disk-IsFile
      2000000
      (λ i. 1)
      (created WriteMode.buffered)
unfolding construct
demo_async_logging-Demonstrated_example =
    demo_async_logging-Demonstrated disk slack file now now_u64 (λ i. tsc) turns turns-IsFair
      disk-IsFile 2000000 (λ i. 1) (created WriteMode.buffered) created-IsStopped refl (omega arith)
      (omega arith) (omega arith)

abbrev gen : DemoMessageGenerator
gen = record { seq = 41 }

abbrev pub price_text : ℕ → List ℕ
price_text price = codes "150.0000"

ibm-Inputs : Inputs 99 (codes "IBM") b'S' 100 1500000
ibm-Inputs = record {
  now_u64 = omega arith;
  side_u8 = omega arith;
  shares_u32 = omega arith;
  price_u32 = omega arith;
  chars = omega arith;
  short = omega arith;
  unpadded = unpadded (codes "IBM") 2 refl (omega arith);
}

show-create_example :
    ((line : List ℕ) × (show price_text tsc
          (create_add_order gen 99 (codes "IBM") b'S' 100 1500000).0
        ≡ some line)
      × IsLine price_text
          (codes "ADD ORDER: ")
          (codes " (Ref: ")
          (codes "IBM")
          b'S'
          100
          1500000
          100042
          line)
    × ((line : List ℕ) × (show price_text tsc (create_trade gen 99 (codes "IBM") b'S' 100 1500000).0
          ≡ some line)
        × IsLine price_text
            (codes "TRADE: ")
            (codes " (Match: ")
            (codes "IBM")
            b'S'
            100
            1500000
            500042
            line)
show-create_example = show-create price_text gen 99 (codes "IBM") b'S' 100 1500000 ibm-Inputs tsc
