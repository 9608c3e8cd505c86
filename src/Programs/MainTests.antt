-- ===== src/Programs/MainTests.antt =====
-- The two programs, with a kernel that accepts every affinity, and the theorems on them.
use market_data_parser.Common.{ℕ, ◌+◌, ◌≡◌, refl, true, false, none, some, List, [], codes, arith}
use market_data_parser.Logger.Tests.{disk, file, slack, event}
use market_data_parser.Logger.SessionTests.{disk-IsFile}
use market_data_parser.SystemUtils.{Kernel}
use market_data_parser.Programs.Benchmark.Main.{
  BenchmarkClocks, Completed, num_messages, main-Completed,
}
use market_data_parser.Programs.Demo.Main.{DemoClocks, Shown, main-Shown}
use market_data_parser.Programs.Tests.{tsc, now, now_u64, readings, turns, turns-IsFair, price_text}

abbrev willing : Kernel (List ℕ) ℕ
willing = record {
  no_cpus = 0;
  add_cpu = λ core mask. mask + 1;
  set_affinity = λ mask w. (true, w);
  set_fifo_priority = λ priority w. (false, w);
  mlockall = λ w. (false, w);
  munlockall = λ w. w;
  hardware_concurrency = λ w. 4;
  mmap_huge = λ size w. (none, w);
  munmap = λ ptr size w. w;
  open_for_write = λ path w. (false, w);
  put_text = λ path text w. w;
}

abbrev clocks : ℕ → BenchmarkClocks
clocks b = record { now = now; begin = b; readings = readings; finish = b + 9 }

-- Five messages, as the argument says.
five : num_messages (some (codes " 5")) ≡ some 5
five = refl

default : num_messages none ≡ some 10000000
default = refl

negative : num_messages (some (codes "-1")) ≡ some 18446744073709551615
negative = refl

no_number : num_messages (some (codes "all")) ≡ none
no_number = refl

main-Completed_example :
    Completed disk slack willing file disk-IsFile
      (λ mask w. refl)
      (some (codes " 5"))
      clocks
      (λ i. 9)
      (λ i. event)
      (λ i. 0)
      turns
      2000000
      (λ i. 1)
      []
      5
main-Completed_example =
    main-Completed disk slack willing file disk-IsFile (λ mask w. refl) (some (codes " 5")) clocks
      (λ i. 9) (λ i. event) (λ i. 0) turns 2000000 (λ i. 1) [] 5 refl refl (λ b. now_u64)
      turns-IsFair (omega arith) (omega arith)

abbrev demo_clocks : DemoClocks
demo_clocks = record {
  basic_now = now;
  basic_stamps = λ i. tsc;
  now = now;
  stamps = λ i. tsc;
  measured_now = 99;
  readings = readings;
}

main-Shown_example :
    Shown disk slack willing price_text file disk-IsFile
      (λ mask w. refl)
      demo_clocks
      (λ i. 9)
      (λ i. event)
      (λ i. 0)
      turns
      2000000
      (λ i. 1)
      []
main-Shown_example =
    main-Shown disk slack willing price_text file disk-IsFile (λ mask w. refl) demo_clocks (λ i. 9)
      (λ i. event) (λ i. 0) turns 2000000 (λ i. 1) [] refl turns-IsFair (omega arith)
