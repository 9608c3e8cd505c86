-- ===== src/Programs.antt =====
-- The programs of src/benchmark.cpp and src/demo.cpp, which parse generated messages, measure the calls and
-- log what they parsed. What both share is here: a reading of the clock, and the loop around `log`.
pub mod Waiting
pub mod Latencies
pub mod Reads
pub mod Constructed
pub mod Benchmark
pub mod Demo
pub mod Tests
mod MainTests
use market_data_parser.Common.{
  ℕ, ◌+◌, ◌-◌, ◌%◌, ◌^◌, Bool, true, false, Option, none, some, List, [], ◌∷◌, ◌>>=◌,
}
use market_data_parser.Parser.{ParsedMessage, Tsc}
use market_data_parser.Logger.{Os, AsyncLogger}
use market_data_parser.Logger.Lifecycle.{log, work}

-- What a program reads around one call of `parse`: `rdtscp` before and after it, and the registers that
-- the parser reads in between.
pub record Reading : Type 0 where
  pub start : ℕ
  pub stamp : Tsc
  pub end : ℕ

-- `end - start`, of unsigned 64-bit numbers.
unfoldable pub latency : Reading → ℕ
latency r = (r.end + 2 ^ 64 - r.start) % 2 ^ 64

-- One attempt of the loop around `log`, and the iterations of the worker thread before the next one, which
-- has the processor while the program yields. The numbers say how often the compare-exchange of a call
-- fails spuriously.
pub record Turn : Type 0 where
  pub retries : ℕ
  pub worker : List ℕ

module _ {W : Type 0} (os : Os W) (slack : ParsedMessage → List ℕ) where
  unfoldable pub work_each : List ℕ → AsyncLogger W → Option (AsyncLogger W)
  work_each [] l = some l
  work_each (retries ∷ rest) l = work os slack retries l >>= λ l. work_each rest l

  -- `while (!logger->log(*parsed)) std::this_thread::yield();`, for as many turns as there are: none if the
  -- message is still not accepted after them.
  unfoldable pub log_waiting : List Turn → ParsedMessage → AsyncLogger W → Option (AsyncLogger W)
  unfolding work_each
  log_waiting [] msg l = none
  log_waiting (turn ∷ turns) msg l = do
    (accepted, l) ← log turn.retries msg l
    l ← work_each turn.worker l
    elim accepted [ true ↦ some l | false ↦ log_waiting turns msg l ]
