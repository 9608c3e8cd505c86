-- ===== src/Programs/Demo/Main.antt =====
-- `main` of src/demo.cpp: its three demos, one after the other.
use market_data_parser.Common.{
  ℕ, ◌+◌, ◌*◌, ◌^◌, ◌≤◌, ◌<◌, ◌≡◌, refl, sym, ap, ◌∙◌, Option, some, List, ◌++◌, length, codes,
  false, arith, ◌>>=◌,
}
use market_data_parser.Common.Int.{ℤ}
use market_data_parser.Wire.Scalars.{IsU64}
use market_data_parser.Parser.{ParsedMessage, Tsc}
use market_data_parser.Queue.{construct}
use market_data_parser.Feed.{get_itch_timestamp}
use market_data_parser.Feed.Stamp.{get_itch_timestamp-IsU64}
use market_data_parser.Logger.{Os, WriteMode}
use market_data_parser.Logger.Lifecycle.{queue_bits, create, destroy, is_negative, open_flags}
use market_data_parser.Logger.Draining.{destroy-stopped}
use market_data_parser.Logger.Stopping.{IsFile}
use market_data_parser.SystemUtils.{Kernel}
use market_data_parser.SystemUtils.Scoped.{unpin-kept}
use market_data_parser.Programs.{Reading, Turn}
use market_data_parser.Programs.Waiting.{IsFair}
use market_data_parser.Programs.Latencies.{spans}
use market_data_parser.Programs.Constructed.{constructed, constructed-IsStopped}
use market_data_parser.Programs.Demo.{
  Report, demo_basic_parsing, demo_async_logging, demo_performance_features,
}
use market_data_parser.Programs.Demo.Printing.{demo_lines, demo_basic_parsing-lines}
use market_data_parser.Programs.Demo.Logged.{demo_async_logging-Demonstrated}
use market_data_parser.Programs.Demo.Measured.{IsReport, demo_performance_features-IsReport}

-- The readings of the system clock for the messages of the three demos, in nanoseconds, and what the
-- processor's counter gives when messages are parsed.
pub record DemoClocks : Type 0 where
  pub basic_now : ℕ → ℕ
  pub basic_stamps : ℕ → Tsc
  pub now : ℕ → ℕ
  pub stamps : ℕ → Tsc
  pub measured_now : ℕ
  pub readings : ℕ → Reading

-- What the program prints, as far as it is modelled, and the world that it leaves.
pub record Output (W : Type 0) : Type 0 where
  pub lines : List ℕ
  pub queue_size : ℕ
  pub written : ℕ
  pub latencies : Report
  pub world : W

abbrev pub demo_output : List ℕ
demo_output = codes "demo_output.bin"

-- The time stamps of the generated messages.
abbrev pub stamped : (now : ℕ → ℕ) → ℕ → ℕ
stamped now i = get_itch_timestamp (now i)

stamped-IsU64 : (now : ℕ → ℕ) (i : ℕ) → IsU64 (stamped now i)
stamped-IsU64 now i = get_itch_timestamp-IsU64 (now i)

module _ {W C : Type 0} (os : Os W) (slack : ParsedMessage → List ℕ) (kernel : Kernel W C)
    (price_text : ℕ → List ℕ) where
  -- `allocated`, `items` and `sequences` are what the logger's constructor finds. None is an exception, an
  -- access out of range, or a message that is never accepted. The logger is destroyed at the end of
  -- the second demo.
  unfoldable pub main :
      (clocks : DemoClocks) (allocated : Option (ℕ → ℕ)) (items : ℕ → ParsedMessage)
      (sequences : ℕ → ℕ) (turns : ℕ → List Turn) (fuel : ℕ) (retries : ℕ → ℕ)
      → W
      → Option (Output W)
  main clocks allocated items sequences turns fuel retries w = do
    lines ← demo_basic_parsing price_text (stamped clocks.basic_now) clocks.basic_stamps
    l ← create allocated demo_output WriteMode.buffered items sequences w
    (queue_size, written, l) ←
        demo_async_logging os slack (stamped clocks.now) clocks.stamps turns fuel retries l
    w ← destroy os slack fuel retries l
    let (latencies, w) =
        demo_performance_features kernel (get_itch_timestamp clocks.measured_now) clocks.readings w
    latencies ← latencies
    some (record {
      lines = lines;
      queue_size = queue_size;
      written = written;
      latencies = latencies;
      world = w;
    })

  module _ (file : W → List ℕ) (d : IsFile os file)
      (kept : (mask : C) (w : W) → file (kernel.set_affinity mask w).1 ≡ file w) where
    features-kept :
        (clocks : DemoClocks) (w : W)
        → file
            (demo_performance_features kernel
              (get_itch_timestamp clocks.measured_now)
              clocks.readings
              w).1
          ≡ file w
    unfolding demo_performance_features
    features-kept clocks w = unpin-kept kernel file kept (ℤ.pos 0) w

    -- The three demos have run: the lines of three messages, a queue size of at most the capacity, the
    -- 42000 bytes of a thousand messages, printed and in the file, and the report on ten thousand latencies.
    pub record Shown (clocks : DemoClocks) (buffer : ℕ → ℕ) (items : ℕ → ParsedMessage)
        (sequences : ℕ → ℕ) (turns : ℕ → List Turn) (fuel : ℕ) (retries : ℕ → ℕ) (w : W)
        : Type 0 where
      pub output : Output W
      pub ends : main clocks (some buffer) items sequences turns fuel retries w ≡ some output
      pub lines :
          output.lines
          ≡ (codes "ADD ORDER: AAPL BUY 100 @ $" ++ price_text 1500000 ++ codes " (Ref: 100001)\n")
            ++ (codes "ADD ORDER: MSFT SELL 50 @ $"
                ++ price_text 3200000
                ++ codes " (Ref: 100002)\n")
            ++ (codes "TRADE: GOOGL BUY 25 @ $" ++ price_text 1400000 ++ codes " (Match: 500003)\n")
      pub queued : output.queue_size ≤ 2 ^ queue_bits
      pub written : output.written ≡ 500 * 38 + 500 * 46
      pub saved : length (file output.world) ≡ output.written
      pub ranked : IsReport (spans clocks.readings 10000) output.latencies

    -- The demo program, where the logger's buffer is allocated, the log file can be opened and every write
    -- succeeds in full: it ends, and prints the lines of its three sample messages, a buy order for 100
    -- AAPL, a sell order for 50 MSFT and a trade of 25 GOOGL, a queue size of at most the capacity, 42000 as
    -- the number of bytes written, which is the length of the log file at the end, and the latencies of
    -- rank 0, 5000, 9900 and 9999, from zero in rising order, as minimum, median, 99th percentile and maximum
    -- of the ten thousand differences, modulo 2^64, of the readings around the calls of `parse`. Setting
    -- the affinity does not touch the file. In one of the turns that a message is offered, not the last, the
    -- worker thread makes an iteration, and the fuel for the worker's last loop
    -- is more than the capacity of the queue.
    pub main-Shown :
        (clocks : DemoClocks) (buffer : ℕ → ℕ) (items : ℕ → ParsedMessage) (sequences : ℕ → ℕ)
        (turns : ℕ → List Turn) (fuel : ℕ) (retries : ℕ → ℕ) (w : W)
        → is_negative (os.open_file demo_output (open_flags WriteMode.buffered) w).0 ≡ false
        → ((i : ℕ) → IsFair (turns i))
        → 2 ^ queue_bits < fuel
        → Shown clocks buffer items sequences turns fuel retries w
    unfolding construct create main
    main-Shown clocks buffer items sequences turns fuel retries w opens fair enough =
        let c = clocks in
        let text =
          demo_basic_parsing-lines price_text (stamped c.basic_now) c.basic_stamps
            (stamped-IsU64 c.basic_now) in
        let r =
          demo_async_logging-Demonstrated os slack file (stamped c.now) (stamped-IsU64 c.now)
            c.stamps turns fair d fuel retries (constructed demo_output buffer items sequences w)
            (constructed-IsStopped demo_output buffer items sequences w) opens (omega arith)
            (omega arith) enough in
        let destroyed = destroy-stopped os slack fuel retries r.final r.stopped.running in
        let (report, e, ranked) =
          demo_performance_features-IsReport (get_itch_timestamp c.measured_now)
            (get_itch_timestamp-IsU64 c.measured_now) c.readings kernel r.final.world in
        let says : r.written ≡ length (file r.final.world) = omega (arith, r.says) in
        record {
          output = record {
            lines = demo_lines price_text;
            queue_size = r.queue_size;
            written = r.written;
            latencies = report;
            world =
                (demo_performance_features kernel (get_itch_timestamp c.measured_now) c.readings
                  r.final.world).1;
          };
          ends = rw (main, text, r.ends, destroyed, e) refl;
          lines = refl;
          queued = r.queued;
          written = says ∙ r.counts;
          saved = ap length (features-kept clocks r.final.world) ∙ sym says;
          ranked = ranked;
        }
