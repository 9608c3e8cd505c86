-- ===== src/Programs/Benchmark/Logged.antt =====
-- The benchmark with the logger: what is parsed is in the file.
use market_data_parser.Common.{
  ℕ, ◌+◌, ◌*◌, ◌/◌, ◌^◌, ◌≤◌, ◌<◌, ◌≡◌, refl, ap, ◌∙◌, false, some, List, [], ◌∷◌, ◌++◌, length,
  arith,
}
use market_data_parser.Wire.Scalars.{IsU64}
use market_data_parser.Parser.{Payload, ParsedMessage, Tsc}
use market_data_parser.Parser.Members.{parsed}
use market_data_parser.Logger.{Os, AsyncLogger}
use market_data_parser.Logger.Buffered.{Appends, bytes_of}
use market_data_parser.Logger.Lifecycle.{queue_bits, is_negative, open_flags, start, stop, returned}
use market_data_parser.Logger.Holding.{Holds}
use market_data_parser.Logger.Sinks.{buffered_sink}
use market_data_parser.Logger.Stopping.{IsStopped, IsFile, start-Holds, stop-IsStopped}
use market_data_parser.Programs.{Reading, Turn}
use market_data_parser.Programs.Waiting.{IsFair, log_waiting-Waited}
use market_data_parser.Programs.Reads.{
  Reads, sizes, stamped, length-bytes_of-stamped, length-logged,
}
use market_data_parser.Programs.Benchmark.{
  Stats, no_stats, count_message, pre_generate, log_all, benchmark_parser_with_logger,
}
use market_data_parser.Programs.Benchmark.Generated.{
  payloads, length-payloads, sizes-payloads, pre_generate-Reads,
}
use market_data_parser.Programs.Benchmark.Counting.{Counted, Counted-nil, Counted-cons}
use mathlib.Core.List.{append-nil, append_assoc}

-- The times at which the messages are parsed.
abbrev pub stamps : (readings : ℕ → Reading) → ℕ → Tsc
stamps readings i = (readings i).stamp

module _ {W : Type 0} (os : Os W) (slack : ParsedMessage → List ℕ) (file : W → List ℕ) where
  module _ (a : Appends os file) (base : List ℕ) (total : ℕ) (readings : ℕ → Reading)
      (turns : ℕ → List Turn) (fair : (i : ℕ) → IsFair (turns i)) where
    log_all-Holds :
        (i : ℕ) (messages : List (List ℕ)) (bs : List Payload) (s : Stats) (l : AsyncLogger W)
        (items accepted : List ParsedMessage)
        → Reads messages bs
        → Holds os slack (buffered_sink os slack file a) base total l items accepted
        → total + length (bytes_of accepted) + sizes bs < 2 ^ 64
        → l.queue.head + length bs + 2 ^ queue_bits < 2 ^ 63
        → s.total_messages + length bs < 2 ^ 64
        → s.total_bytes + sizes bs < 2 ^ 64
        → (s' : Stats) × (l' : AsyncLogger W) × (items' : List ParsedMessage) × (log_all os slack
              readings turns i messages
              (s, l)
            ≡ some (s', l'))
          × Counted s bs s'
          × Holds os slack
              (buffered_sink os slack file a)
              base
              total
              l'
              items'
              (accepted ++ stamped (stamps readings) i bs)
          × (l'.queue.head ≤ l.queue.head + length bs)
          × (l'.running ≡ l.running)
    unfolding log_all count_message
    log_all-Holds i [] [] s l items accepted h holds fewer far few small =
        (s, l, items, refl, Counted-nil s, rw (append-nil accepted) holds, omega arith, refl)
    log_all-Holds i [] (b ∷ bs) s l items accepted h holds fewer far few small = absurd h
    log_all-Holds i (msg ∷ messages) [] s l items accepted h holds fewer far few small = absurd h
    log_all-Holds i (msg ∷ messages) (b ∷ bs) s l items accepted h holds fewer far few small =
        let tsc = (readings i).stamp in
        let longer = length-logged accepted b tsc in
        let w =
          log_waiting-Waited os slack (buffered_sink os slack file a) base total (turns i)
            (parsed b tsc) l items accepted (fair i) holds refl (omega (arith, h.0.in_memory))
            (omega arith) in
        let (s', l', items', e, c, holds', head, running) =
          log_all-Holds (i + 1) messages bs (count_message (readings i) msg s) w.after w.left
            (accepted ++ (parsed b tsc ∷ [])) h.1 w.holds (omega (arith, h.0.in_memory))
            (omega (arith, w.head_step)) (omega arith) (omega (arith, h.0.size)) in
        (
          s',
          l',
          items',
          rw (h.0.accepted tsc, w.ends) e,
          Counted-cons (readings i) msg b bs s s' h.0 few small c,
          rw (append_assoc accepted (parsed b tsc ∷ []) (stamped (stamps readings) (i + 1) bs)) at
              holds',
          omega (arith, w.head_step),
          running ∙ w.running_kept,
        )

  benchmark_parser_with_logger-some :
      (n : ℕ) (now : ℕ → ℕ) (begin : ℕ) (readings : ℕ → Reading) (turns : ℕ → List Turn)
      (finish : ℕ) (fuel : ℕ) (retries : ℕ → ℕ) (l l₀ l₁ l₂ : AsyncLogger W) (s : Stats)
      → start os l ≡ returned l₀
      → log_all os slack readings turns 0
          (pre_generate n now).0
          (record no_stats { start_time = begin }, l₀)
        ≡ some (s, l₁)
      → stop os slack fuel retries l₁ ≡ some l₂
      → benchmark_parser_with_logger os slack n now begin readings turns finish fuel retries l
        ≡ some (l₂.total_written, record s { end_time = finish }, l₂)
  unfolding benchmark_parser_with_logger
  benchmark_parser_with_logger-some n now begin readings turns finish fuel retries l l₀ l₁ l₂ s e₀
        e₁ e₂ =
      rw (benchmark_parser_with_logger, e₀, e₁, e₂) refl

  module _ (d : IsFile os file) where
    -- The benchmark ends and counts all its messages, the logger is stopped, and the file holds the bytes in
    -- memory of the messages as they were parsed, in their order, as many as were counted. The number
    -- that is printed as written is the counter before with these bytes.
    pub record Benchmarked (n : ℕ) (now : ℕ → ℕ) (begin : ℕ) (readings : ℕ → Reading)
        (turns : ℕ → List Turn) (finish : ℕ) (fuel : ℕ) (retries : ℕ → ℕ) (l : AsyncLogger W)
        : Type 0 where
      pub written : ℕ
      pub stats : Stats
      pub final : AsyncLogger W
      pub ends :
          benchmark_parser_with_logger os slack n now begin readings turns finish fuel retries l
          ≡ some (written, stats, final)
      pub stopped : IsStopped final
      pub messages : stats.total_messages ≡ n
      pub bytes : stats.total_bytes ≡ (n + 1) / 2 * 38 + n / 2 * 33
      pub contents : file final.world ≡ bytes_of (stamped (stamps readings) 0 (payloads now n))
      pub counts : length (file final.world) ≡ stats.total_bytes
      pub says : written ≡ l.total_written + stats.total_bytes

    -- The second benchmark with a stopped or new logger in BUFFERED mode, where the file can be opened and
    -- every write succeeds in full: it ends, all its n messages are parsed, accepted and counted, and the file then
    -- holds their bytes in memory, in the order in which they were parsed and nothing else: the total of
    -- the statistics, 38 bytes for each add order and 33 for each execution. The number printed as written
    -- has grown by it. In one of the turns that a message is offered, not the last, the worker
    -- thread makes an iteration; the readings of the time stamp counter are 64-bit numbers, the positions of the
    -- queue stay below 2^63, the totals below 2^64, and the fuel for the last loop is more than the
    -- capacity of the queue.
    pub benchmark_parser_with_logger-Benchmarked :
        (n : ℕ) (now : ℕ → ℕ) (begin : ℕ) (readings : ℕ → Reading) (turns : ℕ → List Turn)
        (finish : ℕ) (fuel : ℕ) (retries : ℕ → ℕ) (l : AsyncLogger W)
        → IsStopped l
        → is_negative (os.open_file l.filename (open_flags l.write_mode) l.world).0 ≡ false
        → ((i : ℕ) → IsU64 (now i))
        → ((i : ℕ) → IsFair (turns i))
        → l.queue.head + n + 2 ^ queue_bits < 2 ^ 63
        → l.total_written + n * 38 < 2 ^ 64
        → 2 ^ queue_bits < fuel
        → Benchmarked n now begin readings turns finish fuel retries l
    benchmark_parser_with_logger-Benchmarked n now begin readings turns finish fuel retries l s
          opens u64 fair far fewer enough =
        let bs = payloads now n in
        let long = length-payloads now n in
        let big = sizes-payloads now n in
        let (reads, counter) = pre_generate-Reads now u64 n in
        let size = length-bytes_of-stamped (stamps readings) 0 (pre_generate n now).0 bs reads in
        let (l₀, e₀, h₀, run₀, queue₀) = start-Holds os slack file d l s opens in
        let head₀ = ap (λ q. q.head) queue₀ in
        let (s₁, l₁, items, e₁, c, h₁, head₁, run₁) =
          log_all-Holds d.appends [] l.total_written readings turns fair 0 (pre_generate n now).0 bs
            (record no_stats { start_time = begin }) l₀ [] [] reads h₀ (omega arith)
            (omega (arith, head₀)) (omega arith) (omega arith) in
        let (l₂, e₂, stopped, contents, total, head₂) =
          stop-IsStopped os slack file d (stamped (stamps readings) 0 bs) items l.total_written fuel
            retries l₁ h₁ (run₁ ∙ run₀) (omega (arith, head₀)) (omega (arith, size)) enough in
        record {
          written = l₂.total_written;
          stats = record s₁ { end_time = finish };
          final = l₂;
          ends =
              benchmark_parser_with_logger-some n now begin readings turns finish fuel retries l l₀
                l₁ l₂ s₁ e₀ e₁ e₂;
          stopped = stopped;
          messages = omega (arith, c.messages);
          bytes = omega (arith, c.bytes);
          contents = contents;
          counts = omega (arith, ap length {x = file l₂.world} contents, size, c.bytes);
          says = omega (arith, total, size, c.bytes);
        }
