-- ===== src/Programs/Demo/Logged.antt =====
-- The demo with the logger: its thousand messages are in the file.
use market_data_parser.Common.{
  ℕ, zero, suc, ◌+◌, ◌*◌, ◌/◌, ◌^◌, ◌≤◌, ◌<◌, ◌≡◌, refl, ap, ◌∙◌, false, some, List, [], length,
  arith,
}
use market_data_parser.Wire.Scalars.{IsU64}
use market_data_parser.Parser.{ParsedMessage, Tsc}
use market_data_parser.Parser.Members.{parsed}
use market_data_parser.Feed.{DemoMessageGenerator}
use market_data_parser.Logger.{Os, AsyncLogger}
use market_data_parser.Logger.Buffered.{Appends, bytes_of}
use market_data_parser.Logger.Lifecycle.{
  queue_bits, is_negative, open_flags, start, stop, returned, get_queue_size, get_total_written,
}
use market_data_parser.Queue.Quiet.{size-contents}
use market_data_parser.Logger.Holding.{Holds}
use market_data_parser.Logger.Draining.{few}
use market_data_parser.Logger.Sinks.{buffered_sink}
use market_data_parser.Logger.Stopping.{IsStopped, IsFile, start-Holds, stop-IsStopped}
use market_data_parser.Programs.{Turn, log_waiting}
use market_data_parser.Programs.Waiting.{IsFair, log_waiting-Waited}
use market_data_parser.Programs.Reads.{length-logged}
use market_data_parser.Programs.Demo.{log_round, log_rounds, demo_async_logging}
use market_data_parser.Programs.Demo.Messages.{
  with_seq, payload, messages, length-payload, make_message-IsRead,
}

module _ {W : Type 0} (os : Os W) (slack : ParsedMessage → List ℕ) (file : W → List ℕ) (now : ℕ → ℕ)
    (u64 : (i : ℕ) → IsU64 (now i)) (stamps : ℕ → Tsc) (turns : ℕ → List Turn)
    (fair : (i : ℕ) → IsFair (turns i)) where
  module _ (a : Appends os file) (base : List ℕ) (total : ℕ) (small : total + 46000 < 2 ^ 64) where
    log_round-some :
        (i : ℕ) (few : i < 1000) (l l' : AsyncLogger W)
        → log_waiting os slack (turns i) (parsed (payload now i) (stamps i)) l ≡ some l'
        → log_round os slack (now i) (stamps i) (turns i) i (with_seq i, l)
          ≡ some (with_seq (suc i), l')
    unfolding log_round
    log_round-some i few l l' e =
        let (r, next) = make_message-IsRead now u64 i few in
        rw (log_round, r.accepted (stamps i), e, next) refl

    log_rounds-Holds :
        (n : ℕ)
        → n ≤ 1000
        → (l : AsyncLogger W) → Holds os slack (buffered_sink os slack file a) base total l [] []
        → l.queue.head + n + 2 ^ queue_bits < 2 ^ 63
        → (l' : AsyncLogger W) × (items : List ParsedMessage) × (log_rounds os slack now stamps
              turns n
              (with_seq 0, l)
            ≡ some (with_seq n, l'))
          × Holds os slack
              (buffered_sink os slack file a)
              base
              total
              l'
              items
              (messages now stamps n)
          × (length (bytes_of (messages now stamps n)) ≡ (n + 1) / 2 * 38 + n / 2 * 46)
          × (l'.queue.head ≤ l.queue.head + n)
          × (l'.running ≡ l.running)
    unfolding log_rounds
    log_rounds-Holds zero few l h far = (l, [], refl, h, omega arith, omega arith, refl)
    log_rounds-Holds (suc i) few l h far =
        let (l₁, items, e₁, h₁, long, head₁, run₁) =
          log_rounds-Holds i (omega arith) l h (omega arith) in
        let (r, next) = make_message-IsRead now u64 i (omega arith) in
        let longer = length-logged (messages now stamps i) (payload now i) (stamps i) in
        let size = length-payload now i in
        let w =
          log_waiting-Waited os slack (buffered_sink os slack file a) base total (turns i)
            (parsed (payload now i) (stamps i)) l₁ items (messages now stamps i) (fair i) h₁ refl
            (ground (arith, longer, r.in_memory, size)) (omega arith) in
        (
          w.after,
          w.left,
          rw e₁ (log_round-some i few l₁ w.after w.ends),
          w.holds,
          ground (arith, longer, r.in_memory, size),
          omega (arith, w.head_step),
          w.running_kept ∙ run₁,
        )

  demo_async_logging-some :
      (fuel : ℕ) (retries : ℕ → ℕ) (l l₀ l₁ l₂ : AsyncLogger W) (gen : DemoMessageGenerator)
      → start os l ≡ returned l₀
      → log_rounds os slack now stamps turns 1000 (with_seq 0, l₀) ≡ some (gen, l₁)
      → stop os slack fuel retries l₁ ≡ some l₂
      → demo_async_logging os slack now stamps turns fuel retries l
        ≡ some (get_queue_size l₁, get_total_written l₂, l₂)
  unfolding demo_async_logging
  demo_async_logging-some fuel retries l l₀ l₁ l₂ gen e₀ e₁ e₂ =
      rw (demo_async_logging, e₀, e₁, e₂) refl

  module _ (d : IsFile os file) where
    -- The demo ends with the logger stopped, and the file holds the bytes in memory of its messages, in
    -- their order: 38 for each of the 500 orders and 46 for each of the 500 trades. The number that is printed
    -- as written has grown by them, and the queue size that is printed is at most the capacity.
    pub record Demonstrated (fuel : ℕ) (retries : ℕ → ℕ) (l : AsyncLogger W) : Type 0 where
      pub queue_size : ℕ
      pub written : ℕ
      pub final : AsyncLogger W
      pub ends :
          demo_async_logging os slack now stamps turns fuel retries l
          ≡ some (queue_size, written, final)
      pub queued : queue_size ≤ 2 ^ queue_bits
      pub stopped : IsStopped final
      pub contents : file final.world ≡ bytes_of (messages now stamps 1000)
      pub counts : length (file final.world) ≡ 500 * 38 + 500 * 46
      pub says : written ≡ l.total_written + length (file final.world)

    -- The second demo with a stopped or new logger in BUFFERED mode, where the file can be opened and every write
    -- succeeds in full: it ends, all its thousand messages are parsed and accepted, and the file then holds their
    -- bytes in memory, in the order in which they were made and nothing else, 42000 bytes, which is what the
    -- number printed as written has grown by. In one of the turns that a message is offered, not
    -- the last, the worker thread makes an iteration; the clock of the messages has 64 bits, the positions
    -- of the queue stay below 2^63, the total below 2^64, and the fuel for the last loop is more
    -- than the capacity of the queue.
    pub demo_async_logging-Demonstrated :
        (fuel : ℕ) (retries : ℕ → ℕ) (l : AsyncLogger W)
        → IsStopped l
        → is_negative (os.open_file l.filename (open_flags l.write_mode) l.world).0 ≡ false
        → l.queue.head + 1000 + 2 ^ queue_bits < 2 ^ 63
        → l.total_written + 46000 < 2 ^ 64
        → 2 ^ queue_bits < fuel
        → Demonstrated fuel retries l
    unfolding get_queue_size get_total_written
    demo_async_logging-Demonstrated fuel retries l s opens far fewer enough =
        let (l₀, e₀, h₀, run₀, queue₀) = start-Holds os slack file d l s opens in
        let head₀ = ap (λ q. q.head) queue₀ in
        let (l₁, items, e₁, h₁, long, head₁, run₁) =
          log_rounds-Holds d.appends [] l.total_written fewer 1000 (omega arith) l₀ h₀
            (omega (arith, head₀)) in
        let (l₂, e₂, stopped, contents, total, head₂) =
          stop-IsStopped os slack file d (messages now stamps 1000) items l.total_written fuel
            retries l₁ h₁ (run₁ ∙ run₀) (omega (arith, head₀)) (omega (arith, long)) enough in
        let (sized, emptied) =
          size-contents queue_bits (omega arith) l₁.queue h₁.quiet (omega (arith, head₀)) in
        record {
          queue_size = get_queue_size l₁;
          written = get_total_written l₂;
          final = l₂;
          ends = demo_async_logging-some fuel retries l l₀ l₁ l₂ _ e₀ e₁ e₂;
          queued = omega (
            arith,
            sized,
            ap length h₁.queued,
            few os slack (buffered_sink os slack file d.appends) [] l.total_written l₁ items _ h₁,
          );
          stopped = stopped;
          contents = contents;
          counts = omega (arith, ap length {x = file l₂.world} contents, long);
          says = omega (arith, ap length {x = file l₂.world} contents, total);
        }
