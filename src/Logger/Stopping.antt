-- ===== src/Logger/Stopping.antt =====
-- What `start` and `stop` do in BUFFERED mode.
use market_data_parser.Common.{
  ℕ, ◌+◌, ◌^◌, ◌<◌, ◌≡◌, refl, sym, ◌∙◌, true, false, Bool-cases, some, List, [], length, inl, inr,
  arith,
}
use market_data_parser.Common.Int.{ℤ}
use market_data_parser.Parser.{ParsedMessage}
use market_data_parser.Queue.Quiet.{IsQuiet, contents}
use market_data_parser.Logger.{Os, AsyncLogger, WriteMode, Flags, flush}
use market_data_parser.Logger.Buffered.{Appends, flush-Wrote, bytes_of}
use market_data_parser.Logger.Worker.{logged-empty}
use market_data_parser.Logger.Lifecycle.{
  queue_bits, returned, start, stop, open_file, close_file, has_mapping, is_negative, open_flags,
}
use market_data_parser.Logger.Holding.{Holds}
use market_data_parser.Logger.Sinks.{buffered_sink}
use market_data_parser.Logger.Draining.{stop-drained}

-- A logger with no session under way: not started yet, or stopped.
pub record IsStopped {W : Type 0} (l : AsyncLogger W) : Type 0 where
  pub mode : l.write_mode ≡ WriteMode.buffered
  pub running : l.running ≡ false
  pub flushed : l.buffer_offset ≡ 0
  pub quiet : IsQuiet queue_bits l.queue
  pub nothing_queued : contents queue_bits l.queue ≡ []

-- `file` is the contents of the file that is open. A write appends all its bytes and says so, opening
-- with O_TRUNC empties the file, and closing it changes nothing.
pub record IsFile {W : Type 0} (os : Os W) (file : W → List ℕ) : Type 0 where
  pub appends : Appends os file
  pub truncated :
      (filename : List ℕ) (flags : Flags) (w : W)
      → flags.truncate ≡ true
      → file (os.open_file filename flags w).1 ≡ []
  pub closed : (fd : ℤ) (w : W) → file (os.close fd w) ≡ file w

module _ {W : Type 0} (os : Os W) (slack : ParsedMessage → List ℕ) (file : W → List ℕ)
    (d : IsFile os file) where
  pub start-Holds :
      (l : AsyncLogger W)
      → IsStopped l
      → is_negative (os.open_file l.filename (open_flags l.write_mode) l.world).0 ≡ false
      → (started : AsyncLogger W) × (start os l ≡ returned started)
        × Holds os slack (buffered_sink os slack file d.appends) [] l.total_written started [] []
        × (started.running ≡ true)
        × (started.queue ≡ l.queue)
  unfolding start open_file
  start-Holds l s opens =
      let flags = open_flags l.write_mode in
      let truncates : flags.truncate ≡ true = rw s.mode refl in
      let empty = d.truncated l.filename flags l.world truncates in
      let (fd, world) = os.open_file l.filename flags l.world in
      (
        record l { fd = fd; world = world; running = true },
        rw (s.running, opens, s.mode) refl,
        record {
          quiet = s.quiet;
          state = (s.mode, omega (arith, s.flushed));
          queued = s.nothing_queued;
          consistent = tt;
          sent = [];
          all_logged = rw (s.flushed, empty) refl;
          in_order = refl;
          counts = omega (arith, s.flushed);
        },
        refl,
        refl,
      )

  -- Closing a file that is not mapped is only that.
  pub close_file-unmapped :
      (l : AsyncLogger W)
      → has_mapping l.write_mode l.mmap_ptr ≡ false
      → (file (close_file os l).world ≡ file l.world)
        × ((close_file os l).queue ≡ l.queue)
        × ((close_file os l).write_mode ≡ l.write_mode)
        × ((close_file os l).running ≡ l.running)
        × ((close_file os l).buffer_offset ≡ l.buffer_offset)
        × ((close_file os l).total_written ≡ l.total_written)
  unfolding close_file
  close_file-unmapped l m = elim (Bool-cases (is_negative l.fd)) [
    | inl none_open ↦ rw (m, none_open) (refl, refl, refl, refl, refl, refl)
    | inr some_open ↦ rw (m, some_open) (d.closed l.fd l.world, refl, refl, refl, refl, refl)
  ]

  pub stop-IsStopped :
      (accepted items : List ParsedMessage) (total : ℕ) (fuel : ℕ) (retries : ℕ → ℕ)
      (l : AsyncLogger W)
      → Holds os slack (buffered_sink os slack file d.appends) [] total l items accepted
      → l.running ≡ true
      → l.queue.head + 2 ^ queue_bits < 2 ^ 63
      → total + length (bytes_of accepted) < 2 ^ 64
      → 2 ^ queue_bits < fuel
      → (l' : AsyncLogger W) × (stop os slack fuel retries l ≡ some l')
        × IsStopped l'
        × (file l'.world ≡ bytes_of accepted)
        × (l'.total_written ≡ total + length (bytes_of accepted))
        × (l'.queue.head ≡ l.queue.head)
  stop-IsStopped accepted items total fuel retries l h run far fewer enough =
      let sink = buffered_sink os slack file d.appends in
      let (l₁, e₁, h₁, w, run₁, head₁) =
        stop-drained os slack sink [] total accepted items fuel retries l h run far fewer enough in
      let (w₁, off) =
        flush-Wrote os slack file d.appends l₁ h₁.state.0 (omega (arith, h₁.counts)) in
      let l₂ = flush os l₁ in
      let (same_file, same_queue, mode, running, offset, written) =
        close_file-unmapped l₂ (rw (w.state.0) refl) in
      let all = w.contents h₁.sent h₁.all_logged ∙ h₁.in_order in
      (
        close_file os l₂,
        e₁,
        record {
          mode = mode ∙ w.state.0;
          running = running ∙ w.running_kept ∙ run₁;
          flushed = offset ∙ off;
          quiet = rw (same_queue, w.queue_kept) h₁.quiet;
          nothing_queued = rw (same_queue, w.queue_kept) h₁.queued;
        },
        same_file ∙ sym (logged-empty os slack file d.appends l₂ off) ∙ all,
        written ∙ omega (arith, w.counts, h₁.counts, off),
        rw (same_queue, w.queue_kept) head₁,
      )
