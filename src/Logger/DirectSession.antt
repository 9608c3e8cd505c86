-- ===== src/Logger/DirectSession.antt =====
-- Whole sessions of a logger in DIRECT mode.
use market_data_parser.Common.{
  ℕ, ◌+◌, ◌%◌, ◌^◌, ◌<◌, ◌≡◌, refl, sym, ap, ◌∙◌, subst, false, true, some, List, [], length, All,
  arith,
}
use market_data_parser.Parser.{ParsedMessage}
use market_data_parser.Queue.{MpmcQueue}
use market_data_parser.Queue.Quiet.{IsQuiet, contents}
use market_data_parser.Logger.{Os, AsyncLogger, WriteMode, alignment, flush}
use market_data_parser.Logger.Serialize.{IsConsistent}
use market_data_parser.Logger.Bounds.{flush-offset}
use market_data_parser.Logger.Buffered.{bytes_of}
use market_data_parser.Logger.Direct.{IsPadded, no_block, length-IsPadded, direct_sink}
use market_data_parser.Logger.Sink.{Sink}
use market_data_parser.Logger.Lifecycle.{
  queue_bits, Event, session, returned, start, stop, destroy, open_file, close_file, is_negative,
  open_flags,
}
use market_data_parser.Logger.Holding.{Holds}
use market_data_parser.Logger.Events.{offered, session-Holds}
use market_data_parser.Logger.Draining.{stop-drained, destroy-stop}
use market_data_parser.Logger.Stopping.{IsFile, close_file-unmapped}
use mathlib.Core.List.{append-nil}

-- A logger in DIRECT mode with no session under way.
pub record IsHalted {W : Type 0} (l : AsyncLogger W) : Type 0 where
  pub mode : l.write_mode ≡ WriteMode.direct
  pub running : l.running ≡ false
  pub flushed : l.buffer_offset ≡ 0
  pub quiet : IsQuiet queue_bits l.queue
  pub nothing_queued : contents queue_bits l.queue ≡ []

module _ {W : Type 0} (os : Os W) (slack : ParsedMessage → List ℕ) (file : W → List ℕ)
    (d : IsFile os file) where
  abbrev to_blocks : Sink os slack
  to_blocks = direct_sink os slack file d.appends

  start-direct :
      (l : AsyncLogger W)
      → IsHalted l
      → is_negative (os.open_file l.filename (open_flags l.write_mode) l.world).0 ≡ false
      → (started : AsyncLogger W) × (start os l ≡ returned started)
        × Holds os slack to_blocks [] l.total_written started [] []
        × (started.running ≡ true)
        × (started.queue ≡ l.queue)
  unfolding start open_file
  start-direct l s opens =
      let flags = open_flags l.write_mode in
      let truncates : flags.truncate ≡ true = rw s.mode refl in
      let empty = d.truncated l.filename flags l.world truncates in
      let (fd, world) = os.open_file l.filename flags l.world in
      (
        record l { fd = fd; world = world; running = true },
        rw (s.running, opens, s.mode) refl,
        record {
          quiet = s.quiet;
          state = (s.mode, omega (arith, s.flushed));
          queued = s.nothing_queued;
          consistent = tt;
          sent = [];
          all_logged = ([], subst (λ f. IsPadded f []) (sym empty) no_block, rw (s.flushed) refl);
          in_order = refl;
          counts = omega (arith, s.flushed);
        },
        refl,
        refl,
      )

  stop-IsHalted :
      (accepted items : List ParsedMessage) (total : ℕ) (fuel : ℕ) (retries : ℕ → ℕ)
      (l : AsyncLogger W)
      → Holds os slack to_blocks [] total l items accepted
      → l.running ≡ true
      → l.queue.head + 2 ^ queue_bits < 2 ^ 63
      → total + length (bytes_of accepted) < 2 ^ 64
      → 2 ^ queue_bits < fuel
      → (l' : AsyncLogger W) × (stop os slack fuel retries l ≡ some l')
        × IsHalted l'
        × IsPadded (file l'.world) (bytes_of accepted)
        × (l'.total_written ≡ total + length (bytes_of accepted))
  stop-IsHalted accepted items total fuel retries l h run far fewer enough =
      let (l₁, e₁, h₁, w, run₁, head₁) =
        stop-drained os slack to_blocks [] total accepted items fuel retries l h run far fewer
          enough in
      let l₂ = flush os l₁ in
      let off : l₂.buffer_offset ≡ 0 = flush-offset os slack l₁ in
      let (same_file, same_queue, mode, running, offset, written) =
        close_file-unmapped os slack file d l₂ (rw (w.state.0) refl) in
      let (bytes, padded, e) = w.contents h₁.sent h₁.all_logged in
      let all : bytes ≡ bytes_of accepted = sym (append-nil bytes) ∙ rw off at e ∙ h₁.in_order in
      (
        close_file os l₂,
        e₁,
        record {
          mode = mode ∙ w.state.0;
          running = running ∙ w.running_kept ∙ run₁;
          flushed = offset ∙ off;
          quiet = rw (same_queue, w.queue_kept) h₁.quiet;
          nothing_queued = rw (same_queue, w.queue_kept) h₁.queued;
        },
        rw (same_file, ← all) padded,
        written ∙ omega (arith, w.counts, h₁.counts, off),
      )

  -- `start`, the events of a session and `stop` end without an exception, and leave no session under way.
  -- The file is made of blocks, which without their padding have the bytes in memory of the accepted
  -- messages in their order; it ends at a multiple of the alignment, and the total has grown by the bytes
  -- without the padding. The destructor in place of `stop` leaves the same world.
  pub record ServedDirect (l : AsyncLogger W) (events : List Event) (fuel : ℕ) (retries : ℕ → ℕ)
      : Type 0 where
    pub accepted : List ParsedMessage
    pub started : AsyncLogger W
    pub served : AsyncLogger W
    pub final : AsyncLogger W
    pub starts : start os l ≡ returned started
    pub serves : session os slack events started ≡ some (accepted, served)
    pub stops : stop os slack fuel retries served ≡ some final
    pub destroys : destroy os slack fuel retries served ≡ some final.world
    pub halted : IsHalted final
    pub padded : IsPadded (file final.world) (bytes_of accepted)
    pub aligned : length (file final.world) % alignment ≡ 0
    pub counts : final.total_written ≡ l.total_written + length (bytes_of accepted)

  -- A whole session of a logger in DIRECT mode that is stopped or new, where the file can be opened and every
  -- write succeeds in full: `start`, any sequence of calls of `log` and iterations of the worker thread,
  -- and `stop` end without an exception. The file is then made of blocks of some bytes of messages and
  -- less than 4096 bytes of padding, up to a multiple of 4096; the bytes of the blocks without their padding
  -- are the bytes in memory of the messages for which `log` has returned true, in that order, and
  -- `total_written_` has grown by their number, without the padding. The destructor does the same in
  -- place of `stop`. The messages have the type of the union's member that they hold, the positions of
  -- the queue stay below 2^63, the total below 2^64, and the fuel for the last loop is more than the
  -- capacity of the queue.
  pub session-ServedDirect :
      (l : AsyncLogger W) (events : List Event) (fuel : ℕ) (retries : ℕ → ℕ)
      → IsHalted l
      → is_negative (os.open_file l.filename (open_flags l.write_mode) l.world).0 ≡ false
      → All IsConsistent (offered events)
      → l.queue.head + length events + 2 ^ queue_bits < 2 ^ 63
      → l.total_written + length (bytes_of (offered events)) < 2 ^ 64
      → 2 ^ queue_bits < fuel
      → ServedDirect l events fuel retries
  session-ServedDirect l events fuel retries s opens consistent far fewer enough =
      let (started, e₀, h₀, run₀, queue₀) = start-direct l s opens in
      let head₀ = ap (λ (q : MpmcQueue ParsedMessage). q.head) queue₀ in
      let (accepted, l₁, items, e₁, h₁, head₁, run₁, le, all) =
        session-Holds os slack to_blocks [] l.total_written events started [] [] h₀ consistent
          (omega (arith, head₀)) (omega arith) in
      let (l', e₂, halted, padded, total) =
        stop-IsHalted accepted items l.total_written fuel retries l₁ h₁ (run₁ ∙ run₀)
          (omega (arith, head₀)) (omega arith) enough in
      record {
        accepted = accepted;
        started = started;
        served = l₁;
        final = l';
        starts = e₀;
        serves = e₁;
        stops = e₂;
        destroys = destroy-stop os slack fuel retries l₁ l' e₂;
        halted = halted;
        padded = padded;
        aligned = length-IsPadded padded;
        counts = total;
      }
