-- ===== src/Logger/Session.antt =====
-- Whole sessions of a logger in BUFFERED mode: nothing that `log` has accepted is lost.
use market_data_parser.Common.{
  ℕ, ◌+◌, ◌^◌, ◌≤◌, ◌<◌, ◌≡◌, subst, ap, ◌∙◌, false, some, List, [], length, All, arith,
}
use market_data_parser.Parser.{ParsedMessage}
use market_data_parser.Queue.{MpmcQueue}
use market_data_parser.Queue.Quiet.{contents}
use market_data_parser.Logger.{Os, AsyncLogger}
use market_data_parser.Logger.Serialize.{IsConsistent}
use market_data_parser.Logger.Buffered.{bytes_of}
use market_data_parser.Logger.Lifecycle.{
  queue_bits, Event, session, returned, start, stop, destroy, is_negative, open_flags,
}
use market_data_parser.Logger.Sinks.{buffered_sink}
use market_data_parser.Logger.Draining.{destroy-stop, destroy-stopped}
use market_data_parser.Logger.Events.{offered, session-Holds}
use market_data_parser.Logger.Stopping.{IsStopped, IsFile, start-Holds, stop-IsStopped}

module _ {W : Type 0} (os : Os W) (slack : ParsedMessage → List ℕ) (file : W → List ℕ)
    (d : IsFile os file) where
  -- `start`, the events of a session and `stop` end without an exception, and leave the logger stopped. The
  -- file then holds the bytes in memory of the accepted messages, in that order and nothing else, and
  -- `total_written_` has grown by their number. The destructor in place of `stop` leaves the same world,
  -- and after `stop` it leaves it as it is.
  pub record Served (l : AsyncLogger W) (events : List Event) (fuel : ℕ) (retries : ℕ → ℕ)
      (accepted : List ParsedMessage) : Type 0 where
    pub started : AsyncLogger W
    pub served : AsyncLogger W
    pub final : AsyncLogger W
    pub starts : start os l ≡ returned started
    pub serves : session os slack events started ≡ some (accepted, served)
    pub stops : stop os slack fuel retries served ≡ some final
    pub destroys : destroy os slack fuel retries served ≡ some final.world
    pub destroyed : (n : ℕ) → destroy os slack n retries final ≡ some final.world
    pub stopped : IsStopped final
    pub contents : file final.world ≡ bytes_of accepted
    pub counts : final.total_written ≡ l.total_written + length (bytes_of accepted)
    pub few : final.queue.head ≤ l.queue.head + length events
    pub small : length (bytes_of accepted) ≤ length (bytes_of (offered events))

  module _ (l : AsyncLogger W) (events : List Event) (fuel : ℕ) (retries : ℕ → ℕ) (s : IsStopped l)
      (opens : is_negative (os.open_file l.filename (open_flags l.write_mode) l.world).0 ≡ false)
      (consistent : All IsConsistent (offered events))
      (far : l.queue.head + length events + 2 ^ queue_bits < 2 ^ 63)
      (fewer : l.total_written + length (bytes_of (offered events)) < 2 ^ 64)
      (enough : 2 ^ queue_bits < fuel) where
    serve :
        (accepted : List ParsedMessage) × Served l events fuel retries accepted
        × (length events ≤ 2 ^ queue_bits → accepted ≡ offered events)
    serve =
        let (started, e₀, h₀, run₀, queue₀) = start-Holds os slack file d l s opens in
        let head₀ = ap (λ (q : MpmcQueue ParsedMessage). q.head) queue₀ in
        let (accepted, l₁, items, e₁, h₁, head₁, run₁, le, all) =
          session-Holds os slack (buffered_sink os slack file d.appends) [] l.total_written events
            started [] [] h₀ consistent (omega (arith, head₀)) (omega arith) in
        let (l', e₂, stopped, contents, total, head₂) =
          stop-IsStopped os slack file d accepted items l.total_written fuel retries l₁ h₁
            (run₁ ∙ run₀) (omega (arith, head₀)) (omega arith) enough in
        (
          accepted,
          record {
            started = started;
            served = l₁;
            final = l';
            starts = e₀;
            serves = e₁;
            stops = e₂;
            destroys = destroy-stop os slack fuel retries l₁ l' e₂;
            destroyed = λ n. destroy-stopped os slack n retries l' stopped.running;
            stopped = stopped;
            contents = contents;
            counts = total;
            few = omega (arith, head₀);
            small = le;
          },
          λ few. all (omega arith),
        )

    -- A whole session of a logger in BUFFERED mode that is stopped or new, where the file can be opened and
    -- every write succeeds in full: `start`, any sequence of calls of `log` and iterations of the worker
    -- thread, and `stop` end without an exception and leave the logger stopped; the file then holds the
    -- bytes in memory of the messages for which `log` has returned true, in that order and nothing else,
    -- and `total_written_` has grown by their number. The destructor does the same in place of `stop`, and
    -- nothing after it. The messages have the type of the union's member
    -- that they hold, the positions of the queue stay below 2^63, the total below 2^64, and the fuel for
    -- the last loop is more than the capacity of the queue.
    pub session-Served : (accepted : List ParsedMessage) × Served l events fuel retries accepted
    session-Served = let (accepted, r, all) = serve in (accepted, r)

    -- In a session of no more events than the queue has slots, and otherwise as in `session-Served`,
    -- `log` accepts every message, so the file holds all that were offered.
    pub session-offered :
        length events ≤ 2 ^ queue_bits → Served l events fuel retries (offered events)
    session-offered few =
        let (accepted, r, all) = serve in subst (Served l events fuel retries) (all few) r
