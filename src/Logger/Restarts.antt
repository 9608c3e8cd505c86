-- ===== src/Logger/Restarts.antt =====
-- A logger that is started and stopped again and again.
use market_data_parser.Common.{
  ℕ, ◌+◌, ◌^◌, ◌<◌, ◌≡◌, refl, ap, ◌∙◌, false, Option, none, some, List, [], ◌∷◌, length, All,
  arith, ◌>>=◌,
}
use market_data_parser.Parser.{ParsedMessage}
use market_data_parser.Logger.{Os, AsyncLogger, Flags}
use market_data_parser.Logger.Serialize.{IsConsistent}
use market_data_parser.Logger.Buffered.{bytes_of}
use market_data_parser.Logger.Events.{offered}
use market_data_parser.Logger.Stopping.{IsStopped, IsFile}
use market_data_parser.Logger.Session.{session-Served}
use market_data_parser.Logger.Lifecycle.{
  Event, returned, thrown, start, stop, session, queue_bits, is_negative,
}

-- One run of the logger, from `start` to `stop`.
pub record Run : Type 0 where
  pub events : List Event
  pub fuel : ℕ
  pub retries : ℕ → ℕ

module _ {W : Type 0} (os : Os W) (slack : ParsedMessage → List ℕ) where
  -- The messages that each run has accepted; none if one of them throws.
  unfoldable pub runs :
      List Run → AsyncLogger W → Option (List (List ParsedMessage) × AsyncLogger W)
  runs [] l = some ([], l)
  runs (run ∷ rest) l = elim (start os l) [
    | returned l ↦ do
      (accepted, l) ← session os slack run.events l
      l ← stop os slack run.fuel run.retries l
      (more, l) ← runs rest l
      some (accepted ∷ more, l)
    | thrown l ↦ none
  ]

-- The bytes of the last run, or what was there before.
abbrev pub last_bytes : List ℕ → List (List ParsedMessage) → List ℕ
last_bytes before [] = before
last_bytes before (accepted ∷ more) = last_bytes (bytes_of accepted) more

-- How many bytes all runs have written.
abbrev pub count_bytes : List (List ParsedMessage) → ℕ
count_bytes [] = 0
count_bytes (accepted ∷ more) = length (bytes_of accepted) + count_bytes more

abbrev pub count_events : List Run → ℕ
count_events [] = 0
count_events (run ∷ rest) = length run.events + count_events rest

abbrev pub count_offered : List Run → ℕ
count_offered [] = 0
count_offered (run ∷ rest) = length (bytes_of (offered run.events)) + count_offered rest

-- The messages of a run have the type of the union's member that they hold, and it has enough fuel.
abbrev pub IsProper : Run → Type 0
IsProper run = All IsConsistent (offered run.events) × (2 ^ queue_bits < run.fuel)

module _ {W : Type 0} (os : Os W) (slack : ParsedMessage → List ℕ) (file : W → List ℕ)
    (d : IsFile os file)
    (opens : (filename : List ℕ) (flags : Flags) (w : W)
      → is_negative (os.open_file filename flags w).0 ≡ false) where
  -- Any number of runs of one logger in BUFFERED mode, where the file can always be opened and every write succeeds
  -- in full: they end without an exception and leave the logger stopped. The file holds the messages
  -- that the last run has accepted and nothing else, as each run empties it, but the total has grown
  -- by the bytes of all runs. The messages have the type of the union's member that they hold, the
  -- positions of the queue stay below 2^63, the total below 2^64, and the fuel for the last loop of each
  -- run is more than the capacity of the queue.
  pub runs-last_bytes :
      (rs : List Run) (l : AsyncLogger W)
      → IsStopped l
      → All IsProper rs
      → l.queue.head + count_events rs + 2 ^ queue_bits < 2 ^ 63
      → l.total_written + count_offered rs < 2 ^ 64
      → (accepted : List (List ParsedMessage)) × (l' : AsyncLogger W) × (runs os slack rs l
          ≡ some (accepted, l'))
        × IsStopped l'
        × (file l'.world ≡ last_bytes (file l.world) accepted)
        × (l'.total_written ≡ l.total_written + count_bytes accepted)
  unfolding runs
  runs-last_bytes [] l s proper far fewer = ([], l, refl, s, refl, omega arith)
  runs-last_bytes (run ∷ rest) l s proper far fewer =
      let (accepted, r) =
        session-Served os slack file d l run.events run.fuel run.retries s (opens _ _ _) proper.0.0
          (omega arith) (omega arith) proper.0.1 in
      let (more, l', e, s', contents, total) =
        runs-last_bytes rest r.final r.stopped proper.1 (omega (arith, r.few))
          (omega (arith, r.counts, r.small)) in
      (
        accepted ∷ more,
        l',
        rw (runs, r.starts, r.serves, r.stops, e) refl,
        s',
        contents ∙ ap (λ bs. last_bytes bs more) r.contents,
        omega (arith, total, r.counts),
      )
