-- ===== src/Logger/SessionTests.antt =====
-- Sessions of a new logger in BUFFERED and in DIRECT mode, and a logger that cannot start.
use market_data_parser.Common.{ℕ, ◌+◌, ◌≡◌, refl, List, [], ◌∷◌, none, some, false, Bool, arith}
use market_data_parser.Common.Int.{ℤ}
use market_data_parser.Common.Bytes.{to_le}
use market_data_parser.Wire.Object
use market_data_parser.Parser.{ParsedMessage}
use market_data_parser.Queue.{construct}
use market_data_parser.Queue.Calls.{construct-IsQuiet}
use market_data_parser.Logger.{Os, AsyncLogger, WriteMode, null_ptr}
use market_data_parser.Logger.Lifecycle.{
  queue_bits, create, start, stop, Event, logs, works, thrown,
}
use market_data_parser.Logger.Stopping.{IsStopped, IsFile}
use market_data_parser.Logger.Session.{Served, session-Served}
use market_data_parser.Logger.Restarts.{Run, runs, last_bytes, count_bytes, runs-last_bytes}
use market_data_parser.Logger.DirectSession.{IsHalted, ServedDirect, session-ServedDirect}
use market_data_parser.Logger.Opening.{Documented, start-thrown}
use market_data_parser.Logger.Tests.{disk, file, disk-Appends, slack, event}

abbrev pub created : WriteMode → AsyncLogger (List ℕ)
created mode = record {
  queue = construct queue_bits (λ i. event) (λ i. 0);
  filename = [];
  write_mode = mode;
  running = false;
  fd = ℤ.negsuc 0;
  mmap_ptr = null_ptr;
  memory = λ i. 0;
  mmap_size = 0;
  write_buffer = λ i. 9;
  buffer_offset = 0;
  total_written = 0;
  world = 1 ∷ [];
}

create_run :
    create (some (λ i. 9)) [] WriteMode.buffered (λ i. event) (λ i. 0) (1 ∷ [])
    ≡ some (created WriteMode.buffered)
unfolding create
create_run = refl

pub created-IsStopped : IsStopped (created WriteMode.buffered)
created-IsStopped =
    let (quiet, empty) = construct-IsQuiet queue_bits (λ i. event) (λ i. 0) in
    record { mode = refl; running = refl; flushed = refl; quiet = quiet; nothing_queued = empty }

pub disk-IsFile : IsFile disk file
disk-IsFile = record {
  appends = disk-Appends;
  truncated = λ filename flags w e. refl;
  closed = λ fd w. refl;
}

abbrev events : List Event
events = logs 0 event ∷ works 1 ∷ works 0 ∷ logs 2 event ∷ []

session-Served_example :
    (accepted : List ParsedMessage) × Served disk slack file disk-IsFile
      (created WriteMode.buffered)
      events
      2000000
      (λ i. 1)
      accepted
unfolding construct Object.system_event to_le
session-Served_example =
    session-Served disk slack file disk-IsFile (created WriteMode.buffered) events 2000000 (λ i. 1)
      created-IsStopped refl (refl, (refl, tt)) (omega arith) (omega arith) (omega arith)

abbrev twice : List Run
twice =
    record { events = events; fuel = 2000000; retries = λ i. 1 }
    ∷ record { events = logs 0 event ∷ []; fuel = 1048577; retries = λ i. 0 }
    ∷ []

runs-last_bytes_example :
    (accepted : List (List ParsedMessage)) × (l' : AsyncLogger (List ℕ)) × (runs disk slack twice
        (created WriteMode.buffered)
      ≡ some (accepted, l'))
    × IsStopped l'
    × (file l'.world ≡ last_bytes (1 ∷ []) accepted)
    × (l'.total_written ≡ 0 + count_bytes accepted)
unfolding construct Object.system_event to_le
runs-last_bytes_example =
    runs-last_bytes disk slack file disk-IsFile (λ filename flags w. refl) twice
      (created WriteMode.buffered) created-IsStopped
      (((refl, (refl, tt)), omega arith), (((refl, tt), omega arith), tt)) (omega arith)
      (omega arith)

created-IsHalted : IsHalted (created WriteMode.direct)
created-IsHalted =
    let (quiet, empty) = construct-IsQuiet queue_bits (λ i. event) (λ i. 0) in
    record { mode = refl; running = refl; flushed = refl; quiet = quiet; nothing_queued = empty }

session-ServedDirect_example :
    ServedDirect disk slack file disk-IsFile (created WriteMode.direct) events 2000000 (λ i. 1)
unfolding construct Object.system_event to_le
session-ServedDirect_example =
    session-ServedDirect disk slack file disk-IsFile (created WriteMode.direct) events 2000000
      (λ i. 1) created-IsHalted refl (refl, (refl, tt)) (omega arith) (omega arith) (omega arith)

-- A disk that does not map what is open for writing only.
abbrev strict : Os (List ℕ)
strict = record disk { map = λ fd size w. (none, w) }

abbrev readable : ℤ → List ℕ → Bool
readable fd w = false

strict-Documented : Documented strict readable
strict-Documented = record {
  opened = λ filename flags w e. refl;
  truncated = λ fd fd' size w. refl;
  refused = λ fd size w e. refl;
}

start-thrown_example :
    (l' : AsyncLogger (List ℕ)) × (start strict (created WriteMode.mmap) ≡ thrown l')
    × (l'.running ≡ false)
    × (stop strict slack 5 (λ i. 0) l' ≡ some l')
start-thrown_example =
    start-thrown strict slack readable strict-Documented (created WriteMode.mmap) 5 (λ i. 0) refl
      refl
