-- ===== src/Logger/Tests.antt =====
-- A logger whose file is a list of bytes, and the theorems on the logger at it.
use market_data_parser.Common.{
  ℕ, ◌+◌, ◌%◌, ◌<◌, ◌≡◌, refl, List, [], ◌∷◌, ◌++◌, length, none, some, true, arith,
}
use market_data_parser.Common.Int.{ℤ}
use market_data_parser.Common.Bytes.{to_le, bytes_at}
use market_data_parser.Wire.Object
use market_data_parser.Wire.MessageType.{MessageType, to_byte}
use market_data_parser.Parser.{ParsedMessage, system_event}
use market_data_parser.Logger.{Os, AsyncLogger, WriteMode, mapped, buffer_size, flush, worker_loop}
use market_data_parser.Queue.{construct}
use market_data_parser.Logger.Buffered.{Appends, bytes_of}
use market_data_parser.Logger.ReadBack.{IsAccepted, read_log, read_log-worker_loop}
use market_data_parser.Logger.Bounds.{Placed, write_message-fits, flush-direct}

-- A disk with one file, which it maps for writing although it is open for writing only.
abbrev pub disk : Os (List ℕ)
disk = record {
  open_file = λ filename flags w. (ℤ.pos 3, []);
  write = λ fd bytes w. (ℤ.pos (length bytes), w ++ bytes);
  ftruncate = λ fd size w. (true, w);
  map = λ fd size w. (some (λ i. 0), w);
  msync = λ memory size w. w;
  munmap = λ size w. w;
  madvise = λ size w. w;
  close = λ fd w. w;
}

abbrev pub file : List ℕ → List ℕ
file w = w

pub disk-Appends : Appends disk file
disk-Appends = record { answer = λ fd bytes w. refl; appended = λ fd bytes w. refl }

abbrev pub slack : ParsedMessage → List ℕ
slack msg = 1 ∷ 2 ∷ 3 ∷ []

abbrev pub event : ParsedMessage
event = record {
  type = MessageType.system_event;
  payload = system_event (record {
    header = record { message_type = b'S'; stock_locate = 0; tracking_number = 7; timestamp = 5 };
    event_code = b'O';
  });
  parse_timestamp_ns = 100;
}

abbrev logger : WriteMode → ℕ → AsyncLogger (List ℕ)
logger mode offset = record {
  queue = construct 20 (λ i. event) (λ i. 0);
  filename = [];
  running = true;
  fd = ℤ.pos 3;
  mmap_ptr = mapped;
  write_mode = mode;
  memory = λ i. 0;
  mmap_size = 50;
  write_buffer = λ i. 9;
  buffer_offset = offset;
  total_written = 40;
  world = [];
}

write_message-fits_example : Placed disk slack (logger WriteMode.direct buffer_size) event
write_message-fits_example =
    write_message-fits disk slack (logger WriteMode.direct buffer_size) event (λ e. cc) refl
      (omega arith)

flush-direct_example :
    let l = logger WriteMode.direct 14 in
    (n : ℕ) × (file (flush disk l).world ≡ bytes_at l.write_buffer 0 n)
    × (length (file (flush disk l).world) ≡ 0 + n)
    × (n % 4096 ≡ 0)
    × (14 < n)
    × (n < 14 + 4096)
    × ((flush disk l).total_written ≡ 40 + 14)
flush-direct_example =
    flush-direct disk slack file disk-Appends (logger WriteMode.direct 14) refl (omega arith)
      (omega arith) (omega arith)

event-IsAccepted : IsAccepted event
unfolding to_byte
event-IsAccepted = record {
  consistent = refl;
  tagged = refl;
  in_range = record {
    header = record {
      message_type = omega arith;
      stock_locate = omega arith;
      tracking_number = omega arith;
      timestamp = omega arith;
    };
    event_code = omega arith;
  };
}

read_log-worker_loop_example :
    (l' : AsyncLogger (List ℕ)) × (worker_loop disk slack
        (logger WriteMode.buffered 0)
        (some event ∷ none ∷ [])
        (event ∷ [])
      ≡ some l')
    × (read_log 2 (file l'.world) ≡ event.payload ∷ event.payload ∷ [])
    × (length (file l'.world) ≡ length (bytes_of (event ∷ event ∷ [])))
unfolding Object.system_event to_le
read_log-worker_loop_example =
    read_log-worker_loop disk slack file disk-Appends (logger WriteMode.buffered 0)
      (some event ∷ none ∷ []) (event ∷ []) refl refl refl (event-IsAccepted, tt)
      (event-IsAccepted, tt) (omega arith)
