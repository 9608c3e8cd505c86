-- ===== src/Programs/Constructed.antt =====
-- The logger as the programs construct it: in BUFFERED mode, with its buffer allocated.
use market_data_parser.Common.{ℕ, refl, List, false}
use market_data_parser.Common.Int.{ℤ}
use market_data_parser.Parser.{ParsedMessage}
use market_data_parser.Queue.{construct}
use market_data_parser.Queue.Calls.{construct-IsQuiet}
use market_data_parser.Logger.{AsyncLogger, WriteMode, null_ptr}
use market_data_parser.Logger.Lifecycle.{queue_bits}
use market_data_parser.Logger.Stopping.{IsStopped}

module _ {W : Type 0} where
  abbrev pub constructed :
      (filename : List ℕ) (buffer : ℕ → ℕ) (items : ℕ → ParsedMessage) (sequences : ℕ → ℕ)
      → W
      → AsyncLogger W
  constructed filename buffer items sequences w = record {
    queue = construct queue_bits items sequences;
    filename = filename;
    write_mode = WriteMode.buffered;
    running = false;
    fd = ℤ.negsuc 0;
    mmap_ptr = null_ptr;
    memory = λ i. 0;
    mmap_size = 0;
    write_buffer = buffer;
    buffer_offset = 0;
    total_written = 0;
    world = w;
  }

  pub constructed-IsStopped :
      (filename : List ℕ) (buffer : ℕ → ℕ) (items : ℕ → ParsedMessage) (sequences : ℕ → ℕ) (w : W)
      → IsStopped (constructed filename buffer items sequences w)
  constructed-IsStopped filename buffer items sequences w =
      let (quiet, empty) = construct-IsQuiet queue_bits items sequences in
      record { mode = refl; running = refl; flushed = refl; quiet = quiet; nothing_queued = empty }
