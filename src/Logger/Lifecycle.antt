-- ===== src/Logger/Lifecycle.antt =====
-- AsyncLogger of include/async_logger.hpp from construction to stop: the file is opened and closed, other
-- threads log messages, and the worker thread takes them from the queue. A call is one step here; how the
-- accesses of concurrent calls to the queue interleave is in Queue/Threads.
use market_data_parser.Common.{
  ℕ, zero, suc, ◌*◌, Bool, true, false, Option, none, some, List, [], ◌∷◌, ◌++◌, if◌then◌else◌,
  ◌>>=◌,
}
use market_data_parser.Common.Int.{ℤ}
use market_data_parser.Parser.{ParsedMessage}
use market_data_parser.Queue.{construct, size, try_enqueue, try_dequeue}
use market_data_parser.Logger.{
  Os, Flags, AsyncLogger, WriteMode, null_ptr, map_failed, mapped, MmapPtr, flush, write_message,
}

-- QUEUE_SIZE is 2^20.
abbrev pub queue_bits : ℕ
queue_bits = 20

abbrev pub initial_size : ℕ
initial_size = 1024 * 1024 * 1024

-- A call that may throw, with what it leaves of the object.
pub data Outcome {ℓ} (A : Type ℓ) : Type ℓ where
  returned thrown : A → Outcome A

abbrev pub is_negative : ℤ → Bool
is_negative (ℤ.pos n) = false
is_negative (ℤ.negsuc n) = true

-- O_WRONLY | O_CREAT | O_TRUNC, and O_DIRECT in DIRECT mode.
abbrev pub open_flags : WriteMode → Flags
open_flags WriteMode.direct = record {
  write_only = true;
  create = true;
  truncate = true;
  direct = true;
}
open_flags mode = record { write_only = true; create = true; truncate = true; direct = false }

-- The constructor: `allocated` is the buffer that posix_memalign gives, or none if it fails, where
-- the constructor throws. The queue is constructed in storage that holds anything.
unfoldable pub create :
    {W : Type 0} (allocated : Option (ℕ → ℕ)) (filename : List ℕ) (mode : WriteMode)
    (items : ℕ → ParsedMessage) (sequences : ℕ → ℕ)
    → W
    → Option (AsyncLogger W)
create none filename mode items sequences world = none
create (some buffer) filename mode items sequences world = some (record {
  queue = construct queue_bits items sequences;
  filename = filename;
  write_mode = mode;
  running = false;
  fd = ℤ.negsuc 0;
  mmap_ptr = null_ptr;
  memory = λ i. 0;
  mmap_size = 0;
  write_buffer = buffer;
  buffer_offset = 0;
  total_written = 0;
  world = world;
})

-- `write_mode_ == WriteMode::MMAP && mmap_ptr_ != nullptr`
abbrev pub has_mapping : WriteMode → MmapPtr → Bool
has_mapping WriteMode.mmap null_ptr = false
has_mapping WriteMode.mmap ptr = true
has_mapping mode ptr = false

abbrev pub set_running : {W : Type 0} → Outcome (AsyncLogger W) → Outcome (AsyncLogger W)
set_running (returned l) = returned (record l { running = true })
set_running (thrown l) = thrown l

module _ {W : Type 0} (os : Os W) where
  -- The part of `open_file` for MMAP mode.
  unfoldable pub map_file : AsyncLogger W → Outcome (AsyncLogger W)
  map_file l =
      let (allocated, world) = os.ftruncate l.fd initial_size l.world in
      let (result, world') = os.map l.fd initial_size world in
      if allocated
      then elim result [
        | none ↦ thrown (record l { mmap_ptr = map_failed; world = os.close l.fd world' })
        | some memory ↦ returned (record l {
          mmap_ptr = mapped;
          memory = memory;
          mmap_size = initial_size;
          world = os.madvise initial_size world';
        })
      ]
      else thrown (record l { world = os.close l.fd world })

  abbrev pub map_by_mode : WriteMode → AsyncLogger W → Outcome (AsyncLogger W)
  map_by_mode WriteMode.mmap l = map_file l
  map_by_mode mode l = returned l

  unfoldable pub open_file : AsyncLogger W → Outcome (AsyncLogger W)
  open_file l =
      let (fd, world) = os.open_file l.filename (open_flags l.write_mode) l.world in
      let l = record l { fd = fd; world = world } in
      if is_negative fd then thrown l else map_by_mode l.write_mode l

  -- The worker thread that it starts is made of the steps `work`.
  unfoldable pub start : AsyncLogger W → Outcome (AsyncLogger W)
  start l = if l.running then returned l else set_running (open_file l)

  abbrev pub close_fd : AsyncLogger W → AsyncLogger W
  close_fd l =
      if is_negative l.fd then l else record l { fd = ℤ.negsuc 0; world = os.close l.fd l.world }

  unfoldable pub close_file : AsyncLogger W → AsyncLogger W
  close_file l =
      if has_mapping l.write_mode l.mmap_ptr
      then (let released = os.munmap l.mmap_size (os.msync l.memory l.mmap_size l.world) in
          close_fd (record l { world = (os.ftruncate l.fd l.total_written released).1 }))
      else close_fd l

module _ {W : Type 0} where
  -- `retries` is how often the compare-exchange of the call fails spuriously. `none` is no result, here
  -- and below.
  unfoldable pub log : (retries : ℕ) → ParsedMessage → AsyncLogger W → Option (Bool × AsyncLogger W)
  log retries msg l = do
    (result, queue) ← try_enqueue queue_bits retries l.queue msg
    some (result, record l { queue = queue })

  unfoldable pub get_total_written : AsyncLogger W → ℕ
  get_total_written l = l.total_written

  unfoldable pub get_queue_size : AsyncLogger W → ℕ
  get_queue_size l = size l.queue

-- What happens between `start` and `stop`: a thread logs a message, or the worker thread takes one.
pub data Event : Type 0 where
  logs : (retries : ℕ) → ParsedMessage → Event
  works : (retries : ℕ) → Event

module _ {W : Type 0} (os : Os W) (slack : ParsedMessage → List ℕ) where
  -- The body of the first loop of `worker_loop`.
  abbrev pub handle : Option ParsedMessage → AsyncLogger W → Option (AsyncLogger W)
  handle (some msg) l = write_message os slack l msg
  handle none l = some (flush os l)

  unfoldable pub work : (retries : ℕ) → AsyncLogger W → Option (AsyncLogger W)
  work retries l = do
    (item, queue) ← try_dequeue queue_bits retries l.queue
    handle item (record l { queue = queue })

  -- The second loop, with fuel for its iterations; `retries` is a number for each of them.
  unfoldable pub drain_queue : (fuel : ℕ) (retries : ℕ → ℕ) → AsyncLogger W → Option (AsyncLogger W)
  drain_queue zero retries l = none
  drain_queue (suc fuel) retries l = do
    (item, queue) ← try_dequeue queue_bits (retries fuel) l.queue
    let l = record l { queue = queue }
    elim item [
      | none ↦ some l
      | some msg ↦ write_message os slack l msg >>= λ l. drain_queue fuel retries l
    ]

  -- `running_` is cleared, and the worker thread, which is joined, leaves its first loop for the second.
  unfoldable pub stop : (fuel : ℕ) (retries : ℕ → ℕ) → AsyncLogger W → Option (AsyncLogger W)
  stop fuel retries l =
      if l.running
      then (drain_queue fuel retries (record l { running = false }) >>= λ l.
          some (close_file os (flush os l)))
      else some l

  -- The destructor: `stop`, and then the buffer is freed. What is left is the world.
  unfoldable pub destroy : (fuel : ℕ) (retries : ℕ → ℕ) → AsyncLogger W → Option W
  destroy fuel retries l = do l ← stop fuel retries l; some l.world

  -- A step, with the message for which `log` has returned true.
  unfoldable pub act : Event → AsyncLogger W → Option (List ParsedMessage × AsyncLogger W)
  act (logs retries msg) l = do
    (accepted, l) ← log retries msg l
    some (if accepted then msg ∷ [] else [], l)
  act (works retries) l = do l ← work retries l; some ([], l)

  unfoldable pub session : List Event → AsyncLogger W → Option (List ParsedMessage × AsyncLogger W)
  session [] l = some ([], l)
  session (event ∷ events) l = do
    (accepted, l) ← act event l
    (rest, l) ← session events l
    some (accepted ++ rest, l)
