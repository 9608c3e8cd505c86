-- ===== src/Logger.antt =====
-- AsyncLogger of include/async_logger.hpp: the messages that the worker thread takes from the queue are
-- serialized into a buffer or a mapped file. The calls to the operating system are an argument.
pub mod Serialize
pub mod Buffered
pub mod Worker
pub mod Bounds
pub mod ReadBack
pub mod Lifecycle
pub mod Sink
pub mod Direct
pub mod Sinks
pub mod Holding
pub mod Service
pub mod Events
pub mod Draining
pub mod Stopping
pub mod Session
pub mod Restarts
pub mod DirectSession
pub mod Recorded
pub mod SessionTests
pub mod Opening
pub mod Tests
mod RecordedTests
use market_data_parser.Common.{
  ℕ, zero, suc, ◌+◌, ◌-◌, ◌*◌, ◌%◌, ◌^◌, Bool, true, false, not, ◌&&◌, Option, none, some, List, [],
  ◌∷◌, ◌++◌, length, get_or, take, ◌==◌, if◌then◌else◌, ltb, leb, ◌>>=◌,
}
use market_data_parser.Common.Int.{ℤ}
use market_data_parser.Common.Bytes.{bytes_at}
use mathlib.Core.Option
use market_data_parser.Wire.MessageType.{MessageType}
use market_data_parser.Wire.SizeOf
use market_data_parser.Wire.Object
use market_data_parser.Queue.{MpmcQueue, size_add}
use market_data_parser.Parser.{
  Payload, add_order, execute_order, execute_with_price, order_cancel, order_delete, order_replace,
  trade, system_event, stock_directory, ParsedMessage,
}
use Prim.Native.Nat.{bit_and}

abbrev pub buffer_size : ℕ
buffer_size = 4096 * 1024

abbrev pub alignment : ℕ
alignment = 4096

pub data WriteMode : Type 0 where
  mmap direct buffered : WriteMode

-- The flags of `open` that the logger uses: O_WRONLY, O_CREAT, O_TRUNC, O_DIRECT.
pub record Flags : Type 0 where
  pub write_only : Bool
  pub create : Bool
  pub truncate : Bool
  pub direct : Bool

-- The system calls that the logger makes, on a state of the world outside. `open` returns a file
-- descriptor, or -1; `write` is given the bytes and returns how many it wrote, or -1; `ftruncate` returns
-- whether its result was 0; `map` returns the contents of the mapped memory, or none where mmap
-- returns MAP_FAILED; the results of the others are not used.
pub record Os (W : Type 0) : Type 0 where
  pub open_file : (filename : List ℕ) → Flags → W → ℤ × W
  pub write : (fd : ℤ) → List ℕ → W → ℤ × W
  pub ftruncate : (fd : ℤ) (size : ℕ) → W → Bool × W
  pub map : (fd : ℤ) (size : ℕ) → W → Option (ℕ → ℕ) × W
  pub msync : (memory : ℕ → ℕ) (size : ℕ) → W → W
  pub munmap : (size : ℕ) → W → W
  pub madvise : (size : ℕ) → W → W
  pub close : (fd : ℤ) → W → W

-- `mmap_ptr_`: what it points to is kept apart.
pub data MmapPtr : Type 0 where
  null_ptr map_failed mapped : MmapPtr

-- The members of the class, with `world`, the state of what is outside.
pub record AsyncLogger (W : Type 0) : Type 0 where
  pub queue : MpmcQueue ParsedMessage
  pub filename : List ℕ
  pub write_mode : WriteMode
  pub running : Bool
  pub fd : ℤ  -- int
  pub mmap_ptr : MmapPtr
  pub memory : ℕ → ℕ  -- what mmap_ptr_ points to
  pub mmap_size : ℕ  -- size_t
  pub write_buffer : ℕ → ℕ
  pub buffer_offset : ℕ  -- size_t
  pub total_written : ℕ  -- size_t
  pub world : W

abbrev pub type_size : MessageType → ℕ
type_size MessageType.add_order = SizeOf.add_order
type_size MessageType.execute_order = SizeOf.execute_order
type_size MessageType.execute_order_with_price = SizeOf.execute_with_price
type_size MessageType.order_cancel = SizeOf.order_cancel
type_size MessageType.order_delete = SizeOf.order_delete
type_size MessageType.order_replace = SizeOf.order_replace
type_size MessageType.trade = SizeOf.trade
type_size MessageType.system_event = SizeOf.system_event
type_size MessageType.stock_directory = SizeOf.stock_directory
type_size type = 0

unfoldable pub get_message_size : ParsedMessage → ℕ
get_message_size msg = type_size msg.type

-- The bytes of the member of the union that is held.
abbrev pub member_bytes : Payload → List ℕ
member_bytes (add_order m) = Object.add_order m
member_bytes (execute_order m) = Object.execute_order m
member_bytes (execute_with_price m) = Object.execute_with_price m
member_bytes (order_cancel m) = Object.order_cancel m
member_bytes (order_delete m) = Object.order_delete m
member_bytes (order_replace m) = Object.order_replace m
member_bytes (trade m) = Object.trade m
member_bytes (system_event m) = Object.system_event m
member_bytes (stock_directory m) = Object.stock_directory m

-- The `switch` of `serialize_message`: which part of the union's bytes is copied.
abbrev pub copied : MessageType → List ℕ → List ℕ
copied MessageType.add_order bytes = take SizeOf.add_order bytes
copied MessageType.execute_order bytes = take SizeOf.execute_order bytes
copied MessageType.execute_order_with_price bytes = take SizeOf.execute_with_price bytes
copied MessageType.order_cancel bytes = take SizeOf.order_cancel bytes
copied MessageType.order_delete bytes = take SizeOf.order_delete bytes
copied MessageType.order_replace bytes = take SizeOf.order_replace bytes
copied MessageType.trade bytes = take SizeOf.trade bytes
copied MessageType.system_event bytes = take SizeOf.system_event bytes
copied MessageType.stock_directory bytes = take SizeOf.stock_directory bytes
copied type bytes = []

-- Memory after `memcpy(dest, bytes, length bytes)`, with `dest` as an offset.
abbrev pub copy : (ℕ → ℕ) → ℕ → List ℕ → ℕ → ℕ
copy memory dest bytes i =
    if leb dest i && ltb i (dest + length bytes) then get_or bytes (i - dest) 0 else memory i

-- `(n + ALIGNMENT - 1) & ~(ALIGNMENT - 1)`
unfoldable pub align_up : ℕ → ℕ
align_up n = bit_and ((n + alignment - 1) % 2 ^ 64) (2 ^ 64 - 1 - (alignment - 1))

-- `written > 0`
abbrev pub is_positive : ℤ → Bool
is_positive (ℤ.pos (suc n)) = true
is_positive n = false

abbrev pub bytes_to_write : WriteMode → ℕ → ℕ
bytes_to_write WriteMode.direct n = align_up n
bytes_to_write mode n = n

module _ {W : Type 0} (os : Os W) where
  unfoldable pub flush : AsyncLogger W → AsyncLogger W
  flush l = if l.buffer_offset == 0 then l else flush_by l.write_mode l
    where
      flush_by : WriteMode → AsyncLogger W → AsyncLogger W
      flush_by WriteMode.mmap l = record l { buffer_offset = 0 }
      flush_by mode l =
          let (written, world) =
            os.write l.fd (bytes_at l.write_buffer 0 (bytes_to_write mode l.buffer_offset))
              l.world in
          record l {
            total_written =
                if is_positive written
                then size_add l.total_written l.buffer_offset
                else l.total_written;
            buffer_offset = 0;
            world = world;
          }

  -- `none` where it throws.
  unfoldable pub expand_mmap : AsyncLogger W → Option (AsyncLogger W)
  expand_mmap l =
      let new_size = l.mmap_size * 2 % 2 ^ 64 in
      let released = os.munmap l.mmap_size (os.msync l.memory l.mmap_size l.world) in
      let (result, world) = os.map l.fd new_size (os.ftruncate l.fd new_size released).1 in
      Option.map
        (λ memory. record l {
          memory = memory;
          mmap_size = new_size;
          world = os.madvise new_size world;
        })
        result

-- `slack` is the rest of the union's bytes, behind the member that is held: they are indeterminate.
unfoldable pub serialize_message :
    (slack : ParsedMessage → List ℕ) → (ℕ → ℕ) → ℕ → ParsedMessage → ℕ → ℕ
serialize_message slack memory dest msg =
    copy memory dest (copied msg.type (member_bytes msg.payload ++ slack msg))

module _ {W : Type 0} (os : Os W) (slack : ParsedMessage → List ℕ) where
  -- The two branches of `write_message`.
  unfoldable pub write_mapped : AsyncLogger W → ParsedMessage → Option (AsyncLogger W)
  write_mapped l msg = do
    let msg_size = get_message_size msg
    l ← if ltb l.mmap_size (size_add l.total_written msg_size) then expand_mmap os l else some l
    some (record l {
      memory = serialize_message slack l.memory l.total_written msg;
      total_written = size_add l.total_written msg_size;
    })

  unfoldable pub write_buffered : AsyncLogger W → ParsedMessage → AsyncLogger W
  write_buffered l msg =
      let msg_size = get_message_size msg in
      let l = if ltb buffer_size (size_add l.buffer_offset msg_size) then flush os l else l in
      record l {
        write_buffer = serialize_message slack l.write_buffer l.buffer_offset msg;
        buffer_offset = size_add l.buffer_offset msg_size;
      }

  unfoldable pub write_message : AsyncLogger W → ParsedMessage → Option (AsyncLogger W)
  write_message l msg = write_by l.write_mode
    where
      write_by : WriteMode → Option (AsyncLogger W)
      write_by WriteMode.mmap = write_mapped l msg
      write_by mode = some (write_buffered l msg)

  -- The first loop of `worker_loop`, on what its calls of `try_dequeue` give while `running_` is set.
  unfoldable pub poll : AsyncLogger W → List (Option ParsedMessage) → Option (AsyncLogger W)
  poll l [] = some l
  poll l (some msg ∷ rest) = do l ← write_message l msg; poll l rest
  poll l (none ∷ rest) = poll (flush os l) rest

  -- The second loop, on the messages that are left.
  unfoldable pub drain : AsyncLogger W → List ParsedMessage → Option (AsyncLogger W)
  drain l [] = some l
  drain l (msg ∷ rest) = do l ← write_message l msg; drain l rest

  -- `worker_loop`, and the `flush` with which `stop` follows it.
  unfoldable pub worker_loop :
      AsyncLogger W → List (Option ParsedMessage) → List ParsedMessage → Option (AsyncLogger W)
  worker_loop l polled left = do l ← poll l polled; l ← drain l left; some (flush os l)
