-- ===== src/Lib.antt =====
-- The market data parser: NASDAQ ITCH messages parsed from raw bytes, a bounded queue between threads,
-- and a logger that writes parsed messages to a file.
--
-- Parts, and the files that model them:
-- * include/itch_protocol.hpp, the message types, packed structs and byte order: Wire. The structs are
--   the records of Wire/Messages; `sizeof` is Wire/SizeOf; Wire/Overlay reads a struct from raw bytes
--   (`reinterpret_cast`), Wire/Object is its bytes in memory (`memcpy`), both on a little-endian host;
--   `ntoh16/32/64` are in Wire/Scalars, `get_stock_symbol` in Wire/Symbol. Wire/Format is the
--   specification: the same fields in the same order, big-endian.
-- * include/itch_parser.hpp, ITCHParser: Parser. `parse` is Parser.parse, its `switch` is `dispatch`, each
--   `parse_*` member has its name, and the assignments in its body are Parser/ToHost. A pointer is the
--   function that gives the byte at each offset, and the length is a number of its own. The two
--   registers that `rdtsc` fills are an argument (`Tsc`).
-- * src/demo.cpp and src/benchmark.cpp: their message generators are Feed, the rest is Programs. The clocks are
--   arguments. The loop around `log` is given a list of turns, with what the worker thread does in each; the
--   theorems ask for one turn, not the last, in which it makes an iteration. The two `main` functions are
--   Programs/Benchmark/Main and Programs/Demo/Main. Logger/Recorded joins the parser and the logger.
-- * include/mpmc_queue.hpp, MPMCQueue: Queue. The arrays are functions of the index and the
--   capacity is 2^k. `try_enqueue` and `try_dequeue` are a machine with one access to shared memory
--   per step (`Pc` is the place in the function, `step` the access). Queue/Fifo is the
--   specification for calls that are made one after the other (Queue/Quiet, Queue/Calls);
--   Queue/Threads interleaves the accesses of any number of threads, with `history` added to record
--   which item claimed which position; Queue/Safety, Queue/Holders, Queue/Answers and
--   Queue/Progress are what holds then. Queue/Spec is what threads that share the queue are
--   promised, a bounded list in which each call has one moment; Queue/View is the list that a state
--   stands for, and Queue/Moving, Queue/Moments and Queue/Refines relate the accesses to its moves.
--   The accesses are sequentially consistent. `compare_exchange_weak` may fail spuriously at any
--   time, so a call takes any number of retries and `rounds` gives it that many steps. The counters
--   are 64-bit and are compared as signed numbers: the theorems on states that many accesses reach
--   assume that counters stay below 2^63, which needs centuries of accesses.
-- * include/async_logger.hpp, AsyncLogger: Logger has the state, the serialization, `write_message`, `flush`,
--   `expand_mmap` and the loops of `worker_loop` on given answers of the queue; Logger/Lifecycle has the
--   constructor, `start`, `stop`, `open_file`, `close_file`, `log`, and the worker's loops on the queue of Queue.
--   The system calls are a record of functions (`Os`) on a state of the world. A call that throws in the
--   caller's thread is `thrown`, with the object as it is left; one in the worker thread, which ends the
--   program, is `none`. A session is a sequence of calls of `log` and iterations of the worker, each
--   one step. The fuel of the worker's last loop is more than the capacity of the queue. Logger/Sink is
--   the interface between the threads around the queue and the mode of the logger; Logger/Sinks fills it for
--   BUFFERED mode (Logger/Buffered) and for DIRECT mode (Logger/Direct), and the sessions of both
--   (Logger/Session, Logger/DirectSession) are proved from it. A mapping is a function from offsets to bytes;
--   `start` throws in MMAP mode where mmap does what is documented (Logger/Opening), so no session of
--   that mode is described.
-- * include/system_utils.hpp, SystemUtils, ScopedCPUPin and ScopedMemoryLock: SystemUtils. The calls of libc and
--   the kernel are a record of functions (`Kernel`), the readings of the time stamp counter a function.
--
-- Numbers are natural numbers, reduced where the code's unsigned types wrap; the range of a field is a
-- predicate (Wire/Range). Lists of bytes stand for buffers.
--
-- The interface Parser/Struct holds what is known of one message struct; Parser/Structs fills it nine
-- times, and the theorems on `parse` are proved from it.
--
-- Not modelled: `price_to_double` and all other floating point, console output but for the lines of
-- `print_message`, the percentiles of the summary, and the numbers of bytes and latencies, `prefetch`,
-- `compiler_barrier` and `cpu_pause`, which have no effect on values, and the release of the write buffer
-- in the logger's destructor (`destroy`).
pub mod Common
pub mod Wire
pub mod Parser
pub mod Feed
pub mod Queue
pub mod Logger
pub mod SystemUtils
pub mod Programs
