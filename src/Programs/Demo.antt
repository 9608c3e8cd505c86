-- ===== src/Programs/Demo.antt =====
-- src/demo.cpp. What it prints of the messages is text; the banners, the system's data and what is floating-point
-- is left out. The text of a price, a floating-point number, is an argument. The clocks are arguments, by the
-- number of the message.
pub mod Numerals
pub mod Printing
pub mod Messages
pub mod Logged
pub mod Measured
pub mod Main
use market_data_parser.Common.{
  ℕ, zero, suc, ◌+◌, ◌-◌, ◌*◌, ◌/◌, ◌%◌, Option, none, some, List, [], ◌∷◌, ◌++◌, length, get_elem?,
  codes, ◌==◌, if◌then◌else◌, ◌>>=◌,
}
use market_data_parser.Common.Bytes.{address}
use market_data_parser.Common.Int.{ℤ}
use market_data_parser.Wire.MessageType.{MessageType, to_byte}
use market_data_parser.Wire.Symbol.{get_stock_symbol}
use market_data_parser.Parser.{
  Payload, add_order, trade, execute_order, system_event, ParsedMessage, Tsc, parse,
}
use market_data_parser.Feed.{DemoMessageGenerator, create_add_order, create_trade}
use market_data_parser.Logger.{Os, AsyncLogger}
use market_data_parser.Logger.Lifecycle.{
  returned, thrown, start, stop, get_total_written, get_queue_size,
}
use market_data_parser.SystemUtils.{Kernel, pin, unpin, digits_of}
use market_data_parser.Programs.{Reading, latency, Turn, log_waiting}
use market_data_parser.Programs.Latencies.{sort}

-- The text of an unsigned number of at most 64 bits, which has at most twenty digits.
abbrev pub decimal : ℕ → List ℕ
decimal n = digits_of 20 n

-- '\n'
abbrev pub newline : List ℕ
newline = 10 ∷ []

abbrev pub side_text : ℕ → List ℕ
side_text side = if side == b'B' then codes "BUY" else codes "SELL"

-- The `switch` of `print_message`; none where it reads a member of the union that is not held.
unfoldable pub print_member : (price_text : ℕ → List ℕ) → MessageType → Payload → Option (List ℕ)
print_member price_text MessageType.add_order (add_order m) = some (
    codes "ADD ORDER: "
    ++ get_stock_symbol m.stock
    ++ codes " "
    ++ side_text m.buy_sell_indicator
    ++ codes " "
    ++ decimal m.shares
    ++ codes " @ $"
    ++ price_text m.price
    ++ codes " (Ref: "
    ++ decimal m.order_reference_number
    ++ codes ")"
    ++ newline)
print_member price_text MessageType.add_order _ = none
print_member price_text MessageType.trade (trade m) = some (
    codes "TRADE: "
    ++ get_stock_symbol m.stock
    ++ codes " "
    ++ side_text m.buy_sell_indicator
    ++ codes " "
    ++ decimal m.shares
    ++ codes " @ $"
    ++ price_text m.price
    ++ codes " (Match: "
    ++ decimal m.match_number
    ++ codes ")"
    ++ newline)
print_member price_text MessageType.trade _ = none
print_member price_text MessageType.execute_order (execute_order m) = some (
    codes "EXECUTE: Ref "
    ++ decimal m.order_reference_number
    ++ codes " executed "
    ++ decimal m.executed_shares
    ++ codes " shares"
    ++ codes " (Match: "
    ++ decimal m.match_number
    ++ codes ")"
    ++ newline)
print_member price_text MessageType.execute_order _ = none
print_member price_text MessageType.system_event (system_event m) =
    some (codes "SYSTEM EVENT: " ++ (m.event_code ∷ newline))
print_member price_text MessageType.system_event _ = none
print_member price_text type _ = some (codes "Message type: " ++ decimal (to_byte type) ++ newline)

unfoldable pub print_message : (price_text : ℕ → List ℕ) → ParsedMessage → Option (List ℕ)
unfolding print_member
print_message price_text msg = print_member price_text msg.type msg.payload

-- `if (auto parsed = parser.parse(...)) { print_message(*parsed); }`
unfoldable pub show : (price_text : ℕ → List ℕ) → Tsc → (msg : List ℕ) → Option (List ℕ)
show price_text tsc msg = elim (parse (address msg) (length msg) tsc) [
  | some parsed ↦ print_message price_text parsed
  | none ↦ some []
]

-- The text after "Parsing messages...".
unfoldable pub demo_basic_parsing :
    (price_text : ℕ → List ℕ) (now : ℕ → ℕ) (stamps : ℕ → Tsc) → Option (List ℕ)
demo_basic_parsing price_text now stamps =
    let gen : DemoMessageGenerator = record { seq = 0 } in
    let (msg1, gen) = create_add_order gen (now 0) (codes "AAPL") b'B' 100 1500000 in
    let (msg2, gen) = create_add_order gen (now 1) (codes "MSFT") b'S' 50 3200000 in
    let (msg3, gen) = create_trade gen (now 2) (codes "GOOGL") b'B' 25 1400000 in
    do
      text1 ← show price_text (stamps 0) msg1
      text2 ← show price_text (stamps 1) msg2
      text3 ← show price_text (stamps 2) msg3
      some (text1 ++ text2 ++ text3)

-- The message that the i-th round of `demo_async_logging` makes.
unfoldable pub make_message :
    (now : ℕ) (i : ℕ) → DemoMessageGenerator → List ℕ × DemoMessageGenerator
make_message now i gen =
    if i % 2 == 0
    then create_add_order gen now (codes "TSLA") b'B' (100 + i) (2500000 + i * 100)
    else create_trade gen now (codes "NVDA") b'S' (50 + i) (5000000 + i * 100)

module _ {W : Type 0} (os : Os W) (slack : ParsedMessage → List ℕ) where
  -- The body of its loop.
  unfoldable pub log_round :
      (now : ℕ) (stamp : Tsc) (turns : List Turn) (i : ℕ)
      → DemoMessageGenerator × AsyncLogger W
      → Option (DemoMessageGenerator × AsyncLogger W)
  log_round now stamp turns i (gen, l) =
      let (msg, gen) = make_message now i gen in
      elim (parse (address msg) (length msg) stamp) [
        | some parsed ↦ log_waiting os slack turns parsed l >>= λ l. some (gen, l)
        | none ↦ some (gen, l)
      ]

  -- Its first `n` rounds.
  unfoldable pub log_rounds :
      (now : ℕ → ℕ) (stamps : ℕ → Tsc) (turns : ℕ → List Turn) (n : ℕ)
      → DemoMessageGenerator × AsyncLogger W
      → Option (DemoMessageGenerator × AsyncLogger W)
  log_rounds now stamps turns zero state = some state
  log_rounds now stamps turns (suc i) state = log_rounds now stamps turns i state >>= λ state.
      log_round (now i) (stamps i) (turns i) i state

  -- From the logger as it is constructed. The result has the queue size before `stop`, and the number of bytes
  -- that the program says were written; it is none if `start` throws, or if a message is never accepted.
  unfoldable pub demo_async_logging :
      (now : ℕ → ℕ) (stamps : ℕ → Tsc) (turns : ℕ → List Turn) (fuel : ℕ) (retries : ℕ → ℕ)
      → AsyncLogger W
      → Option (ℕ × ℕ × AsyncLogger W)
  demo_async_logging now stamps turns fuel retries l = elim (start os l) [
    | returned l ↦ do
      (gen, l) ← log_rounds now stamps turns 1000 (record { seq = 0 }, l)
      let queue_size = get_queue_size l
      l ← stop os slack fuel retries l
      some (queue_size, get_total_written l, l)
    | thrown l ↦ none
  ]

-- The latencies of `n` parses of the same message.
unfoldable pub measure : (readings : ℕ → Reading) (n : ℕ) (msg : List ℕ) → List ℕ
measure readings zero msg = []
measure readings (suc i) msg =
    let latencies = measure readings i msg in
    elim (parse (address msg) (length msg) (readings i).stamp) [
      | some _ ↦ latencies ++ (latency (readings i) ∷ [])
      | none ↦ latencies
    ]

pub record Report : Type 0 where
  pub min : ℕ
  pub median : ℕ
  pub p99 : ℕ
  pub max : ℕ

-- None is an access out of range.
unfoldable pub report : List ℕ → Option Report
report latencies =
    let sorted = sort latencies in
    do
      min ← get_elem? sorted 0
      median ← get_elem? sorted (length sorted / 2)
      p99 ← get_elem? sorted (length sorted * 99 / 100)
      max ← get_elem? sorted (length sorted - 1)
      some (record { min = min; median = median; p99 = p99; max = max })

-- With the world after the scope in which the thread is pinned.
unfoldable pub demo_performance_features :
    {W C : Type 0} → Kernel W C → (now : ℕ) (readings : ℕ → Reading) → W → Option Report × W
demo_performance_features kernel now readings w =
    let (pinned, w) = pin kernel (ℤ.pos 0) w in
    let w = unpin kernel pinned w in
    let gen : DemoMessageGenerator = record { seq = 0 } in
    let (msg, gen) = create_add_order gen now (codes "AAPL") b'B' 100 1500000 in
    (report (measure readings 10000 msg), w)
