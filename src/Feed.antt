-- ===== src/Feed.antt =====
-- The sources of messages: DemoMessageGenerator of src/demo.cpp and MessageGenerator of
-- src/benchmark.cpp. A message is built in place, by assignments through a struct that is laid over
-- a vector of its size, so its bytes are those of the struct.
pub mod ReadBack
pub mod Demo
pub mod Bench
pub mod Stamp
mod Tests
use market_data_parser.Common.{
  ℕ, ◌+◌, ◌-◌, ◌*◌, ◌%◌, ◌^◌, List, [], ◌∷◌, ◌++◌, length, take, replicate,
}
use market_data_parser.Common.Bytes.{bswap}
use market_data_parser.Common.Chars.{of_list}
use market_data_parser.Wire.MessageType.{MessageType, to_byte}
use market_data_parser.Wire.Object
use market_data_parser.Wire.Symbol.{space}

unfoldable pub hton16 : ℕ → ℕ
hton16 x = bswap 2 x

unfoldable pub hton32 : ℕ → ℕ
hton32 x = bswap 4 x

unfoldable pub hton64 : ℕ → ℕ
hton64 x = bswap 8 x

-- A day, in nanoseconds.
abbrev pub day : ℕ
day = 24 * 3600 * 1000000000

-- `now` is what the system clock gives, in nanoseconds since 1970; the difference is converted to uint64_t.
unfoldable pub get_itch_timestamp : (now : ℕ) → ℕ
get_itch_timestamp now = (now + 2 ^ 64 - day) % 2 ^ 64

-- `std::string::resize`: cut at `n` characters, or filled up with `c`.
abbrev pub resize : ℕ → ℕ → List ℕ → List ℕ
resize n c s = take n (s ++ replicate (n - length s) c)

pub record DemoMessageGenerator : Type 0 where
  pub seq : ℕ  -- uint32_t seq_

abbrev pub u16 : ℕ → ℕ
u16 x = x % 2 ^ 16

abbrev pub u32 : ℕ → ℕ
u32 x = x % 2 ^ 32

-- `seq_++`
unfoldable pub advance : DemoMessageGenerator → DemoMessageGenerator
advance gen = record { seq = u32 (gen.seq + 1) }

-- `now` is what `get_itch_timestamp` makes of the system clock. The tracking number is the counter
-- before it is incremented, the reference number counts from the counter after it.
unfoldable pub create_add_order :
    DemoMessageGenerator
    → (now : ℕ) (symbol : List ℕ) (side shares price_cents : ℕ) → List ℕ × DemoMessageGenerator
unfolding advance
create_add_order gen now symbol side shares price_cents = (
  Object.add_order (record {
    header = record {
      message_type = to_byte MessageType.add_order;
      stock_locate = hton16 1;
      tracking_number = hton16 (u16 gen.seq);
      timestamp = hton64 now;
    };
    order_reference_number = hton64 (u32 (100000 + (advance gen).seq));
    buy_sell_indicator = side;
    shares = hton32 shares;
    stock = of_list 8 (resize 8 space symbol);
    price = hton32 price_cents;
  }),
  advance gen,
)

unfoldable pub create_trade :
    DemoMessageGenerator
    → (now : ℕ) (symbol : List ℕ) (side shares price_cents : ℕ) → List ℕ × DemoMessageGenerator
unfolding advance
create_trade gen now symbol side shares price_cents = (
  Object.trade (record {
    header = record {
      message_type = to_byte MessageType.trade;
      stock_locate = hton16 1;
      tracking_number = hton16 (u16 gen.seq);
      timestamp = hton64 now;
    };
    order_reference_number = hton64 (u32 (100000 + (advance gen).seq));
    buy_sell_indicator = side;
    shares = hton32 shares;
    stock = of_list 8 (resize 8 space symbol);
    price = hton32 price_cents;
    match_number = hton64 (u32 (500000 + (advance gen).seq));
  }),
  advance gen,
)

pub record MessageGenerator : Type 0 where
  pub counter : ℕ  -- uint32_t counter_

unfoldable pub count : MessageGenerator → MessageGenerator
count gen = record { counter = u32 (gen.counter + 1) }

-- "AAPL    "
abbrev pub aapl : List ℕ
aapl = b'A' ∷ b'A' ∷ b'P' ∷ b'L' ∷ space ∷ space ∷ space ∷ space ∷ []

-- `now` is what `SystemUtils::rdtsc` returns.
unfoldable pub generate_add_order : MessageGenerator → (now : ℕ) → List ℕ × MessageGenerator
unfolding count
generate_add_order gen now = (
  Object.add_order (record {
    header = record {
      message_type = to_byte MessageType.add_order;
      stock_locate = hton16 1;
      tracking_number = hton16 (u16 gen.counter);
      timestamp = hton64 now;
    };
    order_reference_number = hton64 (u32 (1000000 + (count gen).counter));
    buy_sell_indicator = b'B';
    shares = hton32 100;
    stock = of_list 8 aapl;
    price = hton32 1500000;
  }),
  count gen,
)

unfoldable pub generate_execute_order : MessageGenerator → (now : ℕ) → List ℕ × MessageGenerator
unfolding count
generate_execute_order gen now = (
  Object.execute_order (record {
    header = record {
      message_type = to_byte MessageType.execute_order;
      stock_locate = hton16 1;
      tracking_number = hton16 (u16 gen.counter);
      timestamp = hton64 now;
    };
    order_reference_number = hton64 (u32 (1000000 + (count gen).counter));
    executed_shares = hton32 50;
    match_number = hton64 (u32 (5000000 + (count gen).counter));
  }),
  count gen,
)
