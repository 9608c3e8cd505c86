-- ===== src/Feed/Bench.antt =====
-- What `parse` makes of the messages of MessageGenerator (src/benchmark.cpp).
use market_data_parser.Common.{ℕ, ◌+◌, ◌≡◌, refl, some, length, arith}
use market_data_parser.Common.Bytes.{address}
use market_data_parser.Common.Chars.{of_list}
use market_data_parser.Wire.MessageType.{MessageType, to_byte}
use market_data_parser.Wire.Scalars.{IsU64, ntoh16, ntoh32, ntoh64}
use market_data_parser.Wire.Messages.{AddOrderMessage, ExecuteOrderMessage}
use market_data_parser.Wire.ObjectLength
use market_data_parser.Parser.{add_order, execute_order, Tsc, parse}
use market_data_parser.Parser.ToHost
use market_data_parser.Parser.ToHost.BigEndian
use market_data_parser.Parser.Members.{parsed}
use market_data_parser.Feed.{
  hton16, hton32, hton64, u32, MessageGenerator, generate_add_order, generate_execute_order, aapl,
}
use market_data_parser.Feed.ReadBack.{read_back, demo_header, of_list-IsChars}

-- The messages of the benchmark.
abbrev pub bench_add_order : MessageGenerator → (now : ℕ) → AddOrderMessage
bench_add_order gen now = record {
  header = demo_header MessageType.add_order gen.counter now;
  order_reference_number = u32 (1000000 + u32 (gen.counter + 1));
  buy_sell_indicator = b'B';
  shares = 100;
  stock = of_list 8 aapl;
  price = 1500000;
}

abbrev pub bench_execute_order : MessageGenerator → (now : ℕ) → ExecuteOrderMessage
bench_execute_order gen now = record {
  header = demo_header MessageType.execute_order gen.counter now;
  order_reference_number = u32 (1000000 + u32 (gen.counter + 1));
  executed_shares = 50;
  match_number = u32 (5000000 + u32 (gen.counter + 1));
}

module _ (gen : MessageGenerator) (now : ℕ) (h : IsU64 now) (tsc : Tsc) where
  -- `parse` accepts what `generate_add_order` builds at any counter and time stamp, and returns the
  -- values that it was built from, the counter's truncations to 16 and 32 bits included.
  pub parse-generate_add_order :
      let (msg, gen') = generate_add_order gen now in
      parse (address msg) (length msg) tsc ≡ some (parsed (add_order (bench_add_order gen now)) tsc)
  unfolding generate_add_order hton16 hton32 hton64 ntoh16 ntoh32 ntoh64 to_byte ToHost.add_order
  parse-generate_add_order =
      read_back (add_order (bench_add_order gen now)) (BigEndian.add_order _)
        (ObjectLength.add_order _) tsc
        (record {
          header = record {
            message_type = omega arith;
            stock_locate = omega arith;
            tracking_number = omega arith;
            timestamp = h;
          };
          order_reference_number = omega arith;
          buy_sell_indicator = omega arith;
          shares = omega arith;
          stock = of_list-IsChars 8 aapl (omega arith);
          price = omega arith;
        })
        refl

  -- `parse` accepts what `generate_execute_order` builds at any counter and time stamp, and returns
  -- the values that it was built from, the counter's truncations to 16 and 32 bits included.
  pub parse-generate_execute_order :
      let (msg, gen') = generate_execute_order gen now in
      parse (address msg) (length msg) tsc
      ≡ some (parsed (execute_order (bench_execute_order gen now)) tsc)
  unfolding generate_execute_order hton16 hton32 hton64 ntoh16 ntoh32 ntoh64 to_byte
      ToHost.execute_order
  parse-generate_execute_order =
      read_back (execute_order (bench_execute_order gen now)) (BigEndian.execute_order _)
        (ObjectLength.execute_order _) tsc
        (record {
          header = record {
            message_type = omega arith;
            stock_locate = omega arith;
            tracking_number = omega arith;
            timestamp = h;
          };
          order_reference_number = omega arith;
          executed_shares = omega arith;
          match_number = omega arith;
        })
        refl
