-- ===== src/Feed/Tests.antt =====
-- Messages of src/demo.cpp and src/benchmark.cpp, as instances of the theorems on the generators.
use market_data_parser.Common.{ℕ, ◌+◌, ◌≡◌, some, List, [], ◌∷◌, length, arith}
use market_data_parser.Common.Bytes.{address}
use market_data_parser.Wire.Symbol.{get_stock_symbol, IsUnpadded}
use market_data_parser.Parser.{add_order, Tsc, parse}
use market_data_parser.Parser.Members.{parsed}
use market_data_parser.Feed.{DemoMessageGenerator, create_add_order, u32}
use market_data_parser.Feed.Demo.{Inputs, demo_add_order, parse-create_add_order}

abbrev tsc : Tsc
tsc = record { lo = 7; hi = 1 }

abbrev fresh : DemoMessageGenerator
fresh = record { seq = 0 }

abbrev googl : List ℕ
googl = b'G' ∷ b'O' ∷ b'O' ∷ b'G' ∷ b'L' ∷ []

googl-IsUnpadded : IsUnpadded googl
googl-IsUnpadded k e = let last : k ≡ 4 = omega arith in rw last (omega arith)

googl-Inputs : Inputs 1_700_000_000_000_000_000 googl b'B' 25 1400000
googl-Inputs = record {
  now_u64 = omega arith;
  side_u8 = omega arith;
  shares_u32 = omega arith;
  price_u32 = omega arith;
  chars = omega arith;
  short = omega arith;
  unpadded = googl-IsUnpadded;
}

parse-create_add_order_example :
    let (msg, gen') = create_add_order fresh 1_700_000_000_000_000_000 googl b'B' 25 1400000 in
    let m = demo_add_order fresh 1_700_000_000_000_000_000 googl b'B' 25 1400000 in
    (parse (address msg) (length msg) tsc ≡ some (parsed (add_order m) tsc))
    × (get_stock_symbol m.stock ≡ googl)
    × (gen'.seq ≡ u32 (0 + 1))
parse-create_add_order_example =
    parse-create_add_order fresh 1_700_000_000_000_000_000 googl b'B' 25 1400000 googl-Inputs tsc
