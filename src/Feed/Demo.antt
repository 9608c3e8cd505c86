-- ===== src/Feed/Demo.antt =====
-- What `parse` makes of the messages of DemoMessageGenerator (src/demo.cpp).
use market_data_parser.Common.{
  ℕ, ◌+◌, ◌-◌, ◌≤◌, ◌≡◌, refl, ap, ◌∙◌, some, List, ◌++◌, length, length-append, length-replicate,
  take-all, replicate, All, All-append, All-take, All-replicate, arith,
}
use market_data_parser.Common.Bytes.{IsByte, address}
use market_data_parser.Common.Chars.{of_list}
use market_data_parser.Wire.MessageType.{MessageType, to_byte}
use market_data_parser.Wire.Scalars.{IsU8, IsU32, IsU64, ntoh16, ntoh32, ntoh64}
use market_data_parser.Wire.Messages.{AddOrderMessage, TradeMessage}
use market_data_parser.Wire.Symbol.{space, get_stock_symbol, IsUnpadded, get_stock_symbol-pad}
use market_data_parser.Wire.ObjectLength
use market_data_parser.Parser.{add_order, trade, Tsc, parse}
use market_data_parser.Parser.ToHost
use market_data_parser.Parser.ToHost.BigEndian
use market_data_parser.Parser.Members.{parsed}
use market_data_parser.Feed.{
  DemoMessageGenerator, create_add_order, create_trade, hton16, hton32, hton64, resize, u32,
}
use market_data_parser.Feed.ReadBack.{read_back, demo_header, of_list-IsChars}

abbrev pub demo_add_order :
    DemoMessageGenerator → (now : ℕ) (symbol : List ℕ) (side shares price : ℕ) → AddOrderMessage
demo_add_order gen now symbol side shares price = record {
  header = demo_header MessageType.add_order gen.seq now;
  order_reference_number = u32 (100000 + u32 (gen.seq + 1));
  buy_sell_indicator = side;
  shares = shares;
  stock = of_list 8 (resize 8 space symbol);
  price = price;
}

abbrev pub demo_trade :
    DemoMessageGenerator → (now : ℕ) (symbol : List ℕ) (side shares price : ℕ) → TradeMessage
demo_trade gen now symbol side shares price = record {
  header = demo_header MessageType.trade gen.seq now;
  order_reference_number = u32 (100000 + u32 (gen.seq + 1));
  buy_sell_indicator = side;
  shares = shares;
  stock = of_list 8 (resize 8 space symbol);
  price = price;
  match_number = u32 (500000 + u32 (gen.seq + 1));
}

resize-IsByte : (n : ℕ) (symbol : List ℕ) → All IsByte symbol → All IsByte (resize n space symbol)
resize-IsByte n symbol h =
    All-take IsByte n _
      (All-append IsByte symbol _ h (All-replicate IsByte (n - length symbol) space (omega arith)))

-- A symbol of at most eight characters that does not end in a space survives the padding.
get_stock_symbol-resize :
    (s : List ℕ) → length s ≤ 8 → IsUnpadded s → get_stock_symbol (of_list 8 (resize 8 space s)) ≡ s
get_stock_symbol-resize s le unpadded =
    ap (λ xs. get_stock_symbol (of_list 8 xs))
      (take-all 8 (s ++ replicate (8 - length s) space) (
        omega (
          arith,
          length-append s (replicate (8 - length s) space),
          length-replicate (8 - length s) space,
        )))
    ∙ get_stock_symbol-pad s le unpadded

-- What a caller of a generator passes in.
pub record Inputs (now : ℕ) (symbol : List ℕ) (side shares price : ℕ) : Type 0 where
  pub now_u64 : IsU64 now
  pub side_u8 : IsU8 side
  pub shares_u32 : IsU32 shares
  pub price_u32 : IsU32 price
  pub chars : All IsByte symbol
  pub short : length symbol ≤ 8
  pub unpadded : IsUnpadded symbol

module _ (gen : DemoMessageGenerator) (now : ℕ) (symbol : List ℕ) (side shares price : ℕ)
    (i : Inputs now symbol side shares price) (tsc : Tsc) where
  abbrev order : AddOrderMessage
  order = demo_add_order gen now symbol side shares price

  abbrev fill : TradeMessage
  fill = demo_trade gen now symbol side shares price

  -- `parse` accepts what `create_add_order` builds, and returns every value that was passed in, with
  -- the counters; the stock symbol is the caller's. The generator moves on by one, modulo 2^32. The clock has
  -- 64 bits, the side 8, the number of shares and the price 32, and the symbol is at most eight bytes
  -- that do not end in a space.
  pub parse-create_add_order :
      let (msg, gen') = create_add_order gen now symbol side shares price in
      (parse (address msg) (length msg) tsc ≡ some (parsed (add_order order) tsc))
      × (get_stock_symbol order.stock ≡ symbol)
      × (gen'.seq ≡ u32 (gen.seq + 1))
  unfolding create_add_order hton16 hton32 hton64 ntoh16 ntoh32 ntoh64 to_byte ToHost.add_order
  parse-create_add_order = (
    read_back (add_order order) (BigEndian.add_order order) (ObjectLength.add_order _) tsc
        (record {
          header = record {
            message_type = omega arith;
            stock_locate = omega arith;
            tracking_number = omega arith;
            timestamp = i.now_u64;
          };
          order_reference_number = omega arith;
          buy_sell_indicator = i.side_u8;
          shares = i.shares_u32;
          stock = of_list-IsChars 8 _ (resize-IsByte 8 symbol i.chars);
          price = i.price_u32;
        })
        refl,
    get_stock_symbol-resize symbol i.short i.unpadded,
    refl,
  )

  -- `parse` accepts what `create_trade` builds, and returns every value that was passed in, with
  -- the counters; the stock symbol is the caller's. The generator moves on by one.
  pub parse-create_trade :
      let (msg, gen') = create_trade gen now symbol side shares price in
      (parse (address msg) (length msg) tsc ≡ some (parsed (trade fill) tsc))
      × (get_stock_symbol fill.stock ≡ symbol)
      × (gen'.seq ≡ u32 (gen.seq + 1))
  unfolding create_trade hton16 hton32 hton64 ntoh16 ntoh32 ntoh64 to_byte ToHost.trade
  parse-create_trade = (
    read_back (trade fill) (BigEndian.trade fill) (ObjectLength.trade _) tsc
        (record {
          header = record {
            message_type = omega arith;
            stock_locate = omega arith;
            tracking_number = omega arith;
            timestamp = i.now_u64;
          };
          order_reference_number = omega arith;
          buy_sell_indicator = i.side_u8;
          shares = i.shares_u32;
          stock = of_list-IsChars 8 _ (resize-IsByte 8 symbol i.chars);
          price = i.price_u32;
          match_number = omega arith;
        })
        refl,
    get_stock_symbol-resize symbol i.short i.unpadded,
    refl,
  )
