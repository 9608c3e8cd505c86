-- ===== src/Wire/OverlayObject.antt =====
-- A struct laid over its own bytes is the struct: the offsets of Overlay are those of Object.
use market_data_parser.Common.{ℕ, List, [], ◌++◌, ◌≡◌}
use market_data_parser.Common.Bytes.{address, to_le}
use market_data_parser.Wire.Scalars.{of_le-store16, of_le-store32, of_le-store64}
use market_data_parser.Wire.Range
use market_data_parser.Wire.Overlay
use market_data_parser.Wire.Object
use market_data_parser.Wire.Messages.{
  MessageHeader, AddOrderMessage, ExecuteOrderMessage, ExecuteOrderWithPriceMessage,
  OrderCancelMessage, OrderDeleteMessage, OrderReplaceMessage, TradeMessage, SystemEventMessage,
  StockDirectoryMessage,
}

pub header :
    (m : MessageHeader) (rest : List ℕ)
    → Range.Header m
    → Overlay.header (address (Object.header m ++ rest)) ≡ m
unfolding Overlay.header Object.header to_le
header m rest r = λ i. record {
  message_type = m.message_type;
  stock_locate = of_le-store16 m.stock_locate r.stock_locate i;
  tracking_number = of_le-store16 m.tracking_number r.tracking_number i;
  timestamp = of_le-store64 m.timestamp r.timestamp i;
}

pub add_order :
    (m : AddOrderMessage) (rest : List ℕ)
    → Range.AddOrder m
    → Overlay.add_order (address (Object.add_order m ++ rest)) ≡ m
unfolding Overlay.add_order Object.add_order to_le
add_order m rest r = λ i. record {
  header = header m.header [] r.header i;
  order_reference_number = of_le-store64 m.order_reference_number r.order_reference_number i;
  buy_sell_indicator = m.buy_sell_indicator;
  shares = of_le-store32 m.shares r.shares i;
  stock = m.stock;
  price = of_le-store32 m.price r.price i;
}

pub execute_order :
    (m : ExecuteOrderMessage) (rest : List ℕ)
    → Range.ExecuteOrder m
    → Overlay.execute_order (address (Object.execute_order m ++ rest)) ≡ m
unfolding Overlay.execute_order Object.execute_order to_le
execute_order m rest r = λ i. record {
  header = header m.header [] r.header i;
  order_reference_number = of_le-store64 m.order_reference_number r.order_reference_number i;
  executed_shares = of_le-store32 m.executed_shares r.executed_shares i;
  match_number = of_le-store64 m.match_number r.match_number i;
}

pub execute_with_price :
    (m : ExecuteOrderWithPriceMessage) (rest : List ℕ)
    → Range.ExecuteOrderWithPrice m
    → Overlay.execute_with_price (address (Object.execute_with_price m ++ rest)) ≡ m
unfolding Overlay.execute_with_price Object.execute_with_price to_le
execute_with_price m rest r = λ i. record {
  header = header m.header [] r.header i;
  order_reference_number = of_le-store64 m.order_reference_number r.order_reference_number i;
  executed_shares = of_le-store32 m.executed_shares r.executed_shares i;
  match_number = of_le-store64 m.match_number r.match_number i;
  printable = m.printable;
  execution_price = of_le-store32 m.execution_price r.execution_price i;
}

pub order_cancel :
    (m : OrderCancelMessage) (rest : List ℕ)
    → Range.OrderCancel m
    → Overlay.order_cancel (address (Object.order_cancel m ++ rest)) ≡ m
unfolding Overlay.order_cancel Object.order_cancel to_le
order_cancel m rest r = λ i. record {
  header = header m.header [] r.header i;
  order_reference_number = of_le-store64 m.order_reference_number r.order_reference_number i;
  cancelled_shares = of_le-store32 m.cancelled_shares r.cancelled_shares i;
}

pub order_delete :
    (m : OrderDeleteMessage) (rest : List ℕ)
    → Range.OrderDelete m
    → Overlay.order_delete (address (Object.order_delete m ++ rest)) ≡ m
unfolding Overlay.order_delete Object.order_delete to_le
order_delete m rest r = λ i. record {
  header = header m.header [] r.header i;
  order_reference_number = of_le-store64 m.order_reference_number r.order_reference_number i;
}

pub order_replace :
    (m : OrderReplaceMessage) (rest : List ℕ)
    → Range.OrderReplace m
    → Overlay.order_replace (address (Object.order_replace m ++ rest)) ≡ m
unfolding Overlay.order_replace Object.order_replace to_le
order_replace m rest r = λ i. record {
  header = header m.header [] r.header i;
  original_order_reference_number =
      of_le-store64 m.original_order_reference_number r.original_order_reference_number i;
  new_order_reference_number =
      of_le-store64 m.new_order_reference_number r.new_order_reference_number i;
  shares = of_le-store32 m.shares r.shares i;
  price = of_le-store32 m.price r.price i;
}

pub trade :
    (m : TradeMessage) (rest : List ℕ)
    → Range.Trade m
    → Overlay.trade (address (Object.trade m ++ rest)) ≡ m
unfolding Overlay.trade Object.trade to_le
trade m rest r = λ i. record {
  header = header m.header [] r.header i;
  order_reference_number = of_le-store64 m.order_reference_number r.order_reference_number i;
  buy_sell_indicator = m.buy_sell_indicator;
  shares = of_le-store32 m.shares r.shares i;
  stock = m.stock;
  price = of_le-store32 m.price r.price i;
  match_number = of_le-store64 m.match_number r.match_number i;
}

pub system_event :
    (m : SystemEventMessage) (rest : List ℕ)
    → Range.SystemEvent m
    → Overlay.system_event (address (Object.system_event m ++ rest)) ≡ m
unfolding Overlay.system_event Object.system_event to_le
system_event m rest r =
    λ i. record { header = header m.header [] r.header i; event_code = m.event_code }

pub stock_directory :
    (m : StockDirectoryMessage) (rest : List ℕ)
    → Range.StockDirectory m
    → Overlay.stock_directory (address (Object.stock_directory m ++ rest)) ≡ m
unfolding Overlay.stock_directory Object.stock_directory to_le
stock_directory m rest r = λ i. record {
  header = header m.header [] r.header i;
  stock = m.stock;
  market_category = m.market_category;
  financial_status_indicator = m.financial_status_indicator;
  round_lot_size = of_le-store32 m.round_lot_size r.round_lot_size i;
  round_lots_only = m.round_lots_only;
  issue_classification = m.issue_classification;
  issue_sub_type = m.issue_sub_type;
  authenticity = m.authenticity;
  short_sale_threshold_indicator = m.short_sale_threshold_indicator;
  ipo_flag = m.ipo_flag;
  luld_reference_price_tier = m.luld_reference_price_tier;
  etp_flag = m.etp_flag;
  etp_leverage_factor = of_le-store32 m.etp_leverage_factor r.etp_leverage_factor i;
  inverse_indicator = m.inverse_indicator;
}
