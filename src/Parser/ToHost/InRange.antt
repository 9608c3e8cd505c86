-- ===== src/Parser/ToHost/InRange.antt =====
-- A converted struct holds values in range.
use market_data_parser.Wire.Scalars.{ntoh16-IsU16, ntoh32-IsU32, ntoh64-IsU64}
use market_data_parser.Wire.Range
use market_data_parser.Parser.ToHost
use market_data_parser.Wire.Messages.{
  MessageHeader, AddOrderMessage, ExecuteOrderMessage, ExecuteOrderWithPriceMessage,
  OrderCancelMessage, OrderDeleteMessage, OrderReplaceMessage, TradeMessage, SystemEventMessage,
  StockDirectoryMessage,
}

pub header : (m : MessageHeader) → Range.Header m → Range.Header (ToHost.header m)
unfolding ToHost.header
header m r = record {
  message_type = r.message_type;
  stock_locate = ntoh16-IsU16 m.stock_locate;
  tracking_number = ntoh16-IsU16 m.tracking_number;
  timestamp = ntoh64-IsU64 m.timestamp;
}

pub add_order : (m : AddOrderMessage) → Range.AddOrder m → Range.AddOrder (ToHost.add_order m)
unfolding ToHost.add_order
add_order m r = record {
  header = header m.header r.header;
  order_reference_number = ntoh64-IsU64 m.order_reference_number;
  buy_sell_indicator = r.buy_sell_indicator;
  shares = ntoh32-IsU32 m.shares;
  stock = r.stock;
  price = ntoh32-IsU32 m.price;
}

pub execute_order :
    (m : ExecuteOrderMessage) → Range.ExecuteOrder m → Range.ExecuteOrder (ToHost.execute_order m)
unfolding ToHost.execute_order
execute_order m r = record {
  header = header m.header r.header;
  order_reference_number = ntoh64-IsU64 m.order_reference_number;
  executed_shares = ntoh32-IsU32 m.executed_shares;
  match_number = ntoh64-IsU64 m.match_number;
}

pub execute_with_price :
    (m : ExecuteOrderWithPriceMessage)
    → Range.ExecuteOrderWithPrice m
    → Range.ExecuteOrderWithPrice (ToHost.execute_with_price m)
unfolding ToHost.execute_with_price
execute_with_price m r = record {
  header = header m.header r.header;
  order_reference_number = ntoh64-IsU64 m.order_reference_number;
  executed_shares = ntoh32-IsU32 m.executed_shares;
  match_number = ntoh64-IsU64 m.match_number;
  printable = r.printable;
  execution_price = ntoh32-IsU32 m.execution_price;
}

pub order_cancel :
    (m : OrderCancelMessage) → Range.OrderCancel m → Range.OrderCancel (ToHost.order_cancel m)
unfolding ToHost.order_cancel
order_cancel m r = record {
  header = header m.header r.header;
  order_reference_number = ntoh64-IsU64 m.order_reference_number;
  cancelled_shares = ntoh32-IsU32 m.cancelled_shares;
}

pub order_delete :
    (m : OrderDeleteMessage) → Range.OrderDelete m → Range.OrderDelete (ToHost.order_delete m)
unfolding ToHost.order_delete
order_delete m r = record {
  header = header m.header r.header;
  order_reference_number = ntoh64-IsU64 m.order_reference_number;
}

pub order_replace :
    (m : OrderReplaceMessage) → Range.OrderReplace m → Range.OrderReplace (ToHost.order_replace m)
unfolding ToHost.order_replace
order_replace m r = record {
  header = header m.header r.header;
  original_order_reference_number = ntoh64-IsU64 m.original_order_reference_number;
  new_order_reference_number = ntoh64-IsU64 m.new_order_reference_number;
  shares = ntoh32-IsU32 m.shares;
  price = ntoh32-IsU32 m.price;
}

pub trade : (m : TradeMessage) → Range.Trade m → Range.Trade (ToHost.trade m)
unfolding ToHost.trade
trade m r = record {
  header = header m.header r.header;
  order_reference_number = ntoh64-IsU64 m.order_reference_number;
  buy_sell_indicator = r.buy_sell_indicator;
  shares = ntoh32-IsU32 m.shares;
  stock = r.stock;
  price = ntoh32-IsU32 m.price;
  match_number = ntoh64-IsU64 m.match_number;
}

pub system_event :
    (m : SystemEventMessage) → Range.SystemEvent m → Range.SystemEvent (ToHost.system_event m)
unfolding ToHost.system_event
system_event m r = record { header = header m.header r.header; event_code = r.event_code }

pub stock_directory :
    (m : StockDirectoryMessage)
    → Range.StockDirectory m
    → Range.StockDirectory (ToHost.stock_directory m)
unfolding ToHost.stock_directory
stock_directory m r = record {
  header = header m.header r.header;
  stock = r.stock;
  market_category = r.market_category;
  financial_status_indicator = r.financial_status_indicator;
  round_lot_size = ntoh32-IsU32 m.round_lot_size;
  round_lots_only = r.round_lots_only;
  issue_classification = r.issue_classification;
  issue_sub_type = r.issue_sub_type;
  authenticity = r.authenticity;
  short_sale_threshold_indicator = r.short_sale_threshold_indicator;
  ipo_flag = r.ipo_flag;
  luld_reference_price_tier = r.luld_reference_price_tier;
  etp_flag = r.etp_flag;
  etp_leverage_factor = ntoh32-IsU32 m.etp_leverage_factor;
  inverse_indicator = r.inverse_indicator;
}
