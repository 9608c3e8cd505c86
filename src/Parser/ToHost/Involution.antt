-- ===== src/Parser/ToHost/Involution.antt =====
-- Converting the byte order twice gives the struct back.
use market_data_parser.Common.{◌≡◌}
use market_data_parser.Wire.Scalars.{ntoh16-ntoh16, ntoh32-ntoh32, ntoh64-ntoh64}
use market_data_parser.Wire.Range
use market_data_parser.Parser.ToHost
use market_data_parser.Wire.Messages.{
  MessageHeader, AddOrderMessage, ExecuteOrderMessage, ExecuteOrderWithPriceMessage,
  OrderCancelMessage, OrderDeleteMessage, OrderReplaceMessage, TradeMessage, SystemEventMessage,
  StockDirectoryMessage,
}

pub header : (m : MessageHeader) → Range.Header m → ToHost.header (ToHost.header m) ≡ m
unfolding ToHost.header
header m r = λ i. record {
  message_type = m.message_type;
  stock_locate = ntoh16-ntoh16 m.stock_locate r.stock_locate i;
  tracking_number = ntoh16-ntoh16 m.tracking_number r.tracking_number i;
  timestamp = ntoh64-ntoh64 m.timestamp r.timestamp i;
}

pub add_order : (m : AddOrderMessage) → Range.AddOrder m → ToHost.add_order (ToHost.add_order m) ≡ m
unfolding ToHost.add_order
add_order m r = λ i. record {
  header = header m.header r.header i;
  order_reference_number = ntoh64-ntoh64 m.order_reference_number r.order_reference_number i;
  buy_sell_indicator = m.buy_sell_indicator;
  shares = ntoh32-ntoh32 m.shares r.shares i;
  stock = m.stock;
  price = ntoh32-ntoh32 m.price r.price i;
}

pub execute_order :
    (m : ExecuteOrderMessage)
    → Range.ExecuteOrder m
    → ToHost.execute_order (ToHost.execute_order m) ≡ m
unfolding ToHost.execute_order
execute_order m r = λ i. record {
  header = header m.header r.header i;
  order_reference_number = ntoh64-ntoh64 m.order_reference_number r.order_reference_number i;
  executed_shares = ntoh32-ntoh32 m.executed_shares r.executed_shares i;
  match_number = ntoh64-ntoh64 m.match_number r.match_number i;
}

pub execute_with_price :
    (m : ExecuteOrderWithPriceMessage)
    → Range.ExecuteOrderWithPrice m
    → ToHost.execute_with_price (ToHost.execute_with_price m) ≡ m
unfolding ToHost.execute_with_price
execute_with_price m r = λ i. record {
  header = header m.header r.header i;
  order_reference_number = ntoh64-ntoh64 m.order_reference_number r.order_reference_number i;
  executed_shares = ntoh32-ntoh32 m.executed_shares r.executed_shares i;
  match_number = ntoh64-ntoh64 m.match_number r.match_number i;
  printable = m.printable;
  execution_price = ntoh32-ntoh32 m.execution_price r.execution_price i;
}

pub order_cancel :
    (m : OrderCancelMessage) → Range.OrderCancel m → ToHost.order_cancel (ToHost.order_cancel m) ≡ m
unfolding ToHost.order_cancel
order_cancel m r = λ i. record {
  header = header m.header r.header i;
  order_reference_number = ntoh64-ntoh64 m.order_reference_number r.order_reference_number i;
  cancelled_shares = ntoh32-ntoh32 m.cancelled_shares r.cancelled_shares i;
}

pub order_delete :
    (m : OrderDeleteMessage) → Range.OrderDelete m → ToHost.order_delete (ToHost.order_delete m) ≡ m
unfolding ToHost.order_delete
order_delete m r = λ i. record {
  header = header m.header r.header i;
  order_reference_number = ntoh64-ntoh64 m.order_reference_number r.order_reference_number i;
}

pub order_replace :
    (m : OrderReplaceMessage)
    → Range.OrderReplace m
    → ToHost.order_replace (ToHost.order_replace m) ≡ m
unfolding ToHost.order_replace
order_replace m r = λ i. record {
  header = header m.header r.header i;
  original_order_reference_number =
      ntoh64-ntoh64 m.original_order_reference_number r.original_order_reference_number i;
  new_order_reference_number =
      ntoh64-ntoh64 m.new_order_reference_number r.new_order_reference_number i;
  shares = ntoh32-ntoh32 m.shares r.shares i;
  price = ntoh32-ntoh32 m.price r.price i;
}

pub trade : (m : TradeMessage) → Range.Trade m → ToHost.trade (ToHost.trade m) ≡ m
unfolding ToHost.trade
trade m r = λ i. record {
  header = header m.header r.header i;
  order_reference_number = ntoh64-ntoh64 m.order_reference_number r.order_reference_number i;
  buy_sell_indicator = m.buy_sell_indicator;
  shares = ntoh32-ntoh32 m.shares r.shares i;
  stock = m.stock;
  price = ntoh32-ntoh32 m.price r.price i;
  match_number = ntoh64-ntoh64 m.match_number r.match_number i;
}

pub system_event :
    (m : SystemEventMessage) → Range.SystemEvent m → ToHost.system_event (ToHost.system_event m) ≡ m
unfolding ToHost.system_event
system_event m r = λ i. record { header = header m.header r.header i; event_code = m.event_code }

pub stock_directory :
    (m : StockDirectoryMessage)
    → Range.StockDirectory m
    → ToHost.stock_directory (ToHost.stock_directory m) ≡ m
unfolding ToHost.stock_directory
stock_directory m r = λ i. record {
  header = header m.header r.header i;
  stock = m.stock;
  market_category = m.market_category;
  financial_status_indicator = m.financial_status_indicator;
  round_lot_size = ntoh32-ntoh32 m.round_lot_size r.round_lot_size i;
  round_lots_only = m.round_lots_only;
  issue_classification = m.issue_classification;
  issue_sub_type = m.issue_sub_type;
  authenticity = m.authenticity;
  short_sale_threshold_indicator = m.short_sale_threshold_indicator;
  ipo_flag = m.ipo_flag;
  luld_reference_price_tier = m.luld_reference_price_tier;
  etp_flag = m.etp_flag;
  etp_leverage_factor = ntoh32-ntoh32 m.etp_leverage_factor r.etp_leverage_factor i;
  inverse_indicator = m.inverse_indicator;
}
