-- ===== src/Parser/ToHost.antt =====
-- The field by field conversions of the `parse_*` members of ITCHParser (include/itch_parser.hpp): each
-- number from big-endian to host byte order, single bytes and char arrays as they are.
pub mod Involution
pub mod InRange
pub mod BigEndian
use market_data_parser.Wire.Scalars.{ntoh16, ntoh32, ntoh64}
use market_data_parser.Wire.Messages.{
  MessageHeader, AddOrderMessage, ExecuteOrderMessage, ExecuteOrderWithPriceMessage,
  OrderCancelMessage, OrderDeleteMessage, OrderReplaceMessage, TradeMessage, SystemEventMessage,
  StockDirectoryMessage,
}

unfoldable pub header : MessageHeader → MessageHeader
header wire_msg = record {
  message_type = wire_msg.message_type;
  stock_locate = ntoh16 wire_msg.stock_locate;
  tracking_number = ntoh16 wire_msg.tracking_number;
  timestamp = ntoh64 wire_msg.timestamp;
}

unfoldable pub add_order : AddOrderMessage → AddOrderMessage
unfolding header
add_order wire_msg = record {
  header = header wire_msg.header;
  order_reference_number = ntoh64 wire_msg.order_reference_number;
  buy_sell_indicator = wire_msg.buy_sell_indicator;
  shares = ntoh32 wire_msg.shares;
  stock = wire_msg.stock;
  price = ntoh32 wire_msg.price;
}

unfoldable pub execute_order : ExecuteOrderMessage → ExecuteOrderMessage
unfolding header
execute_order wire_msg = record {
  header = header wire_msg.header;
  order_reference_number = ntoh64 wire_msg.order_reference_number;
  executed_shares = ntoh32 wire_msg.executed_shares;
  match_number = ntoh64 wire_msg.match_number;
}

unfoldable pub execute_with_price : ExecuteOrderWithPriceMessage → ExecuteOrderWithPriceMessage
unfolding header
execute_with_price wire_msg = record {
  header = header wire_msg.header;
  order_reference_number = ntoh64 wire_msg.order_reference_number;
  executed_shares = ntoh32 wire_msg.executed_shares;
  match_number = ntoh64 wire_msg.match_number;
  printable = wire_msg.printable;
  execution_price = ntoh32 wire_msg.execution_price;
}

unfoldable pub order_cancel : OrderCancelMessage → OrderCancelMessage
unfolding header
order_cancel wire_msg = record {
  header = header wire_msg.header;
  order_reference_number = ntoh64 wire_msg.order_reference_number;
  cancelled_shares = ntoh32 wire_msg.cancelled_shares;
}

unfoldable pub order_delete : OrderDeleteMessage → OrderDeleteMessage
unfolding header
order_delete wire_msg = record {
  header = header wire_msg.header;
  order_reference_number = ntoh64 wire_msg.order_reference_number;
}

unfoldable pub order_replace : OrderReplaceMessage → OrderReplaceMessage
unfolding header
order_replace wire_msg = record {
  header = header wire_msg.header;
  original_order_reference_number = ntoh64 wire_msg.original_order_reference_number;
  new_order_reference_number = ntoh64 wire_msg.new_order_reference_number;
  shares = ntoh32 wire_msg.shares;
  price = ntoh32 wire_msg.price;
}

unfoldable pub trade : TradeMessage → TradeMessage
unfolding header
trade wire_msg = record {
  header = header wire_msg.header;
  order_reference_number = ntoh64 wire_msg.order_reference_number;
  buy_sell_indicator = wire_msg.buy_sell_indicator;
  shares = ntoh32 wire_msg.shares;
  stock = wire_msg.stock;
  price = ntoh32 wire_msg.price;
  match_number = ntoh64 wire_msg.match_number;
}

unfoldable pub system_event : SystemEventMessage → SystemEventMessage
unfolding header
system_event wire_msg = record { header = header wire_msg.header; event_code = wire_msg.event_code }

unfoldable pub stock_directory : StockDirectoryMessage → StockDirectoryMessage
unfolding header
stock_directory wire_msg = record {
  header = header wire_msg.header;
  stock = wire_msg.stock;
  market_category = wire_msg.market_category;
  financial_status_indicator = wire_msg.financial_status_indicator;
  round_lot_size = ntoh32 wire_msg.round_lot_size;
  round_lots_only = wire_msg.round_lots_only;
  issue_classification = wire_msg.issue_classification;
  issue_sub_type = wire_msg.issue_sub_type;
  authenticity = wire_msg.authenticity;
  short_sale_threshold_indicator = wire_msg.short_sale_threshold_indicator;
  ipo_flag = wire_msg.ipo_flag;
  luld_reference_price_tier = wire_msg.luld_reference_price_tier;
  etp_flag = wire_msg.etp_flag;
  etp_leverage_factor = ntoh32 wire_msg.etp_leverage_factor;
  inverse_indicator = wire_msg.inverse_indicator;
}
