-- ===== src/Wire/Overlay.antt =====
-- A struct of include/itch_protocol.hpp laid over raw bytes, as `reinterpret_cast<const T*>(data)` reads
-- it: each field at its packed offset, in host byte order.
use market_data_parser.Common.Bytes.{Pointer}
use market_data_parser.Common.Chars.{load_chars}
use market_data_parser.Wire.Scalars.{load16, load32, load64}
use market_data_parser.Wire.Messages.{
  MessageHeader, AddOrderMessage, ExecuteOrderMessage, ExecuteOrderWithPriceMessage,
  OrderCancelMessage, OrderDeleteMessage, OrderReplaceMessage, TradeMessage, SystemEventMessage,
  StockDirectoryMessage,
}

unfoldable pub header : Pointer → MessageHeader
header p = record {
  message_type = p 0;
  stock_locate = load16 p 1;
  tracking_number = load16 p 3;
  timestamp = load64 p 5;
}

unfoldable pub add_order : Pointer → AddOrderMessage
unfolding header
add_order p = record {
  header = header p;
  order_reference_number = load64 p 13;
  buy_sell_indicator = p 21;
  shares = load32 p 22;
  stock = load_chars 8 p 26;
  price = load32 p 34;
}

unfoldable pub execute_order : Pointer → ExecuteOrderMessage
unfolding header
execute_order p = record {
  header = header p;
  order_reference_number = load64 p 13;
  executed_shares = load32 p 21;
  match_number = load64 p 25;
}

unfoldable pub execute_with_price : Pointer → ExecuteOrderWithPriceMessage
unfolding header
execute_with_price p = record {
  header = header p;
  order_reference_number = load64 p 13;
  executed_shares = load32 p 21;
  match_number = load64 p 25;
  printable = p 33;
  execution_price = load32 p 34;
}

unfoldable pub order_cancel : Pointer → OrderCancelMessage
unfolding header
order_cancel p = record {
  header = header p;
  order_reference_number = load64 p 13;
  cancelled_shares = load32 p 21;
}

unfoldable pub order_delete : Pointer → OrderDeleteMessage
unfolding header
order_delete p = record { header = header p; order_reference_number = load64 p 13 }

unfoldable pub order_replace : Pointer → OrderReplaceMessage
unfolding header
order_replace p = record {
  header = header p;
  original_order_reference_number = load64 p 13;
  new_order_reference_number = load64 p 21;
  shares = load32 p 29;
  price = load32 p 33;
}

unfoldable pub trade : Pointer → TradeMessage
unfolding header
trade p = record {
  header = header p;
  order_reference_number = load64 p 13;
  buy_sell_indicator = p 21;
  shares = load32 p 22;
  stock = load_chars 8 p 26;
  price = load32 p 34;
  match_number = load64 p 38;
}

unfoldable pub system_event : Pointer → SystemEventMessage
unfolding header
system_event p = record { header = header p; event_code = p 13 }

unfoldable pub stock_directory : Pointer → StockDirectoryMessage
unfolding header
stock_directory p = record {
  header = header p;
  stock = load_chars 8 p 13;
  market_category = p 21;
  financial_status_indicator = p 22;
  round_lot_size = load32 p 23;
  round_lots_only = p 27;
  issue_classification = p 28;
  issue_sub_type = load_chars 2 p 29;
  authenticity = p 31;
  short_sale_threshold_indicator = p 32;
  ipo_flag = p 33;
  luld_reference_price_tier = p 34;
  etp_flag = p 35;
  etp_leverage_factor = load32 p 36;
  inverse_indicator = p 40;
}
