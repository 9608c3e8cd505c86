-- ===== src/Wire/OverlayRange.antt =====
-- A struct laid over bytes holds values in range.
use market_data_parser.Common.Bytes.{Pointer, IsMemory}
use market_data_parser.Common.Chars.{load_chars-IsChars}
use market_data_parser.Wire.Scalars.{load16-IsU16, load32-IsU32, load64-IsU64}
use market_data_parser.Wire.Range
use market_data_parser.Wire.Overlay

pub header : (p : Pointer) → IsMemory p → Range.Header (Overlay.header p)
unfolding Overlay.header
header p h = record {
  message_type = h 0;
  stock_locate = load16-IsU16 p 1 h;
  tracking_number = load16-IsU16 p 3 h;
  timestamp = load64-IsU64 p 5 h;
}

pub add_order : (p : Pointer) → IsMemory p → Range.AddOrder (Overlay.add_order p)
unfolding Overlay.add_order
add_order p h = record {
  header = header p h;
  order_reference_number = load64-IsU64 p 13 h;
  buy_sell_indicator = h 21;
  shares = load32-IsU32 p 22 h;
  stock = load_chars-IsChars 8 p 26 h;
  price = load32-IsU32 p 34 h;
}

pub execute_order : (p : Pointer) → IsMemory p → Range.ExecuteOrder (Overlay.execute_order p)
unfolding Overlay.execute_order
execute_order p h = record {
  header = header p h;
  order_reference_number = load64-IsU64 p 13 h;
  executed_shares = load32-IsU32 p 21 h;
  match_number = load64-IsU64 p 25 h;
}

pub execute_with_price :
    (p : Pointer) → IsMemory p → Range.ExecuteOrderWithPrice (Overlay.execute_with_price p)
unfolding Overlay.execute_with_price
execute_with_price p h = record {
  header = header p h;
  order_reference_number = load64-IsU64 p 13 h;
  executed_shares = load32-IsU32 p 21 h;
  match_number = load64-IsU64 p 25 h;
  printable = h 33;
  execution_price = load32-IsU32 p 34 h;
}

pub order_cancel : (p : Pointer) → IsMemory p → Range.OrderCancel (Overlay.order_cancel p)
unfolding Overlay.order_cancel
order_cancel p h = record {
  header = header p h;
  order_reference_number = load64-IsU64 p 13 h;
  cancelled_shares = load32-IsU32 p 21 h;
}

pub order_delete : (p : Pointer) → IsMemory p → Range.OrderDelete (Overlay.order_delete p)
unfolding Overlay.order_delete
order_delete p h = record { header = header p h; order_reference_number = load64-IsU64 p 13 h }

pub order_replace : (p : Pointer) → IsMemory p → Range.OrderReplace (Overlay.order_replace p)
unfolding Overlay.order_replace
order_replace p h = record {
  header = header p h;
  original_order_reference_number = load64-IsU64 p 13 h;
  new_order_reference_number = load64-IsU64 p 21 h;
  shares = load32-IsU32 p 29 h;
  price = load32-IsU32 p 33 h;
}

pub trade : (p : Pointer) → IsMemory p → Range.Trade (Overlay.trade p)
unfolding Overlay.trade
trade p h = record {
  header = header p h;
  order_reference_number = load64-IsU64 p 13 h;
  buy_sell_indicator = h 21;
  shares = load32-IsU32 p 22 h;
  stock = load_chars-IsChars 8 p 26 h;
  price = load32-IsU32 p 34 h;
  match_number = load64-IsU64 p 38 h;
}

pub system_event : (p : Pointer) → IsMemory p → Range.SystemEvent (Overlay.system_event p)
unfolding Overlay.system_event
system_event p h = record { header = header p h; event_code = h 13 }

pub stock_directory : (p : Pointer) → IsMemory p → Range.StockDirectory (Overlay.stock_directory p)
unfolding Overlay.stock_directory
stock_directory p h = record {
  header = header p h;
  stock = load_chars-IsChars 8 p 13 h;
  market_category = h 21;
  financial_status_indicator = h 22;
  round_lot_size = load32-IsU32 p 23 h;
  round_lots_only = h 27;
  issue_classification = h 28;
  issue_sub_type = load_chars-IsChars 2 p 29 h;
  authenticity = h 31;
  short_sale_threshold_indicator = h 32;
  ipo_flag = h 33;
  luld_reference_price_tier = h 34;
  etp_flag = h 35;
  etp_leverage_factor = load32-IsU32 p 36 h;
  inverse_indicator = h 40;
}
