-- ===== src/Parser/ToHost/BigEndian.antt =====
-- The bytes of a converted struct are its wire format: ToHost also turns host order into big-endian.
use market_data_parser.Common.{◌≡◌, [], ◌∷◌, ◌++◌}
use market_data_parser.Common.Chars.{chars_bytes}
use market_data_parser.Wire.Scalars.{store16-ntoh16, store32-ntoh32, store64-ntoh64}
use market_data_parser.Wire.Object
use market_data_parser.Wire.Format
use market_data_parser.Parser.ToHost
use market_data_parser.Wire.Messages.{
  MessageHeader, AddOrderMessage, ExecuteOrderMessage, ExecuteOrderWithPriceMessage,
  OrderCancelMessage, OrderDeleteMessage, OrderReplaceMessage, TradeMessage, SystemEventMessage,
  StockDirectoryMessage,
}

pub header : (m : MessageHeader) → Object.header (ToHost.header m) ≡ Format.header m
unfolding ToHost.header Object.header Format.header
header m = λ i.
    (m.message_type ∷ [])
    ++ store16-ntoh16 m.stock_locate i
    ++ store16-ntoh16 m.tracking_number i
    ++ store64-ntoh64 m.timestamp i

pub add_order : (m : AddOrderMessage) → Object.add_order (ToHost.add_order m) ≡ Format.add_order m
unfolding ToHost.add_order Object.add_order Format.add_order
add_order m = λ i.
    header m.header i
    ++ store64-ntoh64 m.order_reference_number i
    ++ (m.buy_sell_indicator ∷ [])
    ++ store32-ntoh32 m.shares i
    ++ chars_bytes 8 m.stock
    ++ store32-ntoh32 m.price i

pub execute_order :
    (m : ExecuteOrderMessage)
    → Object.execute_order (ToHost.execute_order m) ≡ Format.execute_order m
unfolding ToHost.execute_order Object.execute_order Format.execute_order
execute_order m = λ i.
    header m.header i
    ++ store64-ntoh64 m.order_reference_number i
    ++ store32-ntoh32 m.executed_shares i
    ++ store64-ntoh64 m.match_number i

pub execute_with_price :
    (m : ExecuteOrderWithPriceMessage)
    → Object.execute_with_price (ToHost.execute_with_price m) ≡ Format.execute_with_price m
unfolding ToHost.execute_with_price Object.execute_with_price Format.execute_with_price
execute_with_price m = λ i.
    header m.header i
    ++ store64-ntoh64 m.order_reference_number i
    ++ store32-ntoh32 m.executed_shares i
    ++ store64-ntoh64 m.match_number i
    ++ (m.printable ∷ [])
    ++ store32-ntoh32 m.execution_price i

pub order_cancel :
    (m : OrderCancelMessage) → Object.order_cancel (ToHost.order_cancel m) ≡ Format.order_cancel m
unfolding ToHost.order_cancel Object.order_cancel Format.order_cancel
order_cancel m = λ i.
    header m.header i
    ++ store64-ntoh64 m.order_reference_number i
    ++ store32-ntoh32 m.cancelled_shares i

pub order_delete :
    (m : OrderDeleteMessage) → Object.order_delete (ToHost.order_delete m) ≡ Format.order_delete m
unfolding ToHost.order_delete Object.order_delete Format.order_delete
order_delete m = λ i. header m.header i ++ store64-ntoh64 m.order_reference_number i

pub order_replace :
    (m : OrderReplaceMessage)
    → Object.order_replace (ToHost.order_replace m) ≡ Format.order_replace m
unfolding ToHost.order_replace Object.order_replace Format.order_replace
order_replace m = λ i.
    header m.header i
    ++ store64-ntoh64 m.original_order_reference_number i
    ++ store64-ntoh64 m.new_order_reference_number i
    ++ store32-ntoh32 m.shares i
    ++ store32-ntoh32 m.price i

pub trade : (m : TradeMessage) → Object.trade (ToHost.trade m) ≡ Format.trade m
unfolding ToHost.trade Object.trade Format.trade
trade m = λ i.
    header m.header i
    ++ store64-ntoh64 m.order_reference_number i
    ++ (m.buy_sell_indicator ∷ [])
    ++ store32-ntoh32 m.shares i
    ++ chars_bytes 8 m.stock
    ++ store32-ntoh32 m.price i
    ++ store64-ntoh64 m.match_number i

pub system_event :
    (m : SystemEventMessage) → Object.system_event (ToHost.system_event m) ≡ Format.system_event m
unfolding ToHost.system_event Object.system_event Format.system_event
system_event m = λ i. header m.header i ++ (m.event_code ∷ [])

pub stock_directory :
    (m : StockDirectoryMessage)
    → Object.stock_directory (ToHost.stock_directory m) ≡ Format.stock_directory m
unfolding ToHost.stock_directory Object.stock_directory Format.stock_directory
stock_directory m = λ i.
    header m.header i
    ++ chars_bytes 8 m.stock
    ++ (m.market_category ∷ [])
    ++ (m.financial_status_indicator ∷ [])
    ++ store32-ntoh32 m.round_lot_size i
    ++ (m.round_lots_only ∷ [])
    ++ (m.issue_classification ∷ [])
    ++ chars_bytes 2 m.issue_sub_type
    ++ (m.authenticity ∷ [])
    ++ (m.short_sale_threshold_indicator ∷ [])
    ++ (m.ipo_flag ∷ [])
    ++ (m.luld_reference_price_tier ∷ [])
    ++ (m.etp_flag ∷ [])
    ++ store32-ntoh32 m.etp_leverage_factor i
    ++ (m.inverse_indicator ∷ [])
