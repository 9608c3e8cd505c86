-- ===== src/Wire/Object.antt =====
-- The bytes of a struct of include/itch_protocol.hpp in memory, as `std::memcpy` from `&msg` copies them.
use market_data_parser.Common.{ℕ, List, [], ◌∷◌, ◌++◌}
use market_data_parser.Common.Chars.{chars_bytes}
use market_data_parser.Wire.Scalars.{store16, store32, store64}
use market_data_parser.Wire.Messages.{
  MessageHeader, AddOrderMessage, ExecuteOrderMessage, ExecuteOrderWithPriceMessage,
  OrderCancelMessage, OrderDeleteMessage, OrderReplaceMessage, TradeMessage, SystemEventMessage,
  StockDirectoryMessage,
}

unfoldable pub header : MessageHeader → List ℕ
header m =
    (m.message_type ∷ [])
    ++ store16 m.stock_locate
    ++ store16 m.tracking_number
    ++ store64 m.timestamp

unfoldable pub add_order : AddOrderMessage → List ℕ
unfolding header
add_order m =
    header m.header
    ++ store64 m.order_reference_number
    ++ (m.buy_sell_indicator ∷ [])
    ++ store32 m.shares
    ++ chars_bytes 8 m.stock
    ++ store32 m.price

unfoldable pub execute_order : ExecuteOrderMessage → List ℕ
unfolding header
execute_order m =
    header m.header
    ++ store64 m.order_reference_number
    ++ store32 m.executed_shares
    ++ store64 m.match_number

unfoldable pub execute_with_price : ExecuteOrderWithPriceMessage → List ℕ
unfolding header
execute_with_price m =
    header m.header
    ++ store64 m.order_reference_number
    ++ store32 m.executed_shares
    ++ store64 m.match_number
    ++ (m.printable ∷ [])
    ++ store32 m.execution_price

unfoldable pub order_cancel : OrderCancelMessage → List ℕ
unfolding header
order_cancel m = header m.header ++ store64 m.order_reference_number ++ store32 m.cancelled_shares

unfoldable pub order_delete : OrderDeleteMessage → List ℕ
unfolding header
order_delete m = header m.header ++ store64 m.order_reference_number

unfoldable pub order_replace : OrderReplaceMessage → List ℕ
unfolding header
order_replace m =
    header m.header
    ++ store64 m.original_order_reference_number
    ++ store64 m.new_order_reference_number
    ++ store32 m.shares
    ++ store32 m.price

unfoldable pub trade : TradeMessage → List ℕ
unfolding header
trade m =
    header m.header
    ++ store64 m.order_reference_number
    ++ (m.buy_sell_indicator ∷ [])
    ++ store32 m.shares
    ++ chars_bytes 8 m.stock
    ++ store32 m.price
    ++ store64 m.match_number

unfoldable pub system_event : SystemEventMessage → List ℕ
unfolding header
system_event m = header m.header ++ (m.event_code ∷ [])

unfoldable pub stock_directory : StockDirectoryMessage → List ℕ
unfolding header
stock_directory m =
    header m.header
    ++ chars_bytes 8 m.stock
    ++ (m.market_category ∷ [])
    ++ (m.financial_status_indicator ∷ [])
    ++ store32 m.round_lot_size
    ++ (m.round_lots_only ∷ [])
    ++ (m.issue_classification ∷ [])
    ++ chars_bytes 2 m.issue_sub_type
    ++ (m.authenticity ∷ [])
    ++ (m.short_sale_threshold_indicator ∷ [])
    ++ (m.ipo_flag ∷ [])
    ++ (m.luld_reference_price_tier ∷ [])
    ++ (m.etp_flag ∷ [])
    ++ store32 m.etp_leverage_factor
    ++ (m.inverse_indicator ∷ [])
