-- ===== src/Wire/Format.antt =====
-- The wire format that include/itch_protocol.hpp describes: the fields of each struct in their order with no
-- padding, every number big-endian. This is the specification that the parser is held to.
use market_data_parser.Common.{ℕ, List, [], ◌∷◌, ◌++◌}
use market_data_parser.Common.Bytes.{to_be}
use market_data_parser.Common.Chars.{chars_bytes}
use market_data_parser.Wire.Messages.{
  MessageHeader, AddOrderMessage, ExecuteOrderMessage, ExecuteOrderWithPriceMessage,
  OrderCancelMessage, OrderDeleteMessage, OrderReplaceMessage, TradeMessage, SystemEventMessage,
  StockDirectoryMessage,
}

unfoldable pub header : MessageHeader → List ℕ
header m =
    (m.message_type ∷ [])
    ++ to_be 2 m.stock_locate
    ++ to_be 2 m.tracking_number
    ++ to_be 8 m.timestamp

unfoldable pub add_order : AddOrderMessage → List ℕ
unfolding header
add_order m =
    header m.header
    ++ to_be 8 m.order_reference_number
    ++ (m.buy_sell_indicator ∷ [])
    ++ to_be 4 m.shares
    ++ chars_bytes 8 m.stock
    ++ to_be 4 m.price

unfoldable pub execute_order : ExecuteOrderMessage → List ℕ
unfolding header
execute_order m =
    header m.header
    ++ to_be 8 m.order_reference_number
    ++ to_be 4 m.executed_shares
    ++ to_be 8 m.match_number

unfoldable pub execute_with_price : ExecuteOrderWithPriceMessage → List ℕ
unfolding header
execute_with_price m =
    header m.header
    ++ to_be 8 m.order_reference_number
    ++ to_be 4 m.executed_shares
    ++ to_be 8 m.match_number
    ++ (m.printable ∷ [])
    ++ to_be 4 m.execution_price

unfoldable pub order_cancel : OrderCancelMessage → List ℕ
unfolding header
order_cancel m = header m.header ++ to_be 8 m.order_reference_number ++ to_be 4 m.cancelled_shares

unfoldable pub order_delete : OrderDeleteMessage → List ℕ
unfolding header
order_delete m = header m.header ++ to_be 8 m.order_reference_number

unfoldable pub order_replace : OrderReplaceMessage → List ℕ
unfolding header
order_replace m =
    header m.header
    ++ to_be 8 m.original_order_reference_number
    ++ to_be 8 m.new_order_reference_number
    ++ to_be 4 m.shares
    ++ to_be 4 m.price

unfoldable pub trade : TradeMessage → List ℕ
unfolding header
trade m =
    header m.header
    ++ to_be 8 m.order_reference_number
    ++ (m.buy_sell_indicator ∷ [])
    ++ to_be 4 m.shares
    ++ chars_bytes 8 m.stock
    ++ to_be 4 m.price
    ++ to_be 8 m.match_number

unfoldable pub system_event : SystemEventMessage → List ℕ
unfolding header
system_event m = header m.header ++ (m.event_code ∷ [])

unfoldable pub stock_directory : StockDirectoryMessage → List ℕ
unfolding header
stock_directory m =
    header m.header
    ++ chars_bytes 8 m.stock
    ++ (m.market_category ∷ [])
    ++ (m.financial_status_indicator ∷ [])
    ++ to_be 4 m.round_lot_size
    ++ (m.round_lots_only ∷ [])
    ++ (m.issue_classification ∷ [])
    ++ chars_bytes 2 m.issue_sub_type
    ++ (m.authenticity ∷ [])
    ++ (m.short_sale_threshold_indicator ∷ [])
    ++ (m.ipo_flag ∷ [])
    ++ (m.luld_reference_price_tier ∷ [])
    ++ (m.etp_flag ∷ [])
    ++ to_be 4 m.etp_leverage_factor
    ++ (m.inverse_indicator ∷ [])
