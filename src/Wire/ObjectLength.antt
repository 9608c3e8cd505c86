-- ===== src/Wire/ObjectLength.antt =====
-- A struct has as many bytes as `sizeof` says.
use market_data_parser.Common.{◌≡◌, refl, length}
use market_data_parser.Common.Bytes.{to_le}
use market_data_parser.Wire.SizeOf
use market_data_parser.Wire.Object
use market_data_parser.Wire.Messages.{
  AddOrderMessage, ExecuteOrderMessage, ExecuteOrderWithPriceMessage, OrderCancelMessage,
  OrderDeleteMessage, OrderReplaceMessage, TradeMessage, SystemEventMessage, StockDirectoryMessage,
}

pub add_order : (m : AddOrderMessage) → length (Object.add_order m) ≡ SizeOf.add_order
unfolding Object.add_order to_le
add_order m = refl

pub execute_order :
    (m : ExecuteOrderMessage) → length (Object.execute_order m) ≡ SizeOf.execute_order
unfolding Object.execute_order to_le
execute_order m = refl

pub execute_with_price :
    (m : ExecuteOrderWithPriceMessage)
    → length (Object.execute_with_price m) ≡ SizeOf.execute_with_price
unfolding Object.execute_with_price to_le
execute_with_price m = refl

pub order_cancel : (m : OrderCancelMessage) → length (Object.order_cancel m) ≡ SizeOf.order_cancel
unfolding Object.order_cancel to_le
order_cancel m = refl

pub order_delete : (m : OrderDeleteMessage) → length (Object.order_delete m) ≡ SizeOf.order_delete
unfolding Object.order_delete to_le
order_delete m = refl

pub order_replace :
    (m : OrderReplaceMessage) → length (Object.order_replace m) ≡ SizeOf.order_replace
unfolding Object.order_replace to_le
order_replace m = refl

pub trade : (m : TradeMessage) → length (Object.trade m) ≡ SizeOf.trade
unfolding Object.trade to_le
trade m = refl

pub system_event : (m : SystemEventMessage) → length (Object.system_event m) ≡ SizeOf.system_event
unfolding Object.system_event to_le
system_event m = refl

pub stock_directory :
    (m : StockDirectoryMessage) → length (Object.stock_directory m) ≡ SizeOf.stock_directory
unfolding Object.stock_directory to_le
stock_directory m = refl
