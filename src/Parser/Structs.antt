-- ===== src/Parser/Structs.antt =====
-- The nine message structs of include/itch_protocol.hpp as instances of the interface Struct.
use market_data_parser.Wire.SizeOf
use market_data_parser.Wire.Range
use market_data_parser.Wire.Overlay
use market_data_parser.Wire.Object
use market_data_parser.Wire.Format
use market_data_parser.Wire.OverlayObject
use market_data_parser.Wire.ObjectOverlay
use market_data_parser.Wire.OverlayRange
use market_data_parser.Wire.OverlayBytes
use market_data_parser.Parser.ToHost
use market_data_parser.Parser.ToHost.Involution
use market_data_parser.Parser.ToHost.InRange
use market_data_parser.Parser.ToHost.BigEndian
use market_data_parser.Parser.Struct.{Struct}
use market_data_parser.Wire.Messages.{
  AddOrderMessage, ExecuteOrderMessage, ExecuteOrderWithPriceMessage, OrderCancelMessage,
  OrderDeleteMessage, OrderReplaceMessage, TradeMessage, SystemEventMessage, StockDirectoryMessage,
}

abbrev pub add_order : Struct
add_order = record {
  Value = AddOrderMessage;
  width = SizeOf.add_order;
  IsInRange = Range.AddOrder;
  overlay = Overlay.add_order;
  object = Object.add_order;
  format = Format.add_order;
  to_host = ToHost.add_order;
  overlay-object = OverlayObject.add_order;
  object-overlay = ObjectOverlay.add_order;
  overlay-IsInRange = OverlayRange.add_order;
  overlay-bytes = OverlayBytes.add_order;
  to_host-to_host = Involution.add_order;
  to_host-IsInRange = InRange.add_order;
  object-to_host = BigEndian.add_order;
}

abbrev pub execute_order : Struct
execute_order = record {
  Value = ExecuteOrderMessage;
  width = SizeOf.execute_order;
  IsInRange = Range.ExecuteOrder;
  overlay = Overlay.execute_order;
  object = Object.execute_order;
  format = Format.execute_order;
  to_host = ToHost.execute_order;
  overlay-object = OverlayObject.execute_order;
  object-overlay = ObjectOverlay.execute_order;
  overlay-IsInRange = OverlayRange.execute_order;
  overlay-bytes = OverlayBytes.execute_order;
  to_host-to_host = Involution.execute_order;
  to_host-IsInRange = InRange.execute_order;
  object-to_host = BigEndian.execute_order;
}

abbrev pub execute_with_price : Struct
execute_with_price = record {
  Value = ExecuteOrderWithPriceMessage;
  width = SizeOf.execute_with_price;
  IsInRange = Range.ExecuteOrderWithPrice;
  overlay = Overlay.execute_with_price;
  object = Object.execute_with_price;
  format = Format.execute_with_price;
  to_host = ToHost.execute_with_price;
  overlay-object = OverlayObject.execute_with_price;
  object-overlay = ObjectOverlay.execute_with_price;
  overlay-IsInRange = OverlayRange.execute_with_price;
  overlay-bytes = OverlayBytes.execute_with_price;
  to_host-to_host = Involution.execute_with_price;
  to_host-IsInRange = InRange.execute_with_price;
  object-to_host = BigEndian.execute_with_price;
}

abbrev pub order_cancel : Struct
order_cancel = record {
  Value = OrderCancelMessage;
  width = SizeOf.order_cancel;
  IsInRange = Range.OrderCancel;
  overlay = Overlay.order_cancel;
  object = Object.order_cancel;
  format = Format.order_cancel;
  to_host = ToHost.order_cancel;
  overlay-object = OverlayObject.order_cancel;
  object-overlay = ObjectOverlay.order_cancel;
  overlay-IsInRange = OverlayRange.order_cancel;
  overlay-bytes = OverlayBytes.order_cancel;
  to_host-to_host = Involution.order_cancel;
  to_host-IsInRange = InRange.order_cancel;
  object-to_host = BigEndian.order_cancel;
}

abbrev pub order_delete : Struct
order_delete = record {
  Value = OrderDeleteMessage;
  width = SizeOf.order_delete;
  IsInRange = Range.OrderDelete;
  overlay = Overlay.order_delete;
  object = Object.order_delete;
  format = Format.order_delete;
  to_host = ToHost.order_delete;
  overlay-object = OverlayObject.order_delete;
  object-overlay = ObjectOverlay.order_delete;
  overlay-IsInRange = OverlayRange.order_delete;
  overlay-bytes = OverlayBytes.order_delete;
  to_host-to_host = Involution.order_delete;
  to_host-IsInRange = InRange.order_delete;
  object-to_host = BigEndian.order_delete;
}

abbrev pub order_replace : Struct
order_replace = record {
  Value = OrderReplaceMessage;
  width = SizeOf.order_replace;
  IsInRange = Range.OrderReplace;
  overlay = Overlay.order_replace;
  object = Object.order_replace;
  format = Format.order_replace;
  to_host = ToHost.order_replace;
  overlay-object = OverlayObject.order_replace;
  object-overlay = ObjectOverlay.order_replace;
  overlay-IsInRange = OverlayRange.order_replace;
  overlay-bytes = OverlayBytes.order_replace;
  to_host-to_host = Involution.order_replace;
  to_host-IsInRange = InRange.order_replace;
  object-to_host = BigEndian.order_replace;
}

abbrev pub trade : Struct
trade = record {
  Value = TradeMessage;
  width = SizeOf.trade;
  IsInRange = Range.Trade;
  overlay = Overlay.trade;
  object = Object.trade;
  format = Format.trade;
  to_host = ToHost.trade;
  overlay-object = OverlayObject.trade;
  object-overlay = ObjectOverlay.trade;
  overlay-IsInRange = OverlayRange.trade;
  overlay-bytes = OverlayBytes.trade;
  to_host-to_host = Involution.trade;
  to_host-IsInRange = InRange.trade;
  object-to_host = BigEndian.trade;
}

abbrev pub system_event : Struct
system_event = record {
  Value = SystemEventMessage;
  width = SizeOf.system_event;
  IsInRange = Range.SystemEvent;
  overlay = Overlay.system_event;
  object = Object.system_event;
  format = Format.system_event;
  to_host = ToHost.system_event;
  overlay-object = OverlayObject.system_event;
  object-overlay = ObjectOverlay.system_event;
  overlay-IsInRange = OverlayRange.system_event;
  overlay-bytes = OverlayBytes.system_event;
  to_host-to_host = Involution.system_event;
  to_host-IsInRange = InRange.system_event;
  object-to_host = BigEndian.system_event;
}

abbrev pub stock_directory : Struct
stock_directory = record {
  Value = StockDirectoryMessage;
  width = SizeOf.stock_directory;
  IsInRange = Range.StockDirectory;
  overlay = Overlay.stock_directory;
  object = Object.stock_directory;
  format = Format.stock_directory;
  to_host = ToHost.stock_directory;
  overlay-object = OverlayObject.stock_directory;
  object-overlay = ObjectOverlay.stock_directory;
  overlay-IsInRange = OverlayRange.stock_directory;
  overlay-bytes = OverlayBytes.stock_directory;
  to_host-to_host = Involution.stock_directory;
  to_host-IsInRange = InRange.stock_directory;
  object-to_host = BigEndian.stock_directory;
}
