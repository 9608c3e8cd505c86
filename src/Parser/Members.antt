-- ===== src/Parser/Members.antt =====
-- What the members of the union of `ParsedMessage` have in common, by the member that is held.
use market_data_parser.Common.{ℕ, List, ◌≡◌, Option, none, some}
use market_data_parser.Wire.MessageType.{MessageType, to_byte}
use market_data_parser.Wire.Messages.{MessageHeader}
use market_data_parser.Wire.Range
use market_data_parser.Wire.SizeOf
use market_data_parser.Wire.Format
use market_data_parser.Parser.{
  Payload, add_order, execute_order, execute_with_price, order_cancel, order_delete, order_replace,
  trade, system_event, stock_directory, ParsedMessage, Tsc, get_timestamp_ns,
}

-- The message type under which the parser fills the member.
abbrev pub type_of : Payload → MessageType
type_of (add_order m) = MessageType.add_order
type_of (execute_order m) = MessageType.execute_order
type_of (execute_with_price m) = MessageType.execute_order_with_price
type_of (order_cancel m) = MessageType.order_cancel
type_of (order_delete m) = MessageType.order_delete
type_of (order_replace m) = MessageType.order_replace
type_of (trade m) = MessageType.trade
type_of (system_event m) = MessageType.system_event
type_of (stock_directory m) = MessageType.stock_directory

abbrev pub header_of : Payload → MessageHeader
header_of (add_order m) = m.header
header_of (execute_order m) = m.header
header_of (execute_with_price m) = m.header
header_of (order_cancel m) = m.header
header_of (order_delete m) = m.header
header_of (order_replace m) = m.header
header_of (trade m) = m.header
header_of (system_event m) = m.header
header_of (stock_directory m) = m.header

-- The bytes of the message on the wire.
abbrev pub wire_format : Payload → List ℕ
wire_format (add_order m) = Format.add_order m
wire_format (execute_order m) = Format.execute_order m
wire_format (execute_with_price m) = Format.execute_with_price m
wire_format (order_cancel m) = Format.order_cancel m
wire_format (order_delete m) = Format.order_delete m
wire_format (order_replace m) = Format.order_replace m
wire_format (trade m) = Format.trade m
wire_format (system_event m) = Format.system_event m
wire_format (stock_directory m) = Format.stock_directory m

abbrev pub size_of : Payload → ℕ
size_of (add_order m) = SizeOf.add_order
size_of (execute_order m) = SizeOf.execute_order
size_of (execute_with_price m) = SizeOf.execute_with_price
size_of (order_cancel m) = SizeOf.order_cancel
size_of (order_delete m) = SizeOf.order_delete
size_of (order_replace m) = SizeOf.order_replace
size_of (trade m) = SizeOf.trade
size_of (system_event m) = SizeOf.system_event
size_of (stock_directory m) = SizeOf.stock_directory

-- Every field holds a value of its C++ type.
abbrev pub IsInRange : Payload → Type 0
IsInRange (add_order m) = Range.AddOrder m
IsInRange (execute_order m) = Range.ExecuteOrder m
IsInRange (execute_with_price m) = Range.ExecuteOrderWithPrice m
IsInRange (order_cancel m) = Range.OrderCancel m
IsInRange (order_delete m) = Range.OrderDelete m
IsInRange (order_replace m) = Range.OrderReplace m
IsInRange (trade m) = Range.Trade m
IsInRange (system_event m) = Range.SystemEvent m
IsInRange (stock_directory m) = Range.StockDirectory m

-- The type byte in the header is that of the member.
abbrev pub IsTagged : Payload → Type 0
IsTagged b = (header_of b).message_type ≡ to_byte (type_of b)

abbrev pub parsed : Payload → Tsc → ParsedMessage
parsed b tsc = record { type = type_of b; payload = b; parse_timestamp_ns = get_timestamp_ns tsc }

-- The table of accepted messages: the types that are supported, each with its only length.
abbrev pub accepted_length : MessageType → Option ℕ
accepted_length MessageType.add_order = some 38
accepted_length MessageType.execute_order = some 33
accepted_length MessageType.execute_order_with_price = some 38
accepted_length MessageType.order_cancel = some 25
accepted_length MessageType.order_delete = some 21
accepted_length MessageType.order_replace = some 37
accepted_length MessageType.trade = some 46
accepted_length MessageType.system_event = some 14
accepted_length MessageType.stock_directory = some 41
accepted_length _ = none
