-- ===== src/Parser.antt =====
-- ITCHParser of include/itch_parser.hpp. `parse` is given the address of the message, its length, and
-- what the `rdtsc` instruction leaves in its two registers when the parsed message is stamped.
pub mod ToHost
pub mod Struct
pub mod Structs
pub mod Members
pub mod ReadsFormat
pub mod Accepts
pub mod Lengths
pub mod Stamp
pub mod Tests
use market_data_parser.Common.{ℕ, ◌*◌, ◌%◌, ◌^◌, not, Option, none, some, ltb, ◌==◌, if◌then◌else◌}
use market_data_parser.Common.Bytes.{Pointer}
use market_data_parser.Wire.MessageType.{MessageType, from_byte}
use market_data_parser.Wire.Messages.{
  AddOrderMessage, ExecuteOrderMessage, ExecuteOrderWithPriceMessage, OrderCancelMessage,
  OrderDeleteMessage, OrderReplaceMessage, TradeMessage, SystemEventMessage, StockDirectoryMessage,
}
use market_data_parser.Wire.SizeOf
use market_data_parser.Wire.Overlay
use Prim.Native.Nat.{bit_or}

-- The union of `ParsedMessage`, with the member that was written last.
pub data Payload : Type 0 where
  add_order : AddOrderMessage → Payload
  execute_order : ExecuteOrderMessage → Payload
  execute_with_price : ExecuteOrderWithPriceMessage → Payload
  order_cancel : OrderCancelMessage → Payload
  order_delete : OrderDeleteMessage → Payload
  order_replace : OrderReplaceMessage → Payload
  trade : TradeMessage → Payload
  system_event : SystemEventMessage → Payload
  stock_directory : StockDirectoryMessage → Payload

pub record ParsedMessage : Type 0 where
  pub type : MessageType
  pub payload : Payload
  pub parse_timestamp_ns : ℕ  -- uint64_t

-- `rdtsc` leaves the low half of the time stamp counter in EAX and the high half in EDX.
pub record Tsc : Type 0 where
  pub lo : ℕ  -- uint32_t
  pub hi : ℕ  -- uint32_t

unfoldable pub get_timestamp_ns : Tsc → ℕ
get_timestamp_ns r = bit_or (r.hi * 2 ^ 32 % 2 ^ 64) r.lo

unfoldable pub parse_add_order : Pointer → MessageType → Tsc → Option ParsedMessage
parse_add_order p type tsc =
    let wire_msg = Overlay.add_order p in
    some (record {
      type = type;
      payload = add_order (ToHost.add_order wire_msg);
      parse_timestamp_ns = get_timestamp_ns tsc;
    })

unfoldable pub parse_execute_order : Pointer → MessageType → Tsc → Option ParsedMessage
parse_execute_order p type tsc =
    let wire_msg = Overlay.execute_order p in
    some (record {
      type = type;
      payload = execute_order (ToHost.execute_order wire_msg);
      parse_timestamp_ns = get_timestamp_ns tsc;
    })

unfoldable pub parse_execute_with_price : Pointer → MessageType → Tsc → Option ParsedMessage
parse_execute_with_price p type tsc =
    let wire_msg = Overlay.execute_with_price p in
    some (record {
      type = type;
      payload = execute_with_price (ToHost.execute_with_price wire_msg);
      parse_timestamp_ns = get_timestamp_ns tsc;
    })

unfoldable pub parse_order_cancel : Pointer → MessageType → Tsc → Option ParsedMessage
parse_order_cancel p type tsc =
    let wire_msg = Overlay.order_cancel p in
    some (record {
      type = type;
      payload = order_cancel (ToHost.order_cancel wire_msg);
      parse_timestamp_ns = get_timestamp_ns tsc;
    })

unfoldable pub parse_order_delete : Pointer → MessageType → Tsc → Option ParsedMessage
parse_order_delete p type tsc =
    let wire_msg = Overlay.order_delete p in
    some (record {
      type = type;
      payload = order_delete (ToHost.order_delete wire_msg);
      parse_timestamp_ns = get_timestamp_ns tsc;
    })

unfoldable pub parse_order_replace : Pointer → MessageType → Tsc → Option ParsedMessage
parse_order_replace p type tsc =
    let wire_msg = Overlay.order_replace p in
    some (record {
      type = type;
      payload = order_replace (ToHost.order_replace wire_msg);
      parse_timestamp_ns = get_timestamp_ns tsc;
    })

unfoldable pub parse_trade : Pointer → MessageType → Tsc → Option ParsedMessage
parse_trade p type tsc =
    let wire_msg = Overlay.trade p in
    some (record {
      type = type;
      payload = trade (ToHost.trade wire_msg);
      parse_timestamp_ns = get_timestamp_ns tsc;
    })

unfoldable pub parse_system_event : Pointer → MessageType → Tsc → Option ParsedMessage
parse_system_event p type tsc =
    let wire_msg = Overlay.system_event p in
    some (record {
      type = type;
      payload = system_event (ToHost.system_event wire_msg);
      parse_timestamp_ns = get_timestamp_ns tsc;
    })

unfoldable pub parse_stock_directory : Pointer → MessageType → Tsc → Option ParsedMessage
parse_stock_directory p type tsc =
    let wire_msg = Overlay.stock_directory p in
    some (record {
      type = type;
      payload = stock_directory (ToHost.stock_directory wire_msg);
      parse_timestamp_ns = get_timestamp_ns tsc;
    })

-- The two tests and the `switch` on the message type, once the header is known to be there.
unfoldable pub dispatch : MessageType → Pointer → ℕ → Tsc → Option ParsedMessage
dispatch MessageType.add_order p length tsc =
    if not (length == SizeOf.add_order) then none else parse_add_order p MessageType.add_order tsc
dispatch MessageType.execute_order p length tsc =
    if not (length == SizeOf.execute_order)
    then none
    else parse_execute_order p MessageType.execute_order tsc
dispatch MessageType.execute_order_with_price p length tsc =
    if length == SizeOf.execute_with_price
    then parse_execute_with_price p MessageType.execute_order_with_price tsc
    else none
dispatch MessageType.order_cancel p length tsc =
    if length == SizeOf.order_cancel
    then parse_order_cancel p MessageType.order_cancel tsc
    else none
dispatch MessageType.order_delete p length tsc =
    if length == SizeOf.order_delete
    then parse_order_delete p MessageType.order_delete tsc
    else none
dispatch MessageType.order_replace p length tsc =
    if length == SizeOf.order_replace
    then parse_order_replace p MessageType.order_replace tsc
    else none
dispatch MessageType.trade p length tsc =
    if length == SizeOf.trade then parse_trade p MessageType.trade tsc else none
dispatch MessageType.system_event p length tsc =
    if length == SizeOf.system_event
    then parse_system_event p MessageType.system_event tsc
    else none
dispatch MessageType.stock_directory p length tsc =
    if length == SizeOf.stock_directory
    then parse_stock_directory p MessageType.stock_directory tsc
    else none
dispatch _ p length tsc = none

unfoldable pub parse : Pointer → ℕ → Tsc → Option ParsedMessage
unfolding dispatch
parse p length tsc =
    if ltb length SizeOf.header then none else dispatch (from_byte (p 0)) p length tsc
