-- ===== src/Parser/ReadsFormat.antt =====
-- `parse` reads back every message of the wire format.
use market_data_parser.Common.{
  ℕ, List, ◌++◌, ◌≡◌, refl, ap, ◌∙◌, false, none, some, ltb, if◌then◌else◌,
}
use market_data_parser.Common.Bytes.{Pointer, address}
use market_data_parser.Wire.MessageType.{MessageType, to_byte, from_byte}
use market_data_parser.Wire.SizeOf
use market_data_parser.Wire.Format
use market_data_parser.Parser.{
  Payload, add_order, execute_order, execute_with_price, order_cancel, order_delete, order_replace,
  trade, system_event, stock_directory, Tsc, parse, dispatch, parse_add_order, parse_execute_order,
  parse_execute_with_price, parse_order_cancel, parse_order_delete, parse_order_replace,
  parse_trade, parse_system_event, parse_stock_directory,
}
use market_data_parser.Parser.Struct.{decode-format}
use market_data_parser.Parser.Structs
use market_data_parser.Parser.Members.{wire_format, size_of, IsInRange, IsTagged, parsed}

-- Past the length test, `parse` goes by the type byte.
pub parse-dispatch :
    (p : Pointer) (length : ℕ) (tsc : Tsc) {type : MessageType}
    → ltb length SizeOf.header ≡ false
    → from_byte (p 0) ≡ type
    → parse p length tsc ≡ dispatch type p length tsc
unfolding parse
parse-dispatch p length tsc long e =
    ap (λ b. if b then none else dispatch (from_byte (p 0)) p length tsc) long
    ∙ ap (λ t. dispatch t p length tsc) e

-- For every message of the nine supported kinds, with its fields in range and its own type byte in
-- the header: given the address of its wire format, whatever follows it there, and its size, `parse`
-- returns the message, under its type and with the time stamp.
pub parse-wire_format :
    (b : Payload) (rest : List ℕ) (tsc : Tsc)
    → IsInRange b
    → IsTagged b
    → parse (address (wire_format b ++ rest)) (size_of b) tsc ≡ some (parsed b tsc)
unfolding to_byte from_byte dispatch parse_add_order parse_execute_order parse_execute_with_price
    parse_order_cancel parse_order_delete parse_order_replace parse_trade parse_system_event
    parse_stock_directory
parse-wire_format (add_order m) rest tsc r t =
    unfold Format.add_order in
    parse-dispatch (address (Format.add_order m ++ rest)) SizeOf.add_order tsc refl (ap from_byte t)
    ∙ ap (λ x. some (parsed (add_order x) tsc)) (decode-format Structs.add_order m rest r)
parse-wire_format (execute_order m) rest tsc r t =
    unfold Format.execute_order in
    parse-dispatch (address (Format.execute_order m ++ rest)) SizeOf.execute_order tsc refl
      (ap from_byte t)
    ∙ ap (λ x. some (parsed (execute_order x) tsc)) (decode-format Structs.execute_order m rest r)
parse-wire_format (execute_with_price m) rest tsc r t =
    unfold Format.execute_with_price in
    parse-dispatch (address (Format.execute_with_price m ++ rest)) SizeOf.execute_with_price tsc
      refl (ap from_byte t)
    ∙ ap (λ x. some (parsed (execute_with_price x) tsc))
        (decode-format Structs.execute_with_price m rest r)
parse-wire_format (order_cancel m) rest tsc r t =
    unfold Format.order_cancel in
    parse-dispatch (address (Format.order_cancel m ++ rest)) SizeOf.order_cancel tsc refl
      (ap from_byte t)
    ∙ ap (λ x. some (parsed (order_cancel x) tsc)) (decode-format Structs.order_cancel m rest r)
parse-wire_format (order_delete m) rest tsc r t =
    unfold Format.order_delete in
    parse-dispatch (address (Format.order_delete m ++ rest)) SizeOf.order_delete tsc refl
      (ap from_byte t)
    ∙ ap (λ x. some (parsed (order_delete x) tsc)) (decode-format Structs.order_delete m rest r)
parse-wire_format (order_replace m) rest tsc r t =
    unfold Format.order_replace in
    parse-dispatch (address (Format.order_replace m ++ rest)) SizeOf.order_replace tsc refl
      (ap from_byte t)
    ∙ ap (λ x. some (parsed (order_replace x) tsc)) (decode-format Structs.order_replace m rest r)
parse-wire_format (trade m) rest tsc r t =
    unfold Format.trade in
    parse-dispatch (address (Format.trade m ++ rest)) SizeOf.trade tsc refl (ap from_byte t)
    ∙ ap (λ x. some (parsed (trade x) tsc)) (decode-format Structs.trade m rest r)
parse-wire_format (system_event m) rest tsc r t =
    unfold Format.system_event in
    parse-dispatch (address (Format.system_event m ++ rest)) SizeOf.system_event tsc refl
      (ap from_byte t)
    ∙ ap (λ x. some (parsed (system_event x) tsc)) (decode-format Structs.system_event m rest r)
parse-wire_format (stock_directory m) rest tsc r t =
    unfold Format.stock_directory in
    parse-dispatch (address (Format.stock_directory m ++ rest)) SizeOf.stock_directory tsc refl
      (ap from_byte t)
    ∙ ap (λ x. some (parsed (stock_directory x) tsc))
        (decode-format Structs.stock_directory m rest r)
