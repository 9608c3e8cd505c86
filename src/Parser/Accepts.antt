-- ===== src/Parser/Accepts.antt =====
-- Which inputs `parse` accepts, and what it returns for them.
use market_data_parser.Common.{
  ℕ, ◌≡◌, refl, sym, ap, ◌∙◌, Bool, not, Option, none, some, ltb, ◌==◌, if◌then◌else◌, arith,
}
use market_data_parser.Common.Bytes.{Pointer, IsMemory, bytes_at}
use market_data_parser.Wire.MessageType.{MessageType, to_byte, from_byte, to_byte-from_byte}
use market_data_parser.Wire.SizeOf
use market_data_parser.Wire.Overlay
use market_data_parser.Parser.{
  add_order, execute_order, execute_with_price, order_cancel, order_delete, order_replace, trade,
  system_event, stock_directory, ParsedMessage, Tsc, parse, dispatch, parse_add_order,
  parse_execute_order, parse_execute_with_price, parse_order_cancel, parse_order_delete,
  parse_order_replace, parse_trade, parse_system_event, parse_stock_directory,
}
use market_data_parser.Parser.ToHost
use market_data_parser.Parser.Struct.{decode, format-decode, decode-IsInRange}
use market_data_parser.Parser.Structs
use market_data_parser.Parser.Members.{type_of, header_of, wire_format, IsInRange, IsTagged, parsed}

-- What is known of a message that was read at `p`.
pub record Reads (t : MessageType) (p : Pointer) (length : ℕ) (tsc : Tsc) (m : ParsedMessage)
    : Type 0 where
  pub filled : m ≡ parsed m.payload tsc
  pub kind : type_of m.payload ≡ t
  pub header : (header_of m.payload).message_type ≡ p 0
  pub in_range : IsInRange m.payload
  pub bytes : wire_format m.payload ≡ bytes_at p 0 length

module _ (t : MessageType) (p : Pointer) (tsc : Tsc) where
  Reads-at :
      (size length : ℕ) (m' m : ParsedMessage)
      → Reads t p size tsc m'
      → (if length == size then some m' else none) ≡ some m
      → Reads t p length tsc m
  Reads-at size length m' m r e = rw (← (same.0), ← (same.1)) r
    where
      same : (size ≡ length) × (m' ≡ m)
      same = ground arith

  Reads-unless :
      (size length : ℕ) (m' m : ParsedMessage)
      → Reads t p size tsc m'
      → (if not (length == size) then none else some m') ≡ some m
      → Reads t p length tsc m
  Reads-unless size length m' m r e = Reads-at size length m' m r (ground arith)

dispatch-Reads :
    (t : MessageType) (p : Pointer) (length : ℕ) (tsc : Tsc) (m : ParsedMessage)
    → IsMemory p
    → dispatch t p length tsc ≡ some m
    → Reads t p length tsc m
unfolding dispatch parse_add_order parse_execute_order parse_execute_with_price parse_order_cancel
    parse_order_delete parse_order_replace parse_trade parse_system_event parse_stock_directory
    Overlay.add_order Overlay.execute_order Overlay.execute_with_price Overlay.order_cancel
    Overlay.order_delete Overlay.order_replace Overlay.trade Overlay.system_event
    Overlay.stock_directory ToHost.add_order ToHost.execute_order ToHost.execute_with_price
    ToHost.order_cancel ToHost.order_delete ToHost.order_replace ToHost.trade ToHost.system_event
    ToHost.stock_directory
dispatch-Reads MessageType.add_order p length tsc m h e =
    Reads-unless MessageType.add_order p tsc SizeOf.add_order length
      (parsed (add_order (decode Structs.add_order p)) tsc) m
      (record {
        filled = refl;
        kind = refl;
        header = refl;
        in_range = decode-IsInRange Structs.add_order p h;
        bytes = format-decode Structs.add_order p h;
      })
      e
dispatch-Reads MessageType.execute_order p length tsc m h e =
    Reads-unless MessageType.execute_order p tsc SizeOf.execute_order length
      (parsed (execute_order (decode Structs.execute_order p)) tsc) m
      (record {
        filled = refl;
        kind = refl;
        header = refl;
        in_range = decode-IsInRange Structs.execute_order p h;
        bytes = format-decode Structs.execute_order p h;
      })
      e
dispatch-Reads MessageType.execute_order_with_price p length tsc m h e =
    Reads-at MessageType.execute_order_with_price p tsc SizeOf.execute_with_price length
      (parsed (execute_with_price (decode Structs.execute_with_price p)) tsc) m
      (record {
        filled = refl;
        kind = refl;
        header = refl;
        in_range = decode-IsInRange Structs.execute_with_price p h;
        bytes = format-decode Structs.execute_with_price p h;
      })
      e
dispatch-Reads MessageType.order_cancel p length tsc m h e =
    Reads-at MessageType.order_cancel p tsc SizeOf.order_cancel length
      (parsed (order_cancel (decode Structs.order_cancel p)) tsc) m
      (record {
        filled = refl;
        kind = refl;
        header = refl;
        in_range = decode-IsInRange Structs.order_cancel p h;
        bytes = format-decode Structs.order_cancel p h;
      })
      e
dispatch-Reads MessageType.order_delete p length tsc m h e =
    Reads-at MessageType.order_delete p tsc SizeOf.order_delete length
      (parsed (order_delete (decode Structs.order_delete p)) tsc) m
      (record {
        filled = refl;
        kind = refl;
        header = refl;
        in_range = decode-IsInRange Structs.order_delete p h;
        bytes = format-decode Structs.order_delete p h;
      })
      e
dispatch-Reads MessageType.order_replace p length tsc m h e =
    Reads-at MessageType.order_replace p tsc SizeOf.order_replace length
      (parsed (order_replace (decode Structs.order_replace p)) tsc) m
      (record {
        filled = refl;
        kind = refl;
        header = refl;
        in_range = decode-IsInRange Structs.order_replace p h;
        bytes = format-decode Structs.order_replace p h;
      })
      e
dispatch-Reads MessageType.trade p length tsc m h e =
    Reads-at MessageType.trade p tsc SizeOf.trade length
      (parsed (trade (decode Structs.trade p)) tsc) m
      (record {
        filled = refl;
        kind = refl;
        header = refl;
        in_range = decode-IsInRange Structs.trade p h;
        bytes = format-decode Structs.trade p h;
      })
      e
dispatch-Reads MessageType.system_event p length tsc m h e =
    Reads-at MessageType.system_event p tsc SizeOf.system_event length
      (parsed (system_event (decode Structs.system_event p)) tsc) m
      (record {
        filled = refl;
        kind = refl;
        header = refl;
        in_range = decode-IsInRange Structs.system_event p h;
        bytes = format-decode Structs.system_event p h;
      })
      e
dispatch-Reads MessageType.stock_directory p length tsc m h e =
    Reads-at MessageType.stock_directory p tsc SizeOf.stock_directory length
      (parsed (stock_directory (decode Structs.stock_directory p)) tsc) m
      (record {
        filled = refl;
        kind = refl;
        header = refl;
        in_range = decode-IsInRange Structs.stock_directory p h;
        bytes = format-decode Structs.stock_directory p h;
      })
      e
dispatch-Reads _ p length tsc m h e = cc

-- Of a message that `parse` accepts nothing is lost: the payload's wire format is the input, its
-- fields are in range, its type byte is that of its kind, and the rest of the result is the type
-- of the payload and the time stamp.
pub parse-some :
    (p : Pointer) (length : ℕ) (tsc : Tsc) (m : ParsedMessage)
    → IsMemory p
    → parse p length tsc ≡ some m
    → (m ≡ parsed m.payload tsc)
      × IsTagged m.payload
      × IsInRange m.payload
      × (wire_format m.payload ≡ bytes_at p 0 length)
unfolding parse
parse-some p length tsc m h e = (
  r.filled,
  r.header ∙ sym (to_byte-from_byte (p 0)) ∙ ap to_byte (sym r.kind),
  r.in_range,
  r.bytes,
)
  where
    past : (b : Bool) (o : Option ParsedMessage) → (if b then none else o) ≡ some m → o ≡ some m
    past b o q = ground arith

    r : Reads (from_byte (p 0)) p length tsc m
    r = dispatch-Reads (from_byte (p 0)) p length tsc m h (past (ltb length SizeOf.header) _ e)
