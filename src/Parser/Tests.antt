-- ===== src/Parser/Tests.antt =====
-- Runs of the parser on the messages of test/test_parser.cpp, and instances of its theorems.
use market_data_parser.Common.{
  ℕ, ◌+◌, ◌^◌, ◌≡◌, ◌↔◌, refl, none, some, List, [], ◌∷◌, ◌++◌, replicate, get_or-append_left,
  arith,
}
use market_data_parser.Common.Bytes.{
  IsMemory, address, address-IsMemory, bytes_at, of_le, to_le, bswap, to_be,
}
use market_data_parser.Wire.MessageType.{to_byte, from_byte}
use market_data_parser.Wire.Scalars.{ntoh16, ntoh32, ntoh64}
use market_data_parser.Wire.Messages.{AddOrderMessage}
use market_data_parser.Wire.Symbol.{pad}
use market_data_parser.Wire.Format
use market_data_parser.Wire.Overlay
use market_data_parser.Parser.{
  add_order, ParsedMessage, Tsc, parse, parse_add_order, get_timestamp_ns,
}
use market_data_parser.Parser.ToHost
use market_data_parser.Parser.ReadsFormat.{parse-wire_format}
use market_data_parser.Parser.Accepts.{parse-some}
use market_data_parser.Parser.Lengths.{parse-accepts, parse_agree}
use market_data_parser.Parser.Members.{wire_format, IsInRange, IsTagged, parsed, accepted_length}

-- Test `parser_add_order`.
abbrev pub order : AddOrderMessage
order = record {
  header = record {
    message_type = b'A';
    stock_locate = 123;
    tracking_number = 456;
    timestamp = 1234567890;
  };
  order_reference_number = 999999;
  buy_sell_indicator = b'B';
  shares = 100;
  stock = pad (b'A' ∷ b'A' ∷ b'P' ∷ b'L' ∷ []);
  price = 1500000;
}

abbrev pub tsc : Tsc
tsc = record { lo = 7; hi = 1 }

-- The 38 bytes of that message.
abbrev pub order_bytes : List ℕ
order_bytes =
    b'A' ∷ 0 ∷ 123 ∷ 1 ∷ 200 ∷ 0 ∷ 0 ∷ 0 ∷ 0 ∷ 73 ∷ 150 ∷ 2 ∷ 210 ∷ 0 ∷ 0 ∷ 0 ∷ 0 ∷ 0 ∷ 15 ∷ 66 ∷ 63
    ∷ b'B' ∷ 0 ∷ 0 ∷ 0 ∷ 100 ∷ b'A' ∷ b'A' ∷ b'P' ∷ b'L' ∷ 32 ∷ 32 ∷ 32 ∷ 32 ∷ 0 ∷ 22 ∷ 227 ∷ 96
    ∷ []

order_format : wire_format (add_order order) ≡ order_bytes
unfolding Format.add_order to_be to_le
order_format = refl

pub order-parsed : parse (address order_bytes) 38 tsc ≡ some (parsed (add_order order) tsc)
unfolding parse from_byte parse_add_order Overlay.add_order ToHost.add_order ntoh16 ntoh32 ntoh64
    bswap to_le of_le
order-parsed = refl

stamp : get_timestamp_ns tsc ≡ 2 ^ 32 + 7
unfolding get_timestamp_ns
stamp = refl

-- Test `parser_invalid_message`: too short, an unknown type, a wrong length.
invalid :
    (parse (address (replicate 5 0)) 5 tsc ≡ none)
    × (parse (address (b'Z' ∷ replicate 37 0)) 38 tsc ≡ none)
    × (parse (address (b'A' ∷ replicate 99 0)) 100 tsc ≡ none)
unfolding parse from_byte
invalid = (refl, refl, refl)

-- Test `endian_conversion`.
endian :
    (ntoh16 0x1234 ≡ 0x3412)
    × (ntoh32 0x12345678 ≡ 0x78563412)
    × (ntoh64 0x123456789abcdef0 ≡ 0xf0debc9a78563412)
unfolding ntoh16 ntoh32 ntoh64 bswap to_le of_le
endian = (refl, refl, refl)

order-IsInRange : IsInRange (add_order order)
order-IsInRange = omega arith

parse-wire_format_example :
    parse (address (wire_format (add_order order) ++ (1 ∷ 2 ∷ []))) 38 tsc
    ≡ some (parsed (add_order order) tsc)
unfolding to_byte
parse-wire_format_example =
    parse-wire_format (add_order order) (1 ∷ 2 ∷ []) tsc order-IsInRange refl

pub order-IsMemory : IsMemory (address order_bytes)
order-IsMemory = address-IsMemory order_bytes (omega arith)

parse-some_example :
    let m = parsed (add_order order) tsc in
    (m ≡ parsed m.payload tsc)
    × IsTagged m.payload
    × IsInRange m.payload
    × (wire_format m.payload ≡ bytes_at (address order_bytes) 0 38)
parse-some_example =
    parse-some (address order_bytes) 38 tsc (parsed (add_order order) tsc) order-IsMemory
      order-parsed

parse-accepts_example :
    ((m : ParsedMessage) × (parse (address order_bytes) 38 tsc ≡ some m))
    ↔ (accepted_length (from_byte b'A') ≡ some 38)
parse-accepts_example = parse-accepts (address order_bytes) 38 tsc

parse_agree_example :
    parse (address (order_bytes ++ (9 ∷ []))) 38 tsc ≡ parse (address order_bytes) 38 tsc
parse_agree_example =
    parse_agree (address (order_bytes ++ (9 ∷ []))) (address order_bytes) 38 tsc
      (λ i lt. get_or-append_left order_bytes (9 ∷ []) i 0 lt)
