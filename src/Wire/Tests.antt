-- ===== src/Wire/Tests.antt =====
-- Tests `stock_symbol_extraction` and `message_size_calculation` of test/test_parser.cpp, and instances of
-- the theorems on the wire format.
use market_data_parser.Common.{ℕ, ◌-◌, ◌≡◌, refl, List, [], ◌∷◌, ◌++◌, length, replicate, arith}
use market_data_parser.Common.Chars.{Chars, chars_bytes}
use market_data_parser.Wire.Symbol.{
  space, trim, get_stock_symbol, IsUnpadded, pad, get_stock_symbol_lem,
}
use market_data_parser.Wire.SizeOf

abbrev symbol1 : Chars 8
symbol1 = pad (b'A' ∷ b'A' ∷ b'P' ∷ b'L' ∷ [])

extraction :
    (get_stock_symbol symbol1 ≡ b'A' ∷ b'A' ∷ b'P' ∷ b'L' ∷ [])
    × (get_stock_symbol (pad (b'L' ∷ b'O' ∷ b'N' ∷ b'G' ∷ b'S' ∷ b'Y' ∷ b'M' ∷ b'B' ∷ []))
        ≡ b'L' ∷ b'O' ∷ b'N' ∷ b'G' ∷ b'S' ∷ b'Y' ∷ b'M' ∷ b'B' ∷ [])
    × (get_stock_symbol (pad []) ≡ [])
unfolding get_stock_symbol trim
extraction = (refl, refl, refl)

-- The sizes that the compiler gives the packed structs; the test expects 36, 31, 23, 19 and 15.
sizes :
    (SizeOf.add_order ≡ 38)
    × (SizeOf.execute_order ≡ 33)
    × (SizeOf.order_cancel ≡ 25)
    × (SizeOf.order_delete ≡ 21)
    × (SizeOf.header ≡ 13)
sizes = (refl, refl, refl, refl, refl)

abbrev wire : List ℕ
wire = 0x12 ∷ 0x34 ∷ 0x56 ∷ 0x78 ∷ 0x9a ∷ 0xbc ∷ 0xde ∷ 0xf0 ∷ []

get_stock_symbol_lem_example :
    (get_stock_symbol symbol1 ++ replicate (8 - length (get_stock_symbol symbol1)) space
      ≡ chars_bytes 8 symbol1)
    × IsUnpadded (get_stock_symbol symbol1)
get_stock_symbol_lem_example = get_stock_symbol_lem symbol1

aapl-IsUnpadded : IsUnpadded (b'A' ∷ b'A' ∷ b'P' ∷ b'L' ∷ [])
aapl-IsUnpadded k e = let last : k ≡ 3 = omega arith in rw last (omega arith)
