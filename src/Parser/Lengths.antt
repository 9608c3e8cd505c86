-- ===== src/Parser/Lengths.antt =====
-- The lengths that `parse` accepts, and the bytes that it looks at.
use market_data_parser.Common.{
  ℕ, ◌≤◌, ◌<◌, ◌≡◌, ◌≢◌, ◌↔◌, refl, ap, not, Option, none, some, ltb, ◌==◌, if◌then◌else◌, arith,
  Bool-cases, Option-cases, inl, inr,
}
use market_data_parser.Common.Bytes.{Pointer}
use market_data_parser.Wire.MessageType.{MessageType, from_byte}
use market_data_parser.Wire.SizeOf
use market_data_parser.Parser.{
  add_order, execute_order, execute_with_price, order_cancel, order_delete, order_replace, trade,
  system_event, stock_directory, ParsedMessage, Tsc, parse, dispatch, parse_add_order,
  parse_execute_order, parse_execute_with_price, parse_order_cancel, parse_order_delete,
  parse_order_replace, parse_trade, parse_system_event, parse_stock_directory,
}
use market_data_parser.Parser.Struct.{decode, decode_agree}
use market_data_parser.Parser.Structs
use market_data_parser.Parser.Members.{parsed, accepted_length}

header-le-accepted :
    (t : MessageType) (length : ℕ) → accepted_length t ≡ some length → SizeOf.header ≤ length
header-le-accepted MessageType.system_event length e = ground arith
header-le-accepted _ length e = ground arith

module _ (p : Pointer) (length : ℕ) (tsc : Tsc) where
  dispatch-accepts :
      (t : MessageType)
      → accepted_length t ≡ some length
      → (m : ParsedMessage) × (dispatch t p length tsc ≡ some m)
  unfolding dispatch parse_add_order parse_execute_order parse_execute_with_price parse_order_cancel
      parse_order_delete parse_order_replace parse_trade parse_system_event parse_stock_directory
  dispatch-accepts MessageType.add_order e =
      (parsed (add_order (decode Structs.add_order p)) tsc, ground arith)
  dispatch-accepts MessageType.execute_order e =
      (parsed (execute_order (decode Structs.execute_order p)) tsc, ground arith)
  dispatch-accepts MessageType.execute_order_with_price e =
      (parsed (execute_with_price (decode Structs.execute_with_price p)) tsc, ground arith)
  dispatch-accepts MessageType.order_cancel e =
      (parsed (order_cancel (decode Structs.order_cancel p)) tsc, ground arith)
  dispatch-accepts MessageType.order_delete e =
      (parsed (order_delete (decode Structs.order_delete p)) tsc, ground arith)
  dispatch-accepts MessageType.order_replace e =
      (parsed (order_replace (decode Structs.order_replace p)) tsc, ground arith)
  dispatch-accepts MessageType.trade e = (parsed (trade (decode Structs.trade p)) tsc, ground arith)
  dispatch-accepts MessageType.system_event e =
      (parsed (system_event (decode Structs.system_event p)) tsc, ground arith)
  dispatch-accepts MessageType.stock_directory e =
      (parsed (stock_directory (decode Structs.stock_directory p)) tsc, ground arith)
  dispatch-accepts _ e = cc

  dispatch-rejects :
      (t : MessageType) {m : ParsedMessage}
      → dispatch t p length tsc ≡ some m
      → accepted_length t ≡ some length
  unfolding dispatch
  dispatch-rejects MessageType.add_order e = ground arith
  dispatch-rejects _ e = ground arith

  -- A message is accepted exactly when its type byte is that of a supported kind and its length is
  -- the one that the table has for the kind.
  pub parse-accepts :
      ((m : ParsedMessage) × (parse p length tsc ≡ some m))
      ↔ (accepted_length (from_byte (p 0)) ≡ some length)
  unfolding parse
  parse-accepts = (
    λ (m, e). dispatch-rejects (from_byte (p 0)) {m = m} (ground arith),
    λ e.
        let (m, d) = dispatch-accepts (from_byte (p 0)) e in
        (m, ground (arith, header-le-accepted (from_byte (p 0)) length e)),
  )

-- Where the bytes below `n` agree, a struct of that size is decoded alike.
if_agree :
    (length size : ℕ) (x y : Option ParsedMessage)
    → (length ≡ size → x ≡ y)
    → (if length == size then x else none) ≡ (if length == size then y else none)
if_agree length size x y h = ground arith

if_agree_not :
    (length size : ℕ) (x y : Option ParsedMessage)
    → (length ≡ size → x ≡ y)
    → (if not (length == size) then none else x) ≡ (if not (length == size) then none else y)
if_agree_not length size x y h = ground arith

module _ (p q : Pointer) (length : ℕ) (tsc : Tsc) where
  dispatch_agree :
      (t : MessageType)
      → ((i : ℕ) → i < length → p i ≡ q i)
      → dispatch t p length tsc ≡ dispatch t q length tsc
  unfolding dispatch parse_add_order parse_execute_order parse_execute_with_price parse_order_cancel
      parse_order_delete parse_order_replace parse_trade parse_system_event parse_stock_directory
  dispatch_agree MessageType.add_order h = if_agree_not length SizeOf.add_order _ _ λ e.
      ap (λ x. some (parsed (add_order x) tsc))
        (decode_agree Structs.add_order p q (λ i lt. h i (omega arith)))
  dispatch_agree MessageType.execute_order h = if_agree_not length SizeOf.execute_order _ _ λ e.
      ap (λ x. some (parsed (execute_order x) tsc))
        (decode_agree Structs.execute_order p q (λ i lt. h i (omega arith)))
  dispatch_agree MessageType.execute_order_with_price h =
      if_agree length SizeOf.execute_with_price _ _ λ e.
        ap (λ x. some (parsed (execute_with_price x) tsc))
          (decode_agree Structs.execute_with_price p q (λ i lt. h i (omega arith)))
  dispatch_agree MessageType.order_cancel h = if_agree length SizeOf.order_cancel _ _ λ e.
      ap (λ x. some (parsed (order_cancel x) tsc))
        (decode_agree Structs.order_cancel p q (λ i lt. h i (omega arith)))
  dispatch_agree MessageType.order_delete h = if_agree length SizeOf.order_delete _ _ λ e.
      ap (λ x. some (parsed (order_delete x) tsc))
        (decode_agree Structs.order_delete p q (λ i lt. h i (omega arith)))
  dispatch_agree MessageType.order_replace h = if_agree length SizeOf.order_replace _ _ λ e.
      ap (λ x. some (parsed (order_replace x) tsc))
        (decode_agree Structs.order_replace p q (λ i lt. h i (omega arith)))
  dispatch_agree MessageType.trade h = if_agree length SizeOf.trade _ _ λ e.
      ap (λ x. some (parsed (trade x) tsc))
        (decode_agree Structs.trade p q (λ i lt. h i (omega arith)))
  dispatch_agree MessageType.system_event h = if_agree length SizeOf.system_event _ _ λ e.
      ap (λ x. some (parsed (system_event x) tsc))
        (decode_agree Structs.system_event p q (λ i lt. h i (omega arith)))
  dispatch_agree MessageType.stock_directory h = if_agree length SizeOf.stock_directory _ _ λ e.
      ap (λ x. some (parsed (stock_directory x) tsc))
        (decode_agree Structs.stock_directory p q (λ i lt. h i (omega arith)))
  dispatch_agree _ h = refl

  -- `parse` looks at no byte behind the length that it is given.
  pub parse_agree : ((i : ℕ) → i < length → p i ≡ q i) → parse p length tsc ≡ parse q length tsc
  unfolding parse
  parse_agree h = elim (Bool-cases (ltb length SizeOf.header)) [
    | inl short ↦ rw short
    | inr long ↦ rw (long, h 0 (ground arith)) (dispatch_agree (from_byte (q 0)) h)
  ]

-- The lengths that the unit test `message_size_calculation` expects of four structs.
abbrev pub tested_length : MessageType → Option ℕ
tested_length MessageType.add_order = some 36
tested_length MessageType.execute_order = some 31
tested_length MessageType.order_cancel = some 23
tested_length MessageType.order_delete = some 19
tested_length _ = none

tested-ne-accepted :
    (t : MessageType) (length : ℕ) → tested_length t ≡ some length → accepted_length t ≢ some length
tested-ne-accepted MessageType.system_event length e = ground arith
tested-ne-accepted _ length e = ground arith

-- Of the four kinds whose size the unit test fixes, `parse` rejects every message of that size.
pub parse-tested_length :
    (p : Pointer) (length : ℕ) (tsc : Tsc)
    → tested_length (from_byte (p 0)) ≡ some length
    → parse p length tsc ≡ none
parse-tested_length p length tsc e = elim (Option-cases (parse p length tsc)) [
  | inl no_message ↦ no_message
  | inr accepted ↦
      absurd
        (tested-ne-accepted (from_byte (p 0)) length e ((parse-accepts p length tsc).0 accepted))
]
