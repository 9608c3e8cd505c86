-- ===== src/Programs/Demo/Printing.antt =====
-- The lines that are printed for messages of DemoMessageGenerator.
use market_data_parser.Common.{
  ℕ, suc, ◌+◌, ◌%◌, ◌^◌, ◌==◌, ◌≡◌, ◌≢◌, ◌⊎◌, refl, ap, ap₂, ◌∙◌, false, inl, inr, some, List, ◌++◌,
  length, get_or, codes, arith,
}
use market_data_parser.Wire.Scalars.{IsU64}
use market_data_parser.Wire.Symbol.{space, IsUnpadded}
use market_data_parser.Parser.{Tsc}
use market_data_parser.Feed.{DemoMessageGenerator, create_add_order, create_trade, advance, u32}
use market_data_parser.Feed.Demo.{Inputs, parse-create_add_order, parse-create_trade}
use market_data_parser.Programs.Demo.Numerals.{IsNumeral, decimal-IsNumeral}
use market_data_parser.Programs.Demo.{
  decimal, newline, side_text, print_member, print_message, show, demo_basic_parsing,
}
use mathlib.Core.List.{append_assoc}
use native.Mathlib.Decide.{ℕ_discrete}

abbrev add_order_line :
    (price_text : ℕ → List ℕ) (symbol : List ℕ) (side shares price reference : ℕ) → List ℕ
add_order_line price_text symbol side shares price reference =
    codes "ADD ORDER: "
    ++ symbol
    ++ codes " "
    ++ side_text side
    ++ codes " "
    ++ decimal shares
    ++ codes " @ $"
    ++ price_text price
    ++ codes " (Ref: "
    ++ decimal reference
    ++ codes ")"
    ++ newline

abbrev trade_line :
    (price_text : ℕ → List ℕ) (symbol : List ℕ) (side shares price match : ℕ) → List ℕ
trade_line price_text symbol side shares price match =
    codes "TRADE: "
    ++ symbol
    ++ codes " "
    ++ side_text side
    ++ codes " "
    ++ decimal shares
    ++ codes " @ $"
    ++ price_text price
    ++ codes " (Match: "
    ++ decimal match
    ++ codes ")"
    ++ newline

-- The word for the side of an order: B is a buy, and any other character a sell.
abbrev pub IsSide : (side : ℕ) → List ℕ → Type 0
IsSide side word = ((side ≡ b'B') × (word ≡ codes "BUY")) ⊎ ((side ≢ b'B') × (word ≡ codes "SELL"))

-- A line with a heading, the symbol, the side, the number of shares, the price and, after a label, a number.
pub record IsLine (price_text : ℕ → List ℕ) (heading label symbol : List ℕ)
    (side shares price number : ℕ) (line : List ℕ) : Type 0 where
  pub side_word : List ℕ
  pub shares_text : List ℕ
  pub number_text : List ℕ
  pub is_side : IsSide side side_word
  pub is_shares : IsNumeral shares_text shares
  pub is_number : IsNumeral number_text number
  pub same :
      line
      ≡ heading
        ++ symbol
        ++ codes " "
        ++ side_word
        ++ codes " "
        ++ shares_text
        ++ codes " @ $"
        ++ price_text price
        ++ label
        ++ number_text
        ++ codes ")"
        ++ codes "\n"

side_text-IsSide : (side : ℕ) → IsSide side (side_text side)
side_text-IsSide side = elim (ℕ_discrete side b'B') [
  | yes buy ↦ rw buy (inl (refl, refl))
  | no sell ↦ let other : (side == b'B') ≡ false = ground arith in rw other (inr (sell, refl))
]

module _ (price_text : ℕ → List ℕ) (gen : DemoMessageGenerator) (now : ℕ) (symbol : List ℕ)
    (side shares price : ℕ) (i : Inputs now symbol side shares price) (tsc : Tsc) where
  show-create_add_order :
      show price_text tsc (create_add_order gen now symbol side shares price).0
      ≡ some (add_order_line price_text symbol side shares price (u32 (100000 + u32 (gen.seq + 1))))
  unfolding show print_message print_member
  show-create_add_order =
      let (read, same, next) = parse-create_add_order gen now symbol side shares price i tsc in
      rw (show, read, same) refl

  show-create_trade :
      show price_text tsc (create_trade gen now symbol side shares price).0
      ≡ some (trade_line price_text symbol side shares price (u32 (500000 + u32 (gen.seq + 1))))
  unfolding show print_message print_member
  show-create_trade =
      let (read, same, next) = parse-create_trade gen now symbol side shares price i tsc in
      rw (show, read, same) refl

  abbrev IsPrinted : (heading label : List ℕ) (number : ℕ) → List ℕ → Type 0
  IsPrinted heading label number line =
      IsLine price_text heading label symbol side shares price number line

  -- The line that `print_message` prints for a message of `create_add_order` or of `create_trade`, once it
  -- has been parsed, for any counter of the generator: the heading, the symbol that was passed in, BUY if
  -- the side is the character B and SELL otherwise, the decimal digits of the number of shares, the
  -- text of the price, and the decimal digits of the generator's number, which is
  -- 100000 for an order or 500000 for a trade plus the increased counter, modulo 2^32. The clock has 64
  -- bits, the side 8, the number of shares and the price 32; the symbol is at most eight bytes that
  -- do not end in a space.
  pub show-create :
      ((line : List ℕ) × (show price_text tsc (create_add_order gen now symbol side shares price).0
          ≡ some line)
        × IsPrinted
            (codes "ADD ORDER: ")
            (codes " (Ref: ")
            ((100000 + (gen.seq + 1) % 2 ^ 32) % 2 ^ 32)
            line)
      × ((line : List ℕ) × (show price_text tsc (create_trade gen now symbol side shares price).0
            ≡ some line)
          × IsPrinted
              (codes "TRADE: ")
              (codes " (Match: ")
              ((500000 + (gen.seq + 1) % 2 ^ 32) % 2 ^ 32)
              line)
  show-create =
      let order = u32 (100000 + u32 (gen.seq + 1)) in
      let match = u32 (500000 + u32 (gen.seq + 1)) in
      let small = i.shares_u32 in
      (
        (
          add_order_line price_text symbol side shares price order,
          show-create_add_order,
          record {
            side_word = side_text side;
            shares_text = decimal shares;
            number_text = decimal order;
            is_side = side_text-IsSide side;
            is_shares = decimal-IsNumeral shares (omega arith);
            is_number = decimal-IsNumeral order (omega arith);
            same = refl;
          },
        ),
        (
          trade_line price_text symbol side shares price match,
          show-create_trade,
          record {
            side_word = side_text side;
            shares_text = decimal shares;
            number_text = decimal match;
            is_side = side_text-IsSide side;
            is_shares = decimal-IsNumeral shares (omega arith);
            is_number = decimal-IsNumeral match (omega arith);
            same = refl;
          },
        ),
      )

-- A symbol that does not end in a space, by its last character.
pub unpadded : (s : List ℕ) (n : ℕ) → length s ≡ suc n → get_or s n 0 ≢ space → IsUnpadded s
unpadded s n size last k e = let same : k ≡ n = omega arith in rw same last

-- What is printed after the price, as one text.
as_text :
    (before price label number : List ℕ)
    → before ++ (price ++ label ++ number ++ codes ")" ++ newline)
      ≡ before ++ (price ++ (label ++ number ++ codes ")" ++ newline))
as_text before price label number =
    ap (λ text. before ++ text)
      (ap (λ text. text ++ codes ")" ++ newline) (append_assoc price label number)
        ∙ ap (λ text. text ++ newline) (append_assoc price (label ++ number) (codes ")"))
        ∙ append_assoc price (label ++ number ++ codes ")") newline)

-- The text that the first demo prints for its messages.
abbrev pub demo_lines : (price_text : ℕ → List ℕ) → List ℕ
demo_lines price_text =
    (codes "ADD ORDER: AAPL BUY 100 @ $" ++ price_text 1500000 ++ codes " (Ref: 100001)\n")
    ++ (codes "ADD ORDER: MSFT SELL 50 @ $" ++ price_text 3200000 ++ codes " (Ref: 100002)\n")
    ++ (codes "TRADE: GOOGL BUY 25 @ $" ++ price_text 1400000 ++ codes " (Match: 500003)\n")

module _ (price_text : ℕ → List ℕ) (now : ℕ → ℕ) (stamps : ℕ → Tsc)
    (u64 : (i : ℕ) → IsU64 (now i)) where
  aapl-Inputs : Inputs (now 0) (codes "AAPL") b'B' 100 1500000
  aapl-Inputs = record {
    now_u64 = u64 0;
    side_u8 = omega arith;
    shares_u32 = omega arith;
    price_u32 = omega arith;
    chars = omega arith;
    short = omega arith;
    unpadded = unpadded (codes "AAPL") 3 refl (omega arith);
  }

  msft-Inputs : Inputs (now 1) (codes "MSFT") b'S' 50 3200000
  msft-Inputs = record {
    now_u64 = u64 1;
    side_u8 = omega arith;
    shares_u32 = omega arith;
    price_u32 = omega arith;
    chars = omega arith;
    short = omega arith;
    unpadded = unpadded (codes "MSFT") 3 refl (omega arith);
  }

  googl-Inputs : Inputs (now 2) (codes "GOOGL") b'B' 25 1400000
  googl-Inputs = record {
    now_u64 = u64 2;
    side_u8 = omega arith;
    shares_u32 = omega arith;
    price_u32 = omega arith;
    chars = omega arith;
    short = omega arith;
    unpadded = unpadded (codes "GOOGL") 4 refl (omega arith);
  }

  -- The first demo prints a line for each of its three messages, at any time of the 64-bit clocks: the two
  -- orders, with the reference numbers 100001 and 100002, and the trade, with the match number 500003.
  pub demo_basic_parsing-lines :
      demo_basic_parsing price_text now stamps ≡ some (demo_lines price_text)
  unfolding create_add_order create_trade advance demo_basic_parsing
  demo_basic_parsing-lines =
      let line₁ =
        show-create_add_order price_text (record { seq = 0 }) (now 0) (codes "AAPL") b'B' 100
          1500000 aapl-Inputs (stamps 0) in
      let line₂ =
        show-create_add_order price_text (record { seq = 1 }) (now 1) (codes "MSFT") b'S' 50 3200000
          msft-Inputs (stamps 1) in
      let line₃ =
        show-create_trade price_text (record { seq = 2 }) (now 2) (codes "GOOGL") b'B' 25 1400000
          googl-Inputs (stamps 2) in
      let text₁ =
        as_text (codes "ADD ORDER: AAPL BUY 100 @ $") (price_text 1500000) (codes " (Ref: ")
          (codes "100001") in
      let text₂ =
        as_text (codes "ADD ORDER: MSFT SELL 50 @ $") (price_text 3200000) (codes " (Ref: ")
          (codes "100002") in
      let text₃ =
        as_text (codes "TRADE: GOOGL BUY 25 @ $") (price_text 1400000) (codes " (Match: ")
          (codes "500003") in
      rw (demo_basic_parsing, line₁, line₂, line₃)
        (ap₂ (λ a b. some (a ++ b)) (ap₂ ◌++◌ text₁ text₂) text₃)
