-- ===== src/Programs/Demo/Messages.antt =====
-- The messages of demo_async_logging, and what `parse` makes of them.
use market_data_parser.Common.{
  ℕ, zero, suc, ◌+◌, ◌*◌, ◌%◌, ◌^◌, ◌<◌, ◌≡◌, refl, ap, Bool-cases, inl, inr, List, [], ◌∷◌, ◌++◌,
  codes, ◌==◌, if◌then◌else◌, arith,
}
use market_data_parser.Wire.Scalars.{IsU64}
use market_data_parser.Wire.ObjectLength
use market_data_parser.Parser.{Payload, add_order, trade, ParsedMessage, Tsc}
use market_data_parser.Parser.Members.{parsed, size_of}
use market_data_parser.Feed.{DemoMessageGenerator, create_add_order, create_trade, advance}
use market_data_parser.Feed.Demo.{
  Inputs, demo_add_order, demo_trade, parse-create_add_order, parse-create_trade,
}
use market_data_parser.Programs.Reads.{IsRead}
use market_data_parser.Programs.Demo.{make_message}
use market_data_parser.Programs.Demo.Printing.{unpadded}

abbrev pub with_seq : ℕ → DemoMessageGenerator
with_seq n = record { seq = n }

-- The message of the i-th round, in host order.
abbrev pub payload : (now : ℕ → ℕ) (i : ℕ) → Payload
payload now i =
    if i % 2 == 0
    then add_order
        (demo_add_order (with_seq i) (now i) (codes "TSLA") b'B' (100 + i) (2500000 + i * 100))
    else trade (demo_trade (with_seq i) (now i) (codes "NVDA") b'S' (50 + i) (5000000 + i * 100))

pub length-payload :
    (now : ℕ → ℕ) (i : ℕ) → size_of (payload now i) ≡ (if i % 2 == 0 then 38 else 46)
length-payload now i = elim (Bool-cases (i % 2 == 0)) [
  | inl even ↦ rw even refl
  | inr odd ↦ rw odd refl
]

-- The messages of the first rounds, as they are parsed.
abbrev pub messages : (now : ℕ → ℕ) (stamps : ℕ → Tsc) (n : ℕ) → List ParsedMessage
messages now stamps zero = []
messages now stamps (suc i) = messages now stamps i ++ (parsed (payload now i) (stamps i) ∷ [])

module _ (now : ℕ → ℕ) (u64 : (i : ℕ) → IsU64 (now i)) (i : ℕ) (few : i < 1000) where
  tsla-Inputs : Inputs (now i) (codes "TSLA") b'B' (100 + i) (2500000 + i * 100)
  tsla-Inputs = record {
    now_u64 = u64 i;
    side_u8 = omega arith;
    shares_u32 = omega arith;
    price_u32 = omega arith;
    chars = omega arith;
    short = omega arith;
    unpadded = unpadded (codes "TSLA") 3 refl (omega arith);
  }

  nvda-Inputs : Inputs (now i) (codes "NVDA") b'S' (50 + i) (5000000 + i * 100)
  nvda-Inputs = record {
    now_u64 = u64 i;
    side_u8 = omega arith;
    shares_u32 = omega arith;
    price_u32 = omega arith;
    chars = omega arith;
    short = omega arith;
    unpadded = unpadded (codes "NVDA") 3 refl (omega arith);
  }

  tsla-IsRead :
      let msg =
        create_add_order (with_seq i) (now i) (codes "TSLA") b'B' (100 + i) (2500000 + i * 100) in
      IsRead msg.0 (
        add_order
          (demo_add_order (with_seq i) (now i) (codes "TSLA") b'B' (100 + i) (2500000 + i * 100)))
  unfolding create_add_order
  tsla-IsRead = record {
    accepted = λ tsc.
        (parse-create_add_order (with_seq i) (now i) (codes "TSLA") b'B' (100 + i)
          (2500000 + i * 100) tsla-Inputs tsc).0;
    size = ObjectLength.add_order _;
    in_memory = ObjectLength.add_order _;
  }

  nvda-IsRead :
      let msg =
        create_trade (with_seq i) (now i) (codes "NVDA") b'S' (50 + i) (5000000 + i * 100) in
      IsRead msg.0
        (trade (demo_trade (with_seq i) (now i) (codes "NVDA") b'S' (50 + i) (5000000 + i * 100)))
  unfolding create_trade
  nvda-IsRead = record {
    accepted = λ tsc.
        (parse-create_trade (with_seq i) (now i) (codes "NVDA") b'S' (50 + i) (5000000 + i * 100)
          nvda-Inputs tsc).0;
    size = ObjectLength.trade _;
    in_memory = ObjectLength.trade _;
  }

  pub make_message-IsRead :
      IsRead (make_message (now i) i (with_seq i)).0 (payload now i)
      × ((make_message (now i) i (with_seq i)).1 ≡ with_seq (suc i))
  unfolding make_message create_add_order create_trade advance
  make_message-IsRead =
      let next = ap with_seq {x = (i + 1) % 2 ^ 32} {y = suc i} (omega arith) in
      elim (Bool-cases (i % 2 == 0)) [
        | inl even ↦ rw even (tsla-IsRead, next)
        | inr odd ↦ rw odd (nvda-IsRead, next)
      ]
