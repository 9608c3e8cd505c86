-- ===== src/Wire/MessageType.antt =====
-- `enum class MessageType : uint8_t` of include/itch_protocol.hpp. Its underlying type is fixed, so a value
-- may be any byte: `unnamed` stands for the bytes that no enumerator has.
use market_data_parser.Common.{ℕ, ◌==◌, if◌then◌else◌, ◌≡◌, ◌↔◌, refl, sym, ap, ◌∙◌, arith}

pub data MessageType : Type 0 where
  system_event : MessageType
  stock_directory : MessageType
  stock_trading_action : MessageType
  reg_sho_restriction : MessageType
  market_participant_position : MessageType
  mwcb_decline_level : MessageType
  mwcb_status : MessageType
  ipo_quoting_period : MessageType
  luld_auction_collar : MessageType
  operational_halt : MessageType
  add_order : MessageType
  add_order_mpid : MessageType
  execute_order : MessageType
  execute_order_with_price : MessageType
  order_cancel : MessageType
  order_delete : MessageType
  order_replace : MessageType
  trade : MessageType
  cross_trade : MessageType
  broken_trade : MessageType
  noii : MessageType
  rpii : MessageType
  unnamed : ℕ → MessageType

-- `static_cast<uint8_t>(type)`
unfoldable pub to_byte : MessageType → ℕ
to_byte system_event = b'S'
to_byte stock_directory = b'R'
to_byte stock_trading_action = b'H'
to_byte reg_sho_restriction = b'Y'
to_byte market_participant_position = b'L'
to_byte mwcb_decline_level = b'V'
to_byte mwcb_status = b'W'
to_byte ipo_quoting_period = b'K'
to_byte luld_auction_collar = b'J'
to_byte operational_halt = b'h'
to_byte add_order = b'A'
to_byte add_order_mpid = b'F'
to_byte execute_order = b'E'
to_byte execute_order_with_price = b'C'
to_byte order_cancel = b'X'
to_byte order_delete = b'D'
to_byte order_replace = b'U'
to_byte trade = b'P'
to_byte cross_trade = b'Q'
to_byte broken_trade = b'B'
to_byte noii = b'I'
to_byte rpii = b'N'
to_byte (unnamed b) = b

-- `static_cast<MessageType>(b)`
unfoldable pub from_byte : ℕ → MessageType
from_byte b =
    if b == b'S'
    then system_event
    else if b == b'R'
    then stock_directory
    else if b == b'H'
    then stock_trading_action
    else if b == b'Y'
    then reg_sho_restriction
    else if b == b'L'
    then market_participant_position
    else if b == b'V'
    then mwcb_decline_level
    else if b == b'W'
    then mwcb_status
    else if b == b'K'
    then ipo_quoting_period
    else if b == b'J'
    then luld_auction_collar
    else if b == b'h'
    then operational_halt
    else if b == b'A'
    then add_order
    else if b == b'F'
    then add_order_mpid
    else if b == b'E'
    then execute_order
    else if b == b'C'
    then execute_order_with_price
    else if b == b'X'
    then order_cancel
    else if b == b'D'
    then order_delete
    else if b == b'U'
    then order_replace
    else if b == b'P'
    then trade
    else if b == b'Q'
    then cross_trade
    else if b == b'B'
    then broken_trade
    else if b == b'I'
    then noii
    else if b == b'N'
    then rpii
    else unnamed b

-- The enumerators, with no byte that has no name.
abbrev pub IsNamed : MessageType → Type 0
IsNamed (unnamed b) = ⊥
IsNamed _ = Unit

pub to_byte-from_byte : (b : ℕ) → to_byte (from_byte b) ≡ b
unfolding to_byte from_byte
to_byte-from_byte b = ground arith

from_byte-named : (t : MessageType) → IsNamed t → from_byte (to_byte t) ≡ t
unfolding to_byte from_byte
from_byte-named (unnamed b) h = absurd h
from_byte-named _ h = refl

-- A byte is the code of an enumerator exactly if the cast to MessageType gives that enumerator. So no two
-- of the 22 enumerators have one code.
pub from_byte-to_byte : (t : MessageType) (b : ℕ) → IsNamed t → (to_byte t ≡ b) ↔ (from_byte b ≡ t)
from_byte-to_byte t b h =
    (λ e. ap from_byte (sym e) ∙ from_byte-named t h, λ e. ap to_byte (sym e) ∙ to_byte-from_byte b)
