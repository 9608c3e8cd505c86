-- ===== src/Wire/Messages.antt =====
-- The packed structs of include/itch_protocol.hpp, in memory of the host. A `uintN_t` is a number; its
-- range is a predicate (Wire/Range.antt). A `std::array<char, N>` is a tuple of N bytes.
use market_data_parser.Common.{ℕ}
use market_data_parser.Common.Chars.{Chars}

-- `struct ITCHMessageHeader`
pub record MessageHeader : Type 0 where
  pub message_type : ℕ  -- uint8_t
  pub stock_locate : ℕ  -- uint16_t
  pub tracking_number : ℕ  -- uint16_t
  pub timestamp : ℕ  -- uint64_t

-- `struct AddOrderMessage`
pub record AddOrderMessage : Type 0 where
  pub header : MessageHeader
  pub order_reference_number : ℕ  -- uint64_t
  pub buy_sell_indicator : ℕ  -- uint8_t
  pub shares : ℕ  -- uint32_t
  pub stock : Chars 8
  pub price : ℕ  -- uint32_t

-- `struct ExecuteOrderMessage`
pub record ExecuteOrderMessage : Type 0 where
  pub header : MessageHeader
  pub order_reference_number : ℕ  -- uint64_t
  pub executed_shares : ℕ  -- uint32_t
  pub match_number : ℕ  -- uint64_t

-- `struct ExecuteOrderWithPriceMessage`
pub record ExecuteOrderWithPriceMessage : Type 0 where
  pub header : MessageHeader
  pub order_reference_number : ℕ  -- uint64_t
  pub executed_shares : ℕ  -- uint32_t
  pub match_number : ℕ  -- uint64_t
  pub printable : ℕ  -- uint8_t
  pub execution_price : ℕ  -- uint32_t

-- `struct OrderCancelMessage`
pub record OrderCancelMessage : Type 0 where
  pub header : MessageHeader
  pub order_reference_number : ℕ  -- uint64_t
  pub cancelled_shares : ℕ  -- uint32_t

-- `struct OrderDeleteMessage`
pub record OrderDeleteMessage : Type 0 where
  pub header : MessageHeader
  pub order_reference_number : ℕ  -- uint64_t

-- `struct OrderReplaceMessage`
pub record OrderReplaceMessage : Type 0 where
  pub header : MessageHeader
  pub original_order_reference_number : ℕ  -- uint64_t
  pub new_order_reference_number : ℕ  -- uint64_t
  pub shares : ℕ  -- uint32_t
  pub price : ℕ  -- uint32_t

-- `struct TradeMessage`
pub record TradeMessage : Type 0 where
  pub header : MessageHeader
  pub order_reference_number : ℕ  -- uint64_t
  pub buy_sell_indicator : ℕ  -- uint8_t
  pub shares : ℕ  -- uint32_t
  pub stock : Chars 8
  pub price : ℕ  -- uint32_t
  pub match_number : ℕ  -- uint64_t

-- `struct SystemEventMessage`
pub record SystemEventMessage : Type 0 where
  pub header : MessageHeader
  pub event_code : ℕ  -- uint8_t

-- `struct StockDirectoryMessage`
pub record StockDirectoryMessage : Type 0 where
  pub header : MessageHeader
  pub stock : Chars 8
  pub market_category : ℕ  -- uint8_t
  pub financial_status_indicator : ℕ  -- uint8_t
  pub round_lot_size : ℕ  -- uint32_t
  pub round_lots_only : ℕ  -- uint8_t
  pub issue_classification : ℕ  -- uint8_t
  pub issue_sub_type : Chars 2
  pub authenticity : ℕ  -- uint8_t
  pub short_sale_threshold_indicator : ℕ  -- uint8_t
  pub ipo_flag : ℕ  -- uint8_t
  pub luld_reference_price_tier : ℕ  -- uint8_t
  pub etp_flag : ℕ  -- uint8_t
  pub etp_leverage_factor : ℕ  -- uint32_t
  pub inverse_indicator : ℕ  -- uint8_t
