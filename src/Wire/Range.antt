-- ===== src/Wire/Range.antt =====
-- The values that the fields of the structs of include/itch_protocol.hpp can hold.
use market_data_parser.Common.Chars.{IsChars}
use market_data_parser.Wire.Scalars.{IsU8, IsU16, IsU32, IsU64}
use market_data_parser.Wire.Messages
use market_data_parser.Wire.Messages.{MessageHeader}

pub record Header (m : MessageHeader) : Type 0 where
  pub message_type : IsU8 m.message_type
  pub stock_locate : IsU16 m.stock_locate
  pub tracking_number : IsU16 m.tracking_number
  pub timestamp : IsU64 m.timestamp

pub record AddOrder (m : Messages.AddOrderMessage) : Type 0 where
  pub header : Header m.header
  pub order_reference_number : IsU64 m.order_reference_number
  pub buy_sell_indicator : IsU8 m.buy_sell_indicator
  pub shares : IsU32 m.shares
  pub stock : IsChars 8 m.stock
  pub price : IsU32 m.price

pub record ExecuteOrder (m : Messages.ExecuteOrderMessage) : Type 0 where
  pub header : Header m.header
  pub order_reference_number : IsU64 m.order_reference_number
  pub executed_shares : IsU32 m.executed_shares
  pub match_number : IsU64 m.match_number

pub record ExecuteOrderWithPrice (m : Messages.ExecuteOrderWithPriceMessage) : Type 0 where
  pub header : Header m.header
  pub order_reference_number : IsU64 m.order_reference_number
  pub executed_shares : IsU32 m.executed_shares
  pub match_number : IsU64 m.match_number
  pub printable : IsU8 m.printable
  pub execution_price : IsU32 m.execution_price

pub record OrderCancel (m : Messages.OrderCancelMessage) : Type 0 where
  pub header : Header m.header
  pub order_reference_number : IsU64 m.order_reference_number
  pub cancelled_shares : IsU32 m.cancelled_shares

pub record OrderDelete (m : Messages.OrderDeleteMessage) : Type 0 where
  pub header : Header m.header
  pub order_reference_number : IsU64 m.order_reference_number

pub record OrderReplace (m : Messages.OrderReplaceMessage) : Type 0 where
  pub header : Header m.header
  pub original_order_reference_number : IsU64 m.original_order_reference_number
  pub new_order_reference_number : IsU64 m.new_order_reference_number
  pub shares : IsU32 m.shares
  pub price : IsU32 m.price

pub record Trade (m : Messages.TradeMessage) : Type 0 where
  pub header : Header m.header
  pub order_reference_number : IsU64 m.order_reference_number
  pub buy_sell_indicator : IsU8 m.buy_sell_indicator
  pub shares : IsU32 m.shares
  pub stock : IsChars 8 m.stock
  pub price : IsU32 m.price
  pub match_number : IsU64 m.match_number

pub record SystemEvent (m : Messages.SystemEventMessage) : Type 0 where
  pub header : Header m.header
  pub event_code : IsU8 m.event_code

pub record StockDirectory (m : Messages.StockDirectoryMessage) : Type 0 where
  pub header : Header m.header
  pub stock : IsChars 8 m.stock
  pub market_category : IsU8 m.market_category
  pub financial_status_indicator : IsU8 m.financial_status_indicator
  pub round_lot_size : IsU32 m.round_lot_size
  pub round_lots_only : IsU8 m.round_lots_only
  pub issue_classification : IsU8 m.issue_classification
  pub issue_sub_type : IsChars 2 m.issue_sub_type
  pub authenticity : IsU8 m.authenticity
  pub short_sale_threshold_indicator : IsU8 m.short_sale_threshold_indicator
  pub ipo_flag : IsU8 m.ipo_flag
  pub luld_reference_price_tier : IsU8 m.luld_reference_price_tier
  pub etp_flag : IsU8 m.etp_flag
  pub etp_leverage_factor : IsU32 m.etp_leverage_factor
  pub inverse_indicator : IsU8 m.inverse_indicator
