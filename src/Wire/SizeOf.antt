-- ===== src/Wire/SizeOf.antt =====
-- `sizeof` of the packed structs of include/itch_protocol.hpp: no padding, so the sum of the widths.
use market_data_parser.Common.{ℕ, ◌+◌}

abbrev pub header : ℕ
header = 1 + 2 + 2 + 8

abbrev pub add_order : ℕ
add_order = header + 8 + 1 + 4 + 8 + 4

abbrev pub execute_order : ℕ
execute_order = header + 8 + 4 + 8

abbrev pub execute_with_price : ℕ
execute_with_price = header + 8 + 4 + 8 + 1 + 4

abbrev pub order_cancel : ℕ
order_cancel = header + 8 + 4

abbrev pub order_delete : ℕ
order_delete = header + 8

abbrev pub order_replace : ℕ
order_replace = header + 8 + 8 + 4 + 4

abbrev pub trade : ℕ
trade = header + 8 + 1 + 4 + 8 + 4 + 8

abbrev pub system_event : ℕ
system_event = header + 1

abbrev pub stock_directory : ℕ
stock_directory = header + 8 + 1 + 1 + 4 + 1 + 1 + 2 + 1 + 1 + 1 + 1 + 1 + 4 + 1
