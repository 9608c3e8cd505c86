-- ===== src/Feed/Stamp.antt =====
-- The time stamp of the demo's messages: `get_itch_timestamp` of src/demo.cpp.
use market_data_parser.Common.{ℕ, ◌+◌, ◌%◌, ◌*◌, ◌^◌, ◌≤◌, ◌<◌, ◌≡◌, ◌≢◌, arith}
use market_data_parser.Wire.Scalars.{IsU64}
use market_data_parser.Feed.{day, get_itch_timestamp}

pub get_itch_timestamp-IsU64 : (now : ℕ) → IsU64 (get_itch_timestamp now)
unfolding get_itch_timestamp
get_itch_timestamp-IsU64 now = omega arith

-- From the second day of 1970 on it is the time since 1970 less a day.
get_itch_timestamp_lem : (now : ℕ) → day ≤ now → now < 2 ^ 63 → get_itch_timestamp now + day ≡ now
unfolding get_itch_timestamp
get_itch_timestamp_lem now later few = omega arith

-- From the third day of 1970 on it is never the time since midnight.
get_itch_timestamp-midnight :
    (now : ℕ) → 2 * day ≤ now → now < 2 ^ 63 → get_itch_timestamp now ≢ now % day
get_itch_timestamp-midnight now later few e =
    let less = get_itch_timestamp_lem now (omega arith) few in absurd (omega arith)
