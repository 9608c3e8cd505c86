-- ===== src/Parser/Stamp.antt =====
-- The time stamp of a parsed message: `get_timestamp_ns` of include/itch_parser.hpp.
use market_data_parser.Common.{◌+◌, ◌*◌, ◌^◌, ◌≡◌, arith}
use market_data_parser.Common.Bits.{bit_or-shifted}
use market_data_parser.Wire.Scalars.{IsU32, IsU64}
use market_data_parser.Parser.{Tsc, get_timestamp_ns}

-- With both register halves 32 bits wide, the stamp is the 64-bit counter: the shift loses no bit
-- and the `|` is a sum.
pub get_timestamp_ns_lem :
    (tsc : Tsc)
    → IsU32 tsc.lo
    → IsU32 tsc.hi
    → (get_timestamp_ns tsc ≡ tsc.hi * 2 ^ 32 + tsc.lo) × IsU64 (get_timestamp_ns tsc)
unfolding get_timestamp_ns
get_timestamp_ns_lem tsc lo hi = ground (arith, bit_or-shifted 32 (tsc.hi) tsc.lo lo)
