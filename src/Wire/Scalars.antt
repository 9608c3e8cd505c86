-- ===== src/Wire/Scalars.antt =====
-- The scalar fields of include/itch_protocol.hpp: their ranges, their loads and stores on a
-- little-endian host, and the byte order conversions `ntoh16`, `ntoh32`, `ntoh64`.
use market_data_parser.Common.{ℕ, ◌^◌, ◌<◌, ◌≡◌, refl, List}
use market_data_parser.Common.Bytes.{
  Pointer, IsMemory, bytes_at, bytes_at-IsByte, of_le, to_le, of_le-to_le, of_le-lt, to_le-of_le,
  bswap, to_be, of_be, bswap-of_le, to_le-bswap, bswap-bswap, bswap-lt,
}

abbrev pub IsU8 : ℕ → Type 0
IsU8 x = x < 2 ^ 8

abbrev pub IsU16 : ℕ → Type 0
IsU16 x = x < 2 ^ 16

abbrev pub IsU32 : ℕ → Type 0
IsU32 x = x < 2 ^ 32

abbrev pub IsU64 : ℕ → Type 0
IsU64 x = x < 2 ^ 64

abbrev pub load16 : Pointer → ℕ → ℕ
load16 p o = of_le (bytes_at p o 2)

abbrev pub load32 : Pointer → ℕ → ℕ
load32 p o = of_le (bytes_at p o 4)

abbrev pub load64 : Pointer → ℕ → ℕ
load64 p o = of_le (bytes_at p o 8)

abbrev pub store16 : ℕ → List ℕ
store16 = to_le 2

abbrev pub store32 : ℕ → List ℕ
store32 = to_le 4

abbrev pub store64 : ℕ → List ℕ
store64 = to_le 8

unfoldable pub ntoh16 : ℕ → ℕ
ntoh16 x = bswap 2 x

unfoldable pub ntoh32 : ℕ → ℕ
ntoh32 x = bswap 4 x

unfoldable pub ntoh64 : ℕ → ℕ
ntoh64 x = bswap 8 x

pub load16-IsU16 : (p : Pointer) (o : ℕ) → IsMemory p → IsU16 (load16 p o)
load16-IsU16 p o h = of_le-lt (bytes_at p o 2) (bytes_at-IsByte p h o 2)

pub load32-IsU32 : (p : Pointer) (o : ℕ) → IsMemory p → IsU32 (load32 p o)
load32-IsU32 p o h = of_le-lt (bytes_at p o 4) (bytes_at-IsByte p h o 4)

pub load64-IsU64 : (p : Pointer) (o : ℕ) → IsMemory p → IsU64 (load64 p o)
load64-IsU64 p o h = of_le-lt (bytes_at p o 8) (bytes_at-IsByte p h o 8)

-- A load after a store, and a store after a load.
pub of_le-store16 : (x : ℕ) → IsU16 x → of_le (store16 x) ≡ x
of_le-store16 x h = of_le-to_le 2 x h

pub of_le-store32 : (x : ℕ) → IsU32 x → of_le (store32 x) ≡ x
of_le-store32 x h = of_le-to_le 4 x h

pub of_le-store64 : (x : ℕ) → IsU64 x → of_le (store64 x) ≡ x
of_le-store64 x h = of_le-to_le 8 x h

pub store16-load16 : (p : Pointer) (o : ℕ) → IsMemory p → store16 (load16 p o) ≡ bytes_at p o 2
store16-load16 p o h = to_le-of_le (bytes_at p o 2) (bytes_at-IsByte p h o 2)

pub store32-load32 : (p : Pointer) (o : ℕ) → IsMemory p → store32 (load32 p o) ≡ bytes_at p o 4
store32-load32 p o h = to_le-of_le (bytes_at p o 4) (bytes_at-IsByte p h o 4)

pub store64-load64 : (p : Pointer) (o : ℕ) → IsMemory p → store64 (load64 p o) ≡ bytes_at p o 8
store64-load64 p o h = to_le-of_le (bytes_at p o 8) (bytes_at-IsByte p h o 8)

-- The byte order conversions undo themselves, and a converted number is stored big-endian.
pub ntoh16-ntoh16 : (x : ℕ) → IsU16 x → ntoh16 (ntoh16 x) ≡ x
unfolding ntoh16
ntoh16-ntoh16 x h = bswap-bswap 2 x h

pub ntoh32-ntoh32 : (x : ℕ) → IsU32 x → ntoh32 (ntoh32 x) ≡ x
unfolding ntoh32
ntoh32-ntoh32 x h = bswap-bswap 4 x h

pub ntoh64-ntoh64 : (x : ℕ) → IsU64 x → ntoh64 (ntoh64 x) ≡ x
unfolding ntoh64
ntoh64-ntoh64 x h = bswap-bswap 8 x h

pub ntoh16-IsU16 : (x : ℕ) → IsU16 (ntoh16 x)
unfolding ntoh16
ntoh16-IsU16 x = bswap-lt 2 x

pub ntoh32-IsU32 : (x : ℕ) → IsU32 (ntoh32 x)
unfolding ntoh32
ntoh32-IsU32 x = bswap-lt 4 x

pub ntoh64-IsU64 : (x : ℕ) → IsU64 (ntoh64 x)
unfolding ntoh64
ntoh64-IsU64 x = bswap-lt 8 x

pub store16-ntoh16 : (x : ℕ) → store16 (ntoh16 x) ≡ to_be 2 x
unfolding ntoh16
store16-ntoh16 x = to_le-bswap 2 x

pub store32-ntoh32 : (x : ℕ) → store32 (ntoh32 x) ≡ to_be 4 x
unfolding ntoh32
store32-ntoh32 x = to_le-bswap 4 x

pub store64-ntoh64 : (x : ℕ) → store64 (ntoh64 x) ≡ to_be 8 x
unfolding ntoh64
store64-ntoh64 x = to_le-bswap 8 x

-- Of a number on the wire, at any address, a load and the conversion make the number that its bytes
-- stand for, highest byte first; the host's order has no part in it.
pub ntoh-load :
    (p : Pointer) (o : ℕ)
    → IsMemory p
    → (ntoh16 (load16 p o) ≡ of_be (bytes_at p o 2))
      × (ntoh32 (load32 p o) ≡ of_be (bytes_at p o 4))
      × (ntoh64 (load64 p o) ≡ of_be (bytes_at p o 8))
unfolding ntoh16 ntoh32 ntoh64
ntoh-load p o h = (
  bswap-of_le 2 (bytes_at p o 2) refl (bytes_at-IsByte p h o 2),
  bswap-of_le 4 (bytes_at p o 4) refl (bytes_at-IsByte p h o 4),
  bswap-of_le 8 (bytes_at p o 8) refl (bytes_at-IsByte p h o 8),
)
