-- ===== src/Wire/ObjectOverlay.antt =====
-- The bytes of a struct that was laid over memory are the bytes of that memory: nothing is lost.
use market_data_parser.Common.{◌≡◌, [], ◌∷◌, ◌++◌}
use market_data_parser.Common.Bytes.{Pointer, IsMemory, bytes_at}
use market_data_parser.Wire.Scalars.{store16-load16, store32-load32, store64-load64}
use market_data_parser.Wire.SizeOf
use market_data_parser.Wire.Overlay
use market_data_parser.Wire.Object

pub header :
    (p : Pointer) → IsMemory p → Object.header (Overlay.header p) ≡ bytes_at p 0 SizeOf.header
unfolding Overlay.header Object.header
header p h =
    λ i. (p 0 ∷ []) ++ store16-load16 p 1 h i ++ store16-load16 p 3 h i ++ store64-load64 p 5 h i

pub add_order :
    (p : Pointer)
    → IsMemory p
    → Object.add_order (Overlay.add_order p) ≡ bytes_at p 0 SizeOf.add_order
unfolding Overlay.add_order Object.add_order
add_order p h = λ i.
    header p h i
    ++ store64-load64 p 13 h i
    ++ (p 21 ∷ [])
    ++ store32-load32 p 22 h i
    ++ bytes_at p 26 8
    ++ store32-load32 p 34 h i

pub execute_order :
    (p : Pointer)
    → IsMemory p
    → Object.execute_order (Overlay.execute_order p) ≡ bytes_at p 0 SizeOf.execute_order
unfolding Overlay.execute_order Object.execute_order
execute_order p h = λ i.
    header p h i ++ store64-load64 p 13 h i ++ store32-load32 p 21 h i ++ store64-load64 p 25 h i

pub execute_with_price :
    (p : Pointer)
    → IsMemory p
    → Object.execute_with_price (Overlay.execute_with_price p)
      ≡ bytes_at p 0 SizeOf.execute_with_price
unfolding Overlay.execute_with_price Object.execute_with_price
execute_with_price p h = λ i.
    header p h i
    ++ store64-load64 p 13 h i
    ++ store32-load32 p 21 h i
    ++ store64-load64 p 25 h i
    ++ (p 33 ∷ [])
    ++ store32-load32 p 34 h i

pub order_cancel :
    (p : Pointer)
    → IsMemory p
    → Object.order_cancel (Overlay.order_cancel p) ≡ bytes_at p 0 SizeOf.order_cancel
unfolding Overlay.order_cancel Object.order_cancel
order_cancel p h = λ i. header p h i ++ store64-load64 p 13 h i ++ store32-load32 p 21 h i

pub order_delete :
    (p : Pointer)
    → IsMemory p
    → Object.order_delete (Overlay.order_delete p) ≡ bytes_at p 0 SizeOf.order_delete
unfolding Overlay.order_delete Object.order_delete
order_delete p h = λ i. header p h i ++ store64-load64 p 13 h i

pub order_replace :
    (p : Pointer)
    → IsMemory p
    → Object.order_replace (Overlay.order_replace p) ≡ bytes_at p 0 SizeOf.order_replace
unfolding Overlay.order_replace Object.order_replace
order_replace p h = λ i.
    header p h i
    ++ store64-load64 p 13 h i
    ++ store64-load64 p 21 h i
    ++ store32-load32 p 29 h i
    ++ store32-load32 p 33 h i

pub trade : (p : Pointer) → IsMemory p → Object.trade (Overlay.trade p) ≡ bytes_at p 0 SizeOf.trade
unfolding Overlay.trade Object.trade
trade p h = λ i.
    header p h i
    ++ store64-load64 p 13 h i
    ++ (p 21 ∷ [])
    ++ store32-load32 p 22 h i
    ++ bytes_at p 26 8
    ++ store32-load32 p 34 h i
    ++ store64-load64 p 38 h i

pub system_event :
    (p : Pointer)
    → IsMemory p
    → Object.system_event (Overlay.system_event p) ≡ bytes_at p 0 SizeOf.system_event
unfolding Overlay.system_event Object.system_event
system_event p h = λ i. header p h i ++ (p 13 ∷ [])

pub stock_directory :
    (p : Pointer)
    → IsMemory p
    → Object.stock_directory (Overlay.stock_directory p) ≡ bytes_at p 0 SizeOf.stock_directory
unfolding Overlay.stock_directory Object.stock_directory
stock_directory p h = λ i.
    header p h i
    ++ bytes_at p 13 8
    ++ (p 21 ∷ [])
    ++ (p 22 ∷ [])
    ++ store32-load32 p 23 h i
    ++ (p 27 ∷ [])
    ++ (p 28 ∷ [])
    ++ bytes_at p 29 2
    ++ (p 31 ∷ [])
    ++ (p 32 ∷ [])
    ++ (p 33 ∷ [])
    ++ (p 34 ∷ [])
    ++ (p 35 ∷ [])
    ++ store32-load32 p 36 h i
    ++ (p 40 ∷ [])
