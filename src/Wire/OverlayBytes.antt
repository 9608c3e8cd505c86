-- ===== src/Wire/OverlayBytes.antt =====
-- A struct laid over memory depends only on the bytes up to its size.
use market_data_parser.Common.{◌≡◌, refl}
use market_data_parser.Common.Bytes.{Pointer, address, bytes_at}
use market_data_parser.Wire.SizeOf
use market_data_parser.Wire.Overlay

pub add_order :
    (p : Pointer)
    → Overlay.add_order (address (bytes_at p 0 SizeOf.add_order)) ≡ Overlay.add_order p
unfolding Overlay.add_order
add_order p = refl

pub execute_order :
    (p : Pointer)
    → Overlay.execute_order (address (bytes_at p 0 SizeOf.execute_order)) ≡ Overlay.execute_order p
unfolding Overlay.execute_order
execute_order p = refl

pub execute_with_price :
    (p : Pointer)
    → Overlay.execute_with_price (address (bytes_at p 0 SizeOf.execute_with_price))
      ≡ Overlay.execute_with_price p
unfolding Overlay.execute_with_price
execute_with_price p = refl

pub order_cancel :
    (p : Pointer)
    → Overlay.order_cancel (address (bytes_at p 0 SizeOf.order_cancel)) ≡ Overlay.order_cancel p
unfolding Overlay.order_cancel
order_cancel p = refl

pub order_delete :
    (p : Pointer)
    → Overlay.order_delete (address (bytes_at p 0 SizeOf.order_delete)) ≡ Overlay.order_delete p
unfolding Overlay.order_delete
order_delete p = refl

pub order_replace :
    (p : Pointer)
    → Overlay.order_replace (address (bytes_at p 0 SizeOf.order_replace)) ≡ Overlay.order_replace p
unfolding Overlay.order_replace
order_replace p = refl

pub trade : (p : Pointer) → Overlay.trade (address (bytes_at p 0 SizeOf.trade)) ≡ Overlay.trade p
unfolding Overlay.trade
trade p = refl

pub system_event :
    (p : Pointer)
    → Overlay.system_event (address (bytes_at p 0 SizeOf.system_event)) ≡ Overlay.system_event p
unfolding Overlay.system_event
system_event p = refl

pub stock_directory :
    (p : Pointer)
    → Overlay.stock_directory (address (bytes_at p 0 SizeOf.stock_directory))
      ≡ Overlay.stock_directory p
unfolding Overlay.stock_directory
stock_directory p = refl
