-- ===== src/Parser/Struct.antt =====
-- What the parser knows of each message struct: its layout, its conversion and its wire format, with their
-- laws. The theorems on `parse` are proved once, for any such struct.
use market_data_parser.Common.{ℕ, List, ◌++◌, ◌≡◌, sym, ap, ◌∙◌, ◌<◌, arith}
use market_data_parser.Common.Bytes.{Pointer, IsMemory, address, bytes_at, bytes_at_agree}

pub record Struct : Type 1 where
  pub Value : Type 0
  pub width : ℕ
  pub IsInRange : Value → Type 0
  pub overlay : Pointer → Value
  pub object : Value → List ℕ
  pub format : Value → List ℕ
  pub to_host : Value → Value
  pub overlay-object :
      (m : Value) (rest : List ℕ) → IsInRange m → overlay (address (object m ++ rest)) ≡ m
  pub object-overlay : (p : Pointer) → IsMemory p → object (overlay p) ≡ bytes_at p 0 width
  pub overlay-IsInRange : (p : Pointer) → IsMemory p → IsInRange (overlay p)
  pub overlay-bytes : (p : Pointer) → overlay (address (bytes_at p 0 width)) ≡ overlay p
  pub to_host-to_host : (m : Value) → IsInRange m → to_host (to_host m) ≡ m
  pub to_host-IsInRange : (m : Value) → IsInRange m → IsInRange (to_host m)
  pub object-to_host : (m : Value) → object (to_host m) ≡ format m

module _ (s : Struct) where
  open s use {
    Value, width, IsInRange, overlay, object, format, to_host, overlay-object, object-overlay,
    overlay-IsInRange, overlay-bytes, to_host-to_host, to_host-IsInRange, object-to_host,
  }

  -- What a `parse_*` member makes of the bytes at `p`.
  abbrev pub decode : Pointer → Value
  decode p = to_host (overlay p)

  pub decode-format :
      (m : Value) (rest : List ℕ) → IsInRange m → decode (address (format m ++ rest)) ≡ m
  decode-format m rest r =
      ap (λ bs. decode (address (bs ++ rest))) (sym (object-to_host m))
      ∙ ap to_host (overlay-object (to_host m) rest (to_host-IsInRange m r))
      ∙ to_host-to_host m r

  pub format-decode : (p : Pointer) → IsMemory p → format (decode p) ≡ bytes_at p 0 width
  format-decode p h =
      sym (object-to_host (decode p))
      ∙ ap object (to_host-to_host (overlay p) (overlay-IsInRange p h))
      ∙ object-overlay p h

  pub decode-IsInRange : (p : Pointer) → IsMemory p → IsInRange (decode p)
  decode-IsInRange p h = to_host-IsInRange (overlay p) (overlay-IsInRange p h)

  pub decode_agree : (p q : Pointer) → ((i : ℕ) → i < width → p i ≡ q i) → decode p ≡ decode q
  decode_agree p q h = ap to_host (
      sym (overlay-bytes p)
      ∙ ap (λ bs. overlay (address bs)) (bytes_at_agree p q 0 width (λ i lo hi. h i (omega arith)))
      ∙ overlay-bytes q)
