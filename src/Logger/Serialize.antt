-- ===== src/Logger/Serialize.antt =====
-- What `serialize_message` writes, and that `get_message_size` is its length.
use market_data_parser.Common.{
  ℕ, zero, suc, ◌+◌, ◌-◌, ◌≤◌, ◌<◌, ◌≡◌, refl, ap, ap₂, ◌∙◌, List, [], ◌∷◌, ◌++◌, length, take,
  get_or, take-append, arith, leb, ltb, true, ◌&&◌,
}
use market_data_parser.Common.Bytes.{bytes_at, bytes_at_agree}
use market_data_parser.Wire.ObjectLength
use market_data_parser.Wire.MessageType.{MessageType}
use market_data_parser.Parser.{
  Payload, add_order, execute_order, execute_with_price, order_cancel, order_delete, order_replace,
  trade, system_event, stock_directory, ParsedMessage,
}
use market_data_parser.Parser.Members.{type_of}
use market_data_parser.Logger.{
  copied, copy, member_bytes, type_size, get_message_size, serialize_message,
}

-- The type of the message is that of the member of its union that is held.
abbrev pub IsConsistent : ParsedMessage → Type 0
IsConsistent msg = msg.type ≡ type_of msg.payload

pub length-member_bytes : (p : Payload) → length (member_bytes p) ≡ type_size (type_of p)
length-member_bytes (add_order m) = ObjectLength.add_order m
length-member_bytes (execute_order m) = ObjectLength.execute_order m
length-member_bytes (execute_with_price m) = ObjectLength.execute_with_price m
length-member_bytes (order_cancel m) = ObjectLength.order_cancel m
length-member_bytes (order_delete m) = ObjectLength.order_delete m
length-member_bytes (order_replace m) = ObjectLength.order_replace m
length-member_bytes (trade m) = ObjectLength.trade m
length-member_bytes (system_event m) = ObjectLength.system_event m
length-member_bytes (stock_directory m) = ObjectLength.stock_directory m

take-member_bytes : (xs ys : List ℕ) (n : ℕ) → length xs ≡ n → take n (xs ++ ys) ≡ xs
take-member_bytes xs ys n e = rw (← e) (take-append xs ys)

copied-type_of :
    (p : Payload) (slack : List ℕ) → copied (type_of p) (member_bytes p ++ slack) ≡ member_bytes p
copied-type_of (add_order m) s = take-member_bytes _ s _ (ObjectLength.add_order m)
copied-type_of (execute_order m) s = take-member_bytes _ s _ (ObjectLength.execute_order m)
copied-type_of (execute_with_price m) s =
    take-member_bytes _ s _ (ObjectLength.execute_with_price m)
copied-type_of (order_cancel m) s = take-member_bytes _ s _ (ObjectLength.order_cancel m)
copied-type_of (order_delete m) s = take-member_bytes _ s _ (ObjectLength.order_delete m)
copied-type_of (order_replace m) s = take-member_bytes _ s _ (ObjectLength.order_replace m)
copied-type_of (trade m) s = take-member_bytes _ s _ (ObjectLength.trade m)
copied-type_of (system_event m) s = take-member_bytes _ s _ (ObjectLength.system_event m)
copied-type_of (stock_directory m) s = take-member_bytes _ s _ (ObjectLength.stock_directory m)

-- A tagged message is copied as the bytes of its member, and no other byte.
pub copied-member_bytes :
    (msg : ParsedMessage) (slack : List ℕ)
    → IsConsistent msg
    → copied msg.type (member_bytes msg.payload ++ slack) ≡ member_bytes msg.payload
copied-member_bytes msg slack e = rw e (copied-type_of msg.payload slack)

pub length-get_message_size :
    (msg : ParsedMessage)
    → IsConsistent msg
    → length (member_bytes msg.payload) ≡ get_message_size msg
unfolding get_message_size
length-get_message_size msg e = rw e (length-member_bytes msg.payload)

type_size-le : (type : MessageType) → type_size type ≤ 46
type_size-le MessageType.add_order = omega arith
type_size-le type = omega arith

pub get_message_size-le : (msg : ParsedMessage) → get_message_size msg ≤ 46
unfolding get_message_size
get_message_size-le msg = type_size-le msg.type

pub bytes_at-split :
    (p : ℕ → ℕ) (o n k : ℕ) → bytes_at p o (n + k) ≡ bytes_at p o n ++ bytes_at p (o + n) k
bytes_at-split p o zero k = ap₂ (λ a b. bytes_at p a b) (omega arith) (omega arith)
bytes_at-split p o (suc n) k =
    let longer : suc n + k ≡ suc (n + k) = omega arith in
    let further : o + 1 + n ≡ o + suc n = omega arith in
    rw (longer, ← further) (ap (λ bs. p o ∷ bs) (bytes_at-split p (o + 1) n k))

bytes_at-get_or :
    (p : ℕ → ℕ) (o : ℕ) (bs : List ℕ)
    → ((i : ℕ) → i < length bs → p (o + i) ≡ get_or bs i 0)
    → bytes_at p o (length bs) ≡ bs
bytes_at-get_or p o [] h = refl
bytes_at-get_or p o (b ∷ bs) h =
    ap₂ ◌∷◌ (ap p (omega arith) ∙ h 0 (omega arith))
      (bytes_at-get_or p (o + 1) bs (λ i lt. ap p (omega arith) ∙ h (suc i) (omega arith)))

-- What is before the destination stays, and the bytes follow it.
pub bytes_at-copy :
    (memory : ℕ → ℕ) (dest : ℕ) (bytes : List ℕ)
    → bytes_at (copy memory dest bytes) 0 (dest + length bytes) ≡ bytes_at memory 0 dest ++ bytes
bytes_at-copy memory dest bytes =
    bytes_at-split (copy memory dest bytes) 0 dest (length bytes)
    ∙ ap₂ ◌++◌ (bytes_at_agree (copy memory dest bytes) memory 0 dest (λ i lo hi. ground arith)) (
        bytes_at-get_or (copy memory dest bytes) (0 + dest) bytes (λ i lt.
          let offset : 0 + dest + i - dest ≡ i = omega arith in
          let within : (leb dest (0 + dest + i) && ltb (0 + dest + i) (dest + length bytes))
              ≡ true =
            ground arith in
          rw (within, offset) refl))

-- `serialize_message` writes the bytes of the message's struct from the destination on, as many as
-- `get_message_size` says, and nothing before or after them, whatever the rest of the union holds. The
-- message has the type of the union's member that it holds.
pub serialize_message-member_bytes :
    (slack : ParsedMessage → List ℕ) (memory : ℕ → ℕ) (dest : ℕ) (msg : ParsedMessage)
    → IsConsistent msg
    → (bytes_at (serialize_message slack memory dest msg) 0 (dest + get_message_size msg)
        ≡ bytes_at memory 0 dest ++ member_bytes msg.payload)
      × ((i : ℕ)
          → serialize_message slack memory dest msg (dest + get_message_size msg + i)
            ≡ memory (dest + get_message_size msg + i))
unfolding serialize_message
serialize_message-member_bytes slack memory dest msg tag =
    let bytes = copied-member_bytes msg (slack msg) tag in
    let size = length-get_message_size msg tag in
    (
      rw (bytes, ← size) (bytes_at-copy memory dest (member_bytes msg.payload)),
      λ i. rw bytes (ground (arith, size)),
    )
