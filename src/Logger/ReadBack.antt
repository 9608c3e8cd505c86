-- ===== src/Logger/ReadBack.antt =====
-- A reader of the log: the first byte of a record tells its type, and with it its struct and its length.
use market_data_parser.Common.{
  ℕ, zero, suc, ◌+◌, ◌^◌, ◌<◌, ◌≡◌, refl, ap, ◌∙◌, List, [], ◌∷◌, ◌++◌, length, get_or, All,
  All-append, drop, drop-append, Option, none, some,
}
use market_data_parser.Common.Bytes.{Pointer, IsMemory, address}
use market_data_parser.Wire.MessageType.{MessageType, to_byte, from_byte}
use market_data_parser.Wire.Overlay
use market_data_parser.Wire.Object
use market_data_parser.Wire.OverlayObject
use market_data_parser.Parser.{
  Payload, add_order, execute_order, execute_with_price, order_cancel, order_delete, order_replace,
  trade, system_event, stock_directory, ParsedMessage, Tsc, parse,
}
use market_data_parser.Parser.Members.{type_of, header_of, IsTagged, IsInRange}
use market_data_parser.Parser.Accepts.{parse-some}
use market_data_parser.Logger.{member_bytes, type_size, Os, AsyncLogger, WriteMode, worker_loop}
use market_data_parser.Logger.Serialize.{IsConsistent, length-member_bytes}
use market_data_parser.Logger.Buffered.{bytes_of, received, Appends}
use market_data_parser.Logger.Worker.{worker_loop-bytes_of}

-- The struct of the type laid over the bytes, in host order as they are.
abbrev pub overlay_as : MessageType → Pointer → Option Payload
overlay_as MessageType.add_order p = some (add_order (Overlay.add_order p))
overlay_as MessageType.execute_order p = some (execute_order (Overlay.execute_order p))
overlay_as MessageType.execute_order_with_price p =
    some (execute_with_price (Overlay.execute_with_price p))
overlay_as MessageType.order_cancel p = some (order_cancel (Overlay.order_cancel p))
overlay_as MessageType.order_delete p = some (order_delete (Overlay.order_delete p))
overlay_as MessageType.order_replace p = some (order_replace (Overlay.order_replace p))
overlay_as MessageType.trade p = some (trade (Overlay.trade p))
overlay_as MessageType.system_event p = some (system_event (Overlay.system_event p))
overlay_as MessageType.stock_directory p = some (stock_directory (Overlay.stock_directory p))
overlay_as _ p = none

abbrev prepend : Option Payload → List Payload → List Payload
prepend none rest = []
prepend (some p) rest = p ∷ rest

-- The first `n` records, up to one of an unknown type.
unfoldable pub read_log : ℕ → List ℕ → List Payload
read_log zero bytes = []
read_log (suc n) bytes =
    let type = from_byte (get_or bytes 0 0) in
    prepend (overlay_as type (address bytes)) (read_log n (drop (type_size type) bytes))

abbrev pub payloads : List ParsedMessage → List Payload
payloads [] = []
payloads (msg ∷ rest) = msg.payload ∷ payloads rest

-- What `parse` ensures of a message that it accepts.
pub record IsAccepted (msg : ParsedMessage) : Type 0 where
  pub consistent : IsConsistent msg
  pub tagged : IsTagged msg.payload
  pub in_range : IsInRange msg.payload

pub parse-IsAccepted :
    (p : Pointer) (length : ℕ) (tsc : Tsc) (m : ParsedMessage)
    → IsMemory p
    → parse p length tsc ≡ some m
    → IsAccepted m
parse-IsAccepted p length tsc m h e =
    let (filled, tag, range, bytes) = parse-some p length tsc m h e in
    record {
      consistent = ap (λ (m : ParsedMessage). m.type) filled;
      tagged = tag;
      in_range = range;
    }

overlay_as-member_bytes :
    (p : Payload) (rest : List ℕ)
    → IsInRange p
    → overlay_as (type_of p) (address (member_bytes p ++ rest)) ≡ some p
overlay_as-member_bytes (add_order m) rest r =
    ap (λ x. some (add_order x)) (OverlayObject.add_order m rest r)
overlay_as-member_bytes (execute_order m) rest r =
    ap (λ x. some (execute_order x)) (OverlayObject.execute_order m rest r)
overlay_as-member_bytes (execute_with_price m) rest r =
    ap (λ x. some (execute_with_price x)) (OverlayObject.execute_with_price m rest r)
overlay_as-member_bytes (order_cancel m) rest r =
    ap (λ x. some (order_cancel x)) (OverlayObject.order_cancel m rest r)
overlay_as-member_bytes (order_delete m) rest r =
    ap (λ x. some (order_delete x)) (OverlayObject.order_delete m rest r)
overlay_as-member_bytes (order_replace m) rest r =
    ap (λ x. some (order_replace x)) (OverlayObject.order_replace m rest r)
overlay_as-member_bytes (trade m) rest r = ap (λ x. some (trade x)) (OverlayObject.trade m rest r)
overlay_as-member_bytes (system_event m) rest r =
    ap (λ x. some (system_event x)) (OverlayObject.system_event m rest r)
overlay_as-member_bytes (stock_directory m) rest r =
    ap (λ x. some (stock_directory x)) (OverlayObject.stock_directory m rest r)

-- The first byte of a record is the type byte of the header.
first_byte-type_of :
    (p : Payload) (rest : List ℕ) → get_or (member_bytes p ++ rest) 0 0 ≡ (header_of p).message_type
unfolding Object.header Object.add_order Object.execute_order Object.execute_with_price
    Object.order_cancel Object.order_delete Object.order_replace Object.trade Object.system_event
    Object.stock_directory
first_byte-type_of (add_order m) rest = refl
first_byte-type_of _ rest = refl

from_byte-type_of : (p : Payload) → from_byte (to_byte (type_of p)) ≡ type_of p
from_byte-type_of (add_order m) = unfold from_byte to_byte in refl
from_byte-type_of _ = unfold from_byte to_byte in refl

read_log-member_bytes :
    (p : Payload) (n : ℕ) (rest : List ℕ)
    → IsTagged p
    → IsInRange p
    → read_log (suc n) (member_bytes p ++ rest) ≡ p ∷ read_log n rest
unfolding read_log
read_log-member_bytes p n rest tag range =
    let bytes = member_bytes p ++ rest in
    let type : from_byte (get_or bytes 0 0) ≡ type_of p =
      ap from_byte (first_byte-type_of p rest ∙ tag) ∙ from_byte-type_of p in
    let next : drop (type_size (type_of p)) bytes ≡ rest =
      rw (← length-member_bytes p) (drop-append (member_bytes p) rest) in
    rw (read_log, type, overlay_as-member_bytes p rest range, next) refl

pub read_log-bytes_of :
    (msgs : List ParsedMessage)
    → All IsAccepted msgs
    → read_log (length msgs) (bytes_of msgs) ≡ payloads msgs
read_log-bytes_of [] h = unfold read_log in refl
read_log-bytes_of (msg ∷ msgs) h =
    read_log-member_bytes msg.payload (length msgs) (bytes_of msgs) h.0.tagged h.0.in_range
    ∙ ap (λ ps. msg.payload ∷ ps) (read_log-bytes_of msgs h.1)

pub IsAccepted-IsConsistent :
    (msgs : List ParsedMessage) → All IsAccepted msgs → All IsConsistent msgs
IsAccepted-IsConsistent [] h = tt
IsAccepted-IsConsistent (msg ∷ msgs) h = (h.0.consistent, IsAccepted-IsConsistent msgs h.1)

module _ {W : Type 0} (os : Os W) (slack : ParsedMessage → List ℕ) (file : W → List ℕ)
    (a : Appends os file) where
  -- In BUFFERED mode, where every write succeeds in full, the log is read back: from an empty file and an
  -- empty buffer, the worker thread and the final flush end without an exception, and the file, cut into
  -- records by the type in the first byte of each, holds the payloads of the messages that were taken from
  -- the queue, in order, to its end. The messages are of the kind that `parse` gives, and their bytes
  -- are fewer than 2^64 together with the total before.
  pub read_log-worker_loop :
      (l : AsyncLogger W) (polled : List (Option ParsedMessage)) (left : List ParsedMessage)
      → l.write_mode ≡ WriteMode.buffered
      → l.buffer_offset ≡ 0
      → file l.world ≡ []
      → All IsAccepted (received polled)
      → All IsAccepted left
      → l.total_written + length (bytes_of (received polled ++ left)) < 2 ^ 64
      → (l' : AsyncLogger W) × (worker_loop os slack l polled left ≡ some l')
        × (read_log (length (received polled ++ left)) (file l'.world)
            ≡ payloads (received polled ++ left))
        × (length (file l'.world) ≡ length (bytes_of (received polled ++ left)))
  read_log-worker_loop l polled left m start fresh h h' far =
      let (l', e, contents, total, off) =
        worker_loop-bytes_of os slack file a l polled left m start
          (IsAccepted-IsConsistent (received polled) h) (IsAccepted-IsConsistent left h') far in
      let whole : file l'.world ≡ bytes_of (received polled ++ left) =
        contents ∙ ap (λ xs. xs ++ bytes_of (received polled ++ left)) fresh in
      (
        l',
        e,
        ap (read_log (length (received polled ++ left))) whole
            ∙ read_log-bytes_of (received polled ++ left)
                (All-append IsAccepted (received polled) left h h'),
        ap length whole,
      )
