-- ===== src/Feed/ReadBack.antt =====
-- Buffers that hold one message, and the header that the generators give it.
use market_data_parser.Common.{ℕ, ◌≡◌, ap, ◌∙◌, some, List, [], ◌++◌, length, All, sym}
use market_data_parser.Common.Bytes.{IsByte, address, address-IsMemory}
use market_data_parser.Common.Chars.{of_list, IsChars, load_chars-IsChars}
use market_data_parser.Wire.MessageType.{MessageType, to_byte}
use market_data_parser.Wire.Messages.{MessageHeader}
use mathlib.Core.List.{append-nil}
use market_data_parser.Parser.{Payload, Tsc, parse}
use market_data_parser.Parser.ReadsFormat.{parse-wire_format}
use market_data_parser.Parser.Members.{wire_format, IsInRange, IsTagged, size_of, parsed}
use market_data_parser.Feed.{u16}

-- The header of the message that a generator makes with its counter at `seq`.
abbrev pub demo_header : MessageType → (seq now : ℕ) → MessageHeader
demo_header type seq now = record {
  message_type = to_byte type;
  stock_locate = 1;
  tracking_number = u16 seq;
  timestamp = now;
}

-- A buffer that holds the wire format of a message, and nothing else, is read back as the message.
pub read_back :
    (b : Payload) {msg : List ℕ}
    → msg ≡ wire_format b
    → length msg ≡ size_of b
    → (tsc : Tsc) → IsInRange b
    → IsTagged b
    → parse (address msg) (length msg) tsc ≡ some (parsed b tsc)
read_back b {msg} e size tsc r t = rw size (
    ap (λ bs. parse (address bs) (size_of b) tsc) (sym (append-nil msg) ∙ ap (λ bs. bs ++ []) e)
    ∙ parse-wire_format b [] tsc r t)

pub of_list-IsChars : (n : ℕ) (xs : List ℕ) → All IsByte xs → IsChars n (of_list n xs)
of_list-IsChars n xs h = load_chars-IsChars n (address xs) 0 (address-IsMemory xs h)
