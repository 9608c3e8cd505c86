-- ===== src/Programs/Reads.antt =====
-- Lists of messages in buffers, as the programs generate them, with what `parse` makes of each.
use market_data_parser.Common.{ℕ, ◌+◌, ◌≡◌, some, List, [], ◌∷◌, ◌++◌, length, length-append, arith}
use market_data_parser.Common.Bytes.{address}
use market_data_parser.Parser.{Payload, ParsedMessage, Tsc, parse}
use market_data_parser.Parser.Members.{parsed, size_of}
use market_data_parser.Logger.{member_bytes}
use market_data_parser.Logger.Buffered.{bytes_of}
use market_data_parser.Logger.Holding as Holding

pub record IsRead (msg : List ℕ) (b : Payload) : Type 0 where
  pub accepted : (tsc : Tsc) → parse (address msg) (length msg) tsc ≡ some (parsed b tsc)
  pub size : length msg ≡ size_of b
  pub in_memory : length (member_bytes b) ≡ size_of b

abbrev pub Reads : List (List ℕ) → List Payload → Type 0
Reads [] [] = Unit
Reads (msg ∷ messages) (b ∷ bs) = IsRead msg b × Reads messages bs
Reads _ _ = ⊥

pub Reads-snoc :
    (messages : List (List ℕ)) (bs : List Payload) (msg : List ℕ) (b : Payload)
    → Reads messages bs
    → IsRead msg b
    → Reads (messages ++ (msg ∷ [])) (bs ++ (b ∷ []))
Reads-snoc [] [] msg b h r = (r, tt)
Reads-snoc [] (c ∷ bs) msg b h r = absurd h
Reads-snoc (m ∷ messages) [] msg b h r = absurd h
Reads-snoc (m ∷ messages) (c ∷ bs) msg b h r = (h.0, Reads-snoc messages bs msg b h.1 r)

-- The bytes of the messages, all together.
abbrev pub sizes : List Payload → ℕ
sizes [] = 0
sizes (b ∷ bs) = size_of b + sizes bs

pub sizes-snoc : (bs : List Payload) (b : Payload) → sizes (bs ++ (b ∷ [])) ≡ sizes bs + size_of b
sizes-snoc [] b = omega arith
sizes-snoc (c ∷ bs) b = omega (arith, sizes-snoc bs b)

pub length-snoc : (bs : List Payload) (b : Payload) → length (bs ++ (b ∷ [])) ≡ length bs + 1
length-snoc [] b = omega arith
length-snoc (c ∷ bs) b = omega (arith, length-snoc bs b)

-- The parsed messages, from the i-th on, each with the time at which it was parsed.
abbrev pub stamped : (stamps : ℕ → Tsc) (i : ℕ) → List Payload → List ParsedMessage
stamped stamps i [] = []
stamped stamps i (b ∷ bs) = parsed b (stamps i) ∷ stamped stamps (i + 1) bs

pub length-bytes_of-stamped :
    (stamps : ℕ → Tsc) (i : ℕ) (messages : List (List ℕ)) (bs : List Payload)
    → Reads messages bs
    → length (bytes_of (stamped stamps i bs)) ≡ sizes bs
length-bytes_of-stamped stamps i [] [] h = omega arith
length-bytes_of-stamped stamps i [] (b ∷ bs) h = absurd h
length-bytes_of-stamped stamps i (msg ∷ messages) [] h = absurd h
length-bytes_of-stamped stamps i (msg ∷ messages) (b ∷ bs) h = omega (
  arith,
  h.0.in_memory,
  length-append (member_bytes b) (bytes_of (stamped stamps (i + 1) bs)),
  length-bytes_of-stamped stamps (i + 1) messages bs h.1,
)

-- One more message that is logged.
pub length-logged :
    (accepted : List ParsedMessage) (b : Payload) (tsc : Tsc)
    → length (bytes_of (accepted ++ (parsed b tsc ∷ [])))
      ≡ length (bytes_of accepted) + length (member_bytes b)
length-logged accepted b tsc =
    omega (arith, Holding.length-snoc accepted (parsed b tsc), length-append (member_bytes b) [])
