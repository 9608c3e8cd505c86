-- ===== src/Logger/Recorded.antt =====
-- From the wire to the log: packets are parsed, what the parser accepts is logged, and the file is read back.
use market_data_parser.Common.{
  ℕ, ◌+◌, ◌*◌, ◌^◌, ◌≤◌, ◌<◌, ◌≡◌, refl, ap, ap₂, ◌∙◌, false, none, some, List, [], ◌∷◌, length,
  length-append, inl, inr, Option-cases, All, arith,
}
use market_data_parser.Common.Bytes.{Pointer, IsMemory, bytes_at}
use market_data_parser.Parser.{Payload, ParsedMessage, Tsc, parse}
use market_data_parser.Parser.Members.{wire_format}
use market_data_parser.Parser.Accepts.{parse-some}
use market_data_parser.Logger.{Os, AsyncLogger, member_bytes}
use market_data_parser.Logger.Serialize.{length-get_message_size, get_message_size-le}
use market_data_parser.Logger.Buffered.{bytes_of}
use market_data_parser.Logger.ReadBack.{
  read_log, payloads, IsAccepted, parse-IsAccepted, read_log-bytes_of, IsAccepted-IsConsistent,
}
use market_data_parser.Logger.Lifecycle.{queue_bits, Event, logs, works, is_negative, open_flags}
use market_data_parser.Logger.Events.{offered}
use market_data_parser.Logger.Stopping.{IsStopped, IsFile}
use market_data_parser.Logger.Session.{Served, session-offered}

-- The arguments of a call of `parse`, with the registers of its time stamp.
pub record Packet : Type 0 where
  pub bytes : Pointer
  pub length : ℕ
  pub tsc : Tsc

-- A packet arrives, or the worker thread makes an iteration.
pub data Arrival : Type 0 where
  arrives : (retries : ℕ) → Packet → Arrival
  idles : (retries : ℕ) → Arrival

-- A packet that the parser accepts is logged, another one is dropped.
abbrev pub log_parsed : List Arrival → List Event
log_parsed [] = []
log_parsed (arrives retries p ∷ rest) = elim (parse p.bytes p.length p.tsc) [
  | some msg ↦ logs retries msg ∷ log_parsed rest
  | none ↦ log_parsed rest
]
log_parsed (idles retries ∷ rest) = works retries ∷ log_parsed rest

-- The bytes of each packet that the parser accepts.
abbrev pub accepted_bytes : List Arrival → List (List ℕ)
accepted_bytes [] = []
accepted_bytes (arrives retries p ∷ rest) = elim (parse p.bytes p.length p.tsc) [
  | some msg ↦ bytes_at p.bytes 0 p.length ∷ accepted_bytes rest
  | none ↦ accepted_bytes rest
]
accepted_bytes (idles retries ∷ rest) = accepted_bytes rest

abbrev pub wire_formats : List Payload → List (List ℕ)
wire_formats [] = []
wire_formats (payload ∷ rest) = wire_format payload ∷ wire_formats rest

abbrev pub AreMemory : List Arrival → Type 0
AreMemory [] = Unit
AreMemory (arrives retries p ∷ rest) = IsMemory p.bytes × AreMemory rest
AreMemory (idles retries ∷ rest) = AreMemory rest

-- What the parser makes of a feed.
record Recorded (events : List Event) (packets : List (List ℕ)) (n : ℕ) : Type 0 where
  accepted : All IsAccepted (offered events)
  formats : wire_formats (payloads (offered events)) ≡ packets
  few : length events ≤ n
  small : length (bytes_of (offered events)) ≤ n * 46

recorded :
    (arrivals : List Arrival)
    → AreMemory arrivals
    → Recorded (log_parsed arrivals) (accepted_bytes arrivals) (length arrivals)
recorded [] memory = record {
  accepted = tt;
  formats = refl;
  few = omega arith;
  small = omega arith;
}
recorded (idles retries ∷ rest) memory =
    let r = recorded rest memory in
    record {
      accepted = r.accepted;
      formats = r.formats;
      few = omega (arith, r.few);
      small = omega (arith, r.small);
    }
recorded (arrives retries p ∷ rest) memory =
    let r = recorded rest memory.1 in
    elim (Option-cases (parse p.bytes p.length p.tsc)) [
      | inl rejected ↦
          rw (log_parsed, accepted_bytes, rejected)
            (record {
              accepted = r.accepted;
              formats = r.formats;
              few = omega (arith, r.few);
              small = omega (arith, r.small);
            })
      | inr found ↦
          let (msg, e) = found in
          let good = parse-IsAccepted p.bytes p.length p.tsc msg memory.0 e in
          let (filled, tag, range, bytes) = parse-some p.bytes p.length p.tsc msg memory.0 e in
          let size = length-get_message_size msg good.consistent in
          let apart =
            length-append (member_bytes msg.payload) (bytes_of (offered (log_parsed rest))) in
          rw (log_parsed, accepted_bytes, e)
            (record {
              accepted = (good, r.accepted);
              formats = ap₂ (λ bs bss. bs ∷ bss) bytes r.formats;
              few = omega (arith, r.few);
              small = omega (arith, r.small, size, get_message_size-le msg, apart);
            })
    ]

module _ {W : Type 0} (os : Os W) (slack : ParsedMessage → List ℕ) (file : W → List ℕ)
    (d : IsFile os file) where
  -- Packets are parsed and what is accepted is logged, with iterations of the worker thread in between, by
  -- a logger in BUFFERED mode that is new or stopped, where the file can be opened and every write
  -- succeeds in full. Everything from `start` to `stop` ends without an exception, and the file, read back as
  -- records, has for each packet that the parser accepts, in their order, a message whose wire format
  -- is the bytes of the packet, and nothing else. There are no more packets and iterations than the queue
  -- has slots, the packets consist of bytes, the positions of the queue stay below 2^63, 46 bytes
  -- for each and the total before stay below 2^64, and the fuel for the last loop is more than the
  -- capacity of the queue.
  pub read_log-log_parsed :
      (l : AsyncLogger W) (arrivals : List Arrival) (fuel : ℕ) (retries : ℕ → ℕ)
      → IsStopped l
      → is_negative (os.open_file l.filename (open_flags l.write_mode) l.world).0 ≡ false
      → AreMemory arrivals
      → length arrivals ≤ 2 ^ queue_bits
      → l.queue.head + length arrivals + 2 ^ queue_bits < 2 ^ 63
      → l.total_written + length arrivals * 46 < 2 ^ 64
      → 2 ^ queue_bits < fuel
      → (accepted : List ParsedMessage) × (s : Served os slack file d l
          (log_parsed arrivals)
          fuel
          retries
          accepted)
        × (wire_formats (read_log (length accepted) (file s.final.world)) ≡ accepted_bytes arrivals)
        × (length (file s.final.world) ≡ length (bytes_of accepted))
  read_log-log_parsed l arrivals fuel retries stopped opens memory few far fewer enough =
      let r = recorded arrivals memory in
      let events = log_parsed arrivals in
      let consistent = IsAccepted-IsConsistent (offered events) r.accepted in
      let s =
        session-offered os slack file d l events fuel retries stopped opens consistent
          (omega (arith, r.few)) (omega (arith, r.small)) enough (omega (arith, r.few)) in
      (
        offered events,
        s,
        ap (λ bs. wire_formats (read_log (length (offered events)) bs)) s.contents
            ∙ ap wire_formats (read_log-bytes_of (offered events) r.accepted)
            ∙ r.formats,
        ap length s.contents,
      )
