-- ===== src/Logger/Events.antt =====
-- What the events of a session do, one after the other.
use market_data_parser.Common.{
  ℕ, ◌+◌, ◌^◌, ◌≤◌, ◌<◌, ◌≡◌, refl, ap, ◌∙◌, Bool, true, false, some, List, [], ◌∷◌, ◌++◌, length,
  All, length-append, arith, ◌==◌,
}
use market_data_parser.Parser.{ParsedMessage}
use market_data_parser.Queue.Fifo
use market_data_parser.Logger.{Os, AsyncLogger, member_bytes}
use market_data_parser.Logger.Serialize.{IsConsistent}
use market_data_parser.Logger.Buffered.{bytes_of}
use market_data_parser.Logger.Sink.{Sink}
use market_data_parser.Logger.Worker.{bytes_of-append}
use market_data_parser.Logger.Lifecycle.{queue_bits, Event, logs, works, act, session}
use market_data_parser.Logger.Holding.{Holds, taken}
use market_data_parser.Logger.Service.{work-Holds, log-Holds}
use mathlib.Core.List.{append-nil, append_assoc}

-- The messages that are passed to `log`.
abbrev pub offered : List Event → List ParsedMessage
offered [] = []
offered (logs retries msg ∷ events) = msg ∷ offered events
offered (works retries ∷ events) = offered events

length-bytes_of :
    (xs ys : List ParsedMessage)
    → length (bytes_of (xs ++ ys)) ≡ length (bytes_of xs) + length (bytes_of ys)
length-bytes_of xs ys =
    ap length (bytes_of-append xs ys) ∙ length-append (bytes_of xs) (bytes_of ys)

length-taken :
    (result : Bool) (msg : ParsedMessage)
    → length (bytes_of (taken result msg)) ≤ length (member_bytes msg.payload)
length-taken true msg = omega (arith, length-append (member_bytes msg.payload) [])
length-taken false msg = omega arith

length-pop : (items : List ParsedMessage) → length (Fifo.pop items).1 ≤ length items
unfolding Fifo.pop
length-pop [] = omega arith
length-pop (msg ∷ items) = omega arith

push-room :
    (items : List ParsedMessage) (msg : ParsedMessage)
    → length items < 2 ^ queue_bits
    → Fifo.push (2 ^ queue_bits) items msg ≡ (true, items ++ (msg ∷ []))
unfolding Fifo.push
push-room items msg room =
    let some_room : (length items == 2 ^ queue_bits) ≡ false = ground arith in rw some_room refl

module _ {W : Type 0} (os : Os W) (slack : ParsedMessage → List ℕ) (sink : Sink os slack)
    (base : List ℕ) (total : ℕ) where
  pub session-Holds :
      (events : List Event) (l : AsyncLogger W) (items accepted : List ParsedMessage)
      → Holds os slack sink base total l items accepted
      → All IsConsistent (offered events)
      → l.queue.head + length events + 2 ^ queue_bits < 2 ^ 63
      → total + length (bytes_of accepted) + length (bytes_of (offered events)) < sink.limit
      → (more : List ParsedMessage) × (l' : AsyncLogger W) × (items' : List ParsedMessage)
        × (session os slack events l ≡ some (more, l'))
        × Holds os slack sink base total l' items' (accepted ++ more)
        × (l'.queue.head ≤ l.queue.head + length events)
        × (l'.running ≡ l.running)
        × (length (bytes_of more) ≤ length (bytes_of (offered events)))
        × (length items + length events ≤ 2 ^ queue_bits → more ≡ offered events)
  unfolding session act Fifo.push Fifo.pop
  session-Holds [] l items accepted h c far fewer =
      ([], l, items, refl, rw (append-nil accepted) h, omega arith, refl, omega arith, λ few. refl)
  session-Holds (works retries ∷ events) l items accepted h c far fewer =
      let (l₁, e₁, h₁, head₁, run₁) =
        work-Holds os slack sink base total accepted (omega arith) retries l items h
          (omega arith) in
      let (more, l₂, items', e₂, h₂, head₂, run₂, le, all) =
        session-Holds events l₁ (Fifo.pop items).1 accepted h₁ c (omega arith) fewer in
      (
        more,
        l₂,
        items',
        rw (e₁, e₂) refl,
        h₂,
        omega arith,
        run₂ ∙ run₁,
        le,
        λ few. all (omega (arith, length-pop items)),
      )
  session-Holds (logs retries msg ∷ events) l items accepted h c far fewer =
      let (result, l₁, e₁, answer, h₁, head₁, run₁, same) =
        log-Holds os slack sink base total retries msg l items accepted h c.0 (omega arith) in
      let part = length-taken result msg in
      let offers = length-append (member_bytes msg.payload) (bytes_of (offered events)) in
      let longer = length-bytes_of accepted (taken result msg) in
      let (more, l₂, items', e₂, h₂, head₂, run₂, le, all) =
        session-Holds events l₁ (Fifo.push (2 ^ queue_bits) items msg).1
          (accepted ++ taken result msg) h₁ c.1 (omega arith) (omega arith) in
      let whole = length-bytes_of (taken result msg) more in
      (
        taken result msg ++ more,
        l₂,
        items',
        rw (e₁, e₂) refl,
        rw (append_assoc accepted (taken result msg) more) at h₂,
        omega arith,
        run₂ ∙ run₁,
        omega arith,
        λ few.
            let room = push-room items msg (omega arith) in
            let answered : result ≡ true = answer ∙ ap (λ r. r.0) room in
            ap (λ b. taken b msg ++ more) answered
            ∙ ap (λ ms. msg ∷ ms)
                (all (omega (arith, ap (λ r. length r.1) room, length-append items (msg ∷ [])))),
      )
