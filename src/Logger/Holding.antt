-- ===== src/Logger/Holding.antt =====
-- A logger between `start` and `stop`, whose messages go to a sink: what has been accepted is there or in
-- the queue.
use market_data_parser.Common.{
  ℕ, ◌+◌, ◌≡◌, sym, ap, ◌∙◌, Bool, List, [], ◌∷◌, ◌++◌, length, All, length-append, arith,
  if◌then◌else◌,
}
use market_data_parser.Parser.{ParsedMessage}
use market_data_parser.Queue.{MpmcQueue}
use market_data_parser.Queue.Quiet.{IsQuiet, contents}
use market_data_parser.Logger.{Os, AsyncLogger}
use market_data_parser.Logger.Serialize.{IsConsistent}
use market_data_parser.Logger.Buffered.{bytes_of}
use market_data_parser.Logger.Sink.{Sent, Sink}
use market_data_parser.Logger.Worker.{bytes_of-append}
use market_data_parser.Logger.Lifecycle.{queue_bits}
use mathlib.Core.List.{append_assoc}

pub in_order-snoc :
    (before base : List ℕ) (items accepted : List ParsedMessage) (msg : ParsedMessage)
    → before ++ bytes_of items ≡ base ++ bytes_of accepted
    → before ++ bytes_of (items ++ (msg ∷ [])) ≡ base ++ bytes_of (accepted ++ (msg ∷ []))
in_order-snoc before base items accepted msg e =
    let last = bytes_of (msg ∷ []) in
    ap (λ bs. before ++ bs) (bytes_of-append items (msg ∷ []))
    ∙ sym (append_assoc before (bytes_of items) last)
    ∙ ap (λ bs. bs ++ last) e
    ∙ append_assoc base (bytes_of accepted) last
    ∙ ap (λ bs. base ++ bs) (sym (bytes_of-append accepted (msg ∷ [])))

pub length-snoc :
    (xs : List ParsedMessage) (x : ParsedMessage)
    → length (bytes_of (xs ++ (x ∷ []))) ≡ length (bytes_of xs) + length (bytes_of (x ∷ []))
length-snoc xs x =
    ap length (bytes_of-append xs (x ∷ [])) ∙ length-append (bytes_of xs) (bytes_of (x ∷ []))

-- The messages that an answer of `log` accepts.
abbrev pub taken : Bool → ParsedMessage → List ParsedMessage
taken result msg = if result then msg ∷ [] else []

module _ {W : Type 0} (os : Os W) (slack : ParsedMessage → List ℕ) (sink : Sink os slack)
    (base : List ℕ) (total : ℕ) where
  -- `base` was logged and `total` counted when the logger was started; since then the messages `accepted`
  -- have been accepted, of which `items` are still in the queue.
  pub record Holds (l : AsyncLogger W) (items accepted : List ParsedMessage) : Type 0 where
    pub quiet : IsQuiet queue_bits l.queue
    pub state : sink.IsGood l
    pub queued : contents queue_bits l.queue ≡ items
    pub consistent : All IsConsistent items
    pub sent : List ℕ
    pub all_logged : sink.Logged l sent
    pub in_order : sent ++ bytes_of items ≡ base ++ bytes_of accepted
    pub counts : sink.counted l + length (bytes_of items) ≡ total + length (bytes_of accepted)

  -- Another state of the queue, and of `running_`, that holds the messages `items'`.
  pub requeued :
      (l : AsyncLogger W) (q : MpmcQueue ParsedMessage) (running : Bool)
      (items items' accepted accepted' : List ParsedMessage) (h : Holds l items accepted)
      → IsQuiet queue_bits q
      → contents queue_bits q ≡ items'
      → All IsConsistent items'
      → h.sent ++ bytes_of items' ≡ base ++ bytes_of accepted'
      → sink.counted l + length (bytes_of items') ≡ total + length (bytes_of accepted')
      → Holds (record l { queue = q; running = running }) items' accepted'
  requeued l q running items items' accepted accepted' h quiet e tags order counts =
      let f = sink.framed l q running h.state in
      record {
        quiet = quiet;
        state = f.state;
        queued = e;
        consistent = tags;
        sent = h.sent;
        all_logged = f.contents h.sent h.all_logged;
        in_order = order;
        counts = omega (arith, f.counts, counts);
      }

  -- Bytes have been sent, of messages that are not in the queue any more.
  pub moved :
      (l l' : AsyncLogger W) (q : MpmcQueue ParsedMessage)
      (sent items accepted : List ParsedMessage)
      → Holds l (sent ++ items) accepted
      → All IsConsistent items
      → IsQuiet queue_bits q
      → contents queue_bits q ≡ items
      → Sent sink.IsGood sink.Logged sink.counted (record l { queue = q }) l' (bytes_of sent)
      → Holds l' items accepted
  moved l l' q sent items accepted h tags quiet e w =
      let f = sink.framed l q l.running h.state in
      let apart = bytes_of-append sent items in
      record {
        quiet = rw w.queue_kept quiet;
        state = w.state;
        queued = rw w.queue_kept e;
        consistent = tags;
        sent = h.sent ++ bytes_of sent;
        all_logged = w.contents h.sent (f.contents h.sent h.all_logged);
        in_order =
            append_assoc h.sent (bytes_of sent) (bytes_of items)
            ∙ ap (λ bs. h.sent ++ bs) (sym apart)
            ∙ h.in_order;
        counts = omega (
          arith,
          w.counts,
          f.counts,
          h.counts,
          ap length apart,
          length-append (bytes_of sent) (bytes_of items),
        );
      }
