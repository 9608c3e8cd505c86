-- ===== src/Programs/Waiting.antt =====
-- The loop around `log` ends, since the worker thread makes room while the program yields.
use market_data_parser.Common.{
  ℕ, ◌+◌, ◌-◌, ◌^◌, ◌≤◌, ◌<◌, ◌≡◌, refl, sym, ap, ◌∙◌, Bool, true, false, Bool-cases, some, List,
  [], ◌∷◌, ◌++◌, length, inl, inr, ◌⊎◌, ◌==◌, arith,
}
use market_data_parser.Parser.{ParsedMessage}
use market_data_parser.Queue.Fifo
use market_data_parser.Logger.{Os, AsyncLogger}
use market_data_parser.Logger.Serialize.{IsConsistent}
use market_data_parser.Logger.Buffered.{bytes_of}
use market_data_parser.Logger.Sink.{Sink}
use market_data_parser.Logger.Lifecycle.{queue_bits, log}
use market_data_parser.Logger.Holding.{Holds, length-snoc, taken}
use market_data_parser.Logger.Service.{work-Holds, log-Holds}
use market_data_parser.Programs.{Turn, work_each, log_waiting}
use mathlib.Core.List.{append-nil}

-- In a turn that is not the last one, the worker thread makes an iteration.
abbrev pub IsFair : List Turn → Type 0
IsFair [] = ⊥
IsFair (turn ∷ []) = ⊥
IsFair (turn ∷ next ∷ turns) = (0 < length turn.worker) ⊎ IsFair (next ∷ turns)

length-pop : (items : List ParsedMessage) → length (Fifo.pop items).1 ≡ length items - 1
unfolding Fifo.pop
length-pop [] = refl
length-pop (msg ∷ items) = omega arith

push-full :
    (items : List ParsedMessage) (msg : ParsedMessage)
    → (Fifo.push (2 ^ queue_bits) items msg).0 ≡ false
    → (length items ≡ 2 ^ queue_bits) × ((Fifo.push (2 ^ queue_bits) items msg).1 ≡ items)
unfolding Fifo.push
push-full items msg e = elim (Bool-cases (length items == 2 ^ queue_bits)) [
  | inl full ↦ (ground (arith, full), rw full refl)
  | inr room ↦ absurd (ground (arith, room, e))
]

length-taken :
    (result : Bool) (msg : ParsedMessage) (accepted : List ParsedMessage)
    → length (bytes_of (accepted ++ taken result msg)) ≤ length (bytes_of (accepted ++ (msg ∷ [])))
length-taken true msg accepted = omega arith
length-taken false msg accepted =
    omega (arith, ap (λ xs. length (bytes_of xs)) (append-nil accepted), length-snoc accepted msg)

module _ {W : Type 0} (os : Os W) (slack : ParsedMessage → List ℕ) (sink : Sink os slack)
    (base : List ℕ) (total : ℕ) where
  work_each-Holds :
      (worker : List ℕ) (l : AsyncLogger W) (items accepted : List ParsedMessage)
      → Holds os slack sink base total l items accepted
      → total + length (bytes_of accepted) < sink.limit
      → l.queue.head + 2 ^ queue_bits < 2 ^ 63
      → (l' : AsyncLogger W) × (items' : List ParsedMessage) × (work_each os slack worker l
          ≡ some l')
        × Holds os slack sink base total l' items' accepted
        × (length items' ≡ length items - length worker)
        × (l'.queue.head ≡ l.queue.head)
        × (l'.running ≡ l.running)
  unfolding work_each
  work_each-Holds [] l items accepted h fewer far = (l, items, refl, h, omega arith, refl, refl)
  work_each-Holds (retries ∷ rest) l items accepted h fewer far =
      let (l₁, e₁, h₁, head₁, run₁) =
        work-Holds os slack sink base total accepted fewer retries l items h far in
      let (l₂, items', e₂, h₂, left, head₂, run₂) =
        work_each-Holds rest l₁ (Fifo.pop items).1 accepted h₁ fewer (omega arith) in
      (l₂, items', rw e₁ e₂, h₂, omega (arith, length-pop items), head₂ ∙ head₁, run₂ ∙ run₁)

  -- One turn of the loop.
  record Tried (turn : Turn) (msg : ParsedMessage) (l : AsyncLogger W)
      (items accepted : List ParsedMessage) (result : Bool) : Type 0 where
    asked : AsyncLogger W
    worked : AsyncLogger W
    left : List ParsedMessage
    asks : log turn.retries msg l ≡ some (result, asked)
    works : work_each os slack turn.worker asked ≡ some worked
    answer : result ≡ (Fifo.push (2 ^ queue_bits) items msg).0
    holds : Holds os slack sink base total worked left (accepted ++ taken result msg)
    room : length left ≡ length (Fifo.push (2 ^ queue_bits) items msg).1 - length turn.worker
    head_step : worked.queue.head ≤ l.queue.head + 1
    head_kept : result ≡ false → worked.queue.head ≡ l.queue.head
    running_kept : worked.running ≡ l.running

  try :
      (turn : Turn) (msg : ParsedMessage) (l : AsyncLogger W) (items accepted : List ParsedMessage)
      → Holds os slack sink base total l items accepted
      → IsConsistent msg
      → total + length (bytes_of (accepted ++ (msg ∷ []))) < sink.limit
      → l.queue.head + 1 + 2 ^ queue_bits < 2 ^ 63
      → (result : Bool) × Tried turn msg l items accepted result
  try turn msg l items accepted h consistent fewer far =
      let (result, l₁, e₁, answer, h₁, head₁, run₁, same) =
        log-Holds os slack sink base total turn.retries msg l items accepted h consistent
          (omega arith) in
      let (l₂, left, e₂, h₂, room, head₂, run₂) =
        work_each-Holds turn.worker l₁ _ _ h₁ (omega (arith, length-taken result msg accepted))
          (omega arith) in
      (
        result,
        record {
          asked = l₁;
          worked = l₂;
          left = left;
          asks = e₁;
          works = e₂;
          answer = answer;
          holds = h₂;
          room = room;
          head_step = omega arith;
          head_kept = λ refused. head₂ ∙ same refused;
          running_kept = run₂ ∙ run₁;
        },
      )

  -- A message that has waited: it is accepted, and nothing else has happened to what was accepted before.
  pub record Waited (turns : List Turn) (msg : ParsedMessage) (l : AsyncLogger W)
      (accepted : List ParsedMessage) : Type 0 where
    pub after : AsyncLogger W
    pub left : List ParsedMessage
    pub ends : log_waiting os slack turns msg l ≡ some after
    pub holds : Holds os slack sink base total after left (accepted ++ (msg ∷ []))
    pub head_step : after.queue.head ≤ l.queue.head + 1
    pub running_kept : after.running ≡ l.running

  accept :
      (turn : Turn) (turns : List Turn) (msg : ParsedMessage) (l : AsyncLogger W)
      (items accepted : List ParsedMessage)
      → Tried turn msg l items accepted true
      → Waited (turn ∷ turns) msg l accepted
  unfolding log_waiting
  accept turn turns msg l items accepted t = record {
    after = t.worked;
    left = t.left;
    ends = rw (t.asks, t.works) refl;
    holds = t.holds;
    head_step = t.head_step;
    running_kept = t.running_kept;
  }

  retry :
      (turn : Turn) (turns : List Turn) (msg : ParsedMessage) (l : AsyncLogger W)
      (items accepted : List ParsedMessage) (t : Tried turn msg l items accepted false)
      → Waited turns msg t.worked accepted
      → Waited (turn ∷ turns) msg l accepted
  unfolding log_waiting
  retry turn turns msg l items accepted t w = record {
    after = w.after;
    left = w.left;
    ends = rw (t.asks, t.works) w.ends;
    holds = w.holds;
    head_step = omega (arith, w.head_step, t.head_kept refl);
    running_kept = w.running_kept ∙ t.running_kept;
  }

  log_waiting-room :
      (turn : Turn) (turns : List Turn) (msg : ParsedMessage) (l : AsyncLogger W)
      (items accepted : List ParsedMessage)
      → Holds os slack sink base total l items accepted
      → IsConsistent msg
      → total + length (bytes_of (accepted ++ (msg ∷ []))) < sink.limit
      → l.queue.head + 1 + 2 ^ queue_bits < 2 ^ 63
      → length items < 2 ^ queue_bits
      → Waited (turn ∷ turns) msg l accepted
  log_waiting-room turn turns msg l items accepted h consistent fewer far room =
      let (result, tried) = try turn msg l items accepted h consistent fewer far in
      elim (Bool-cases result) [
        | inl taken_now ↦ accept turn turns msg l items accepted (rw taken_now at tried)
        | inr refused ↦
            let t = rw refused at tried in
            let (full, same) = push-full items msg (sym t.answer) in absurd (omega arith)
      ]

  -- The loop in which a program offers a message again until `log` accepts it, from any state of a logger in the
  -- sink's mode in which the bytes at the start and of what was accepted since are, in order, what the log
  -- has, then what is queued, and no call of the queue is under way: the loop ends, the message has been accepted, once and after those that were accepted before,
  -- in a state with the same property, the queue's head has moved by at most one, and `running_` is
  -- as before. The message has the type of the member it holds; in one of the turns that it is offered,
  -- not the last, the worker thread makes an iteration; the bytes of all accepted messages, with the total
  -- at the start, are below the limit of the write mode; and the head plus one plus the capacity is
  -- below 2^63.
  pub log_waiting-Waited :
      (turns : List Turn) (msg : ParsedMessage) (l : AsyncLogger W)
      (items accepted : List ParsedMessage)
      → IsFair turns
      → Holds os slack sink base total l items accepted
      → IsConsistent msg
      → total + length (bytes_of (accepted ++ (msg ∷ []))) < sink.limit
      → l.queue.head + 1 + 2 ^ queue_bits < 2 ^ 63
      → Waited turns msg l accepted
  log_waiting-Waited [] msg l items accepted fair h consistent fewer far = absurd fair
  log_waiting-Waited (turn ∷ []) msg l items accepted fair h consistent fewer far = absurd fair
  log_waiting-Waited (turn ∷ next ∷ turns) msg l items accepted fair h consistent fewer far =
      let (result, tried) = try turn msg l items accepted h consistent fewer far in
      elim (Bool-cases result) [
        | inl taken_now ↦ accept turn (next ∷ turns) msg l items accepted (rw taken_now at tried)
        | inr refused ↦
            let t = rw refused at tried in
            let (full, same) = push-full items msg (sym t.answer) in
            let holds = rw (append-nil accepted) at t.holds in
            let far' : t.worked.queue.head + 1 + 2 ^ queue_bits < 2 ^ 63 =
              omega (arith, t.head_kept refl) in
            retry turn (next ∷ turns) msg l items accepted t (elim fair [
              | inl works ↦
                  log_waiting-room next turns msg t.worked t.left accepted holds consistent fewer
                    far' (omega (arith, t.room, ap length same))
              | inr fair' ↦
                  log_waiting-Waited (next ∷ turns) msg t.worked t.left accepted fair' holds
                    consistent fewer far'
            ])
      ]
