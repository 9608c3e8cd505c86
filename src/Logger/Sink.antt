-- ===== src/Logger/Sink.antt =====
-- Where the logger puts messages: what the threads around the queue need of write_message and flush,
-- whatever the mode.
use market_data_parser.Common.{
  ℕ, ◌+◌, ◌<◌, ◌≡◌, ◌∙◌, subst, Bool, some, List, [], ◌++◌, length, length-append, arith,
}
use mathlib.Core.List.{append_assoc}
use market_data_parser.Parser.{ParsedMessage}
use market_data_parser.Queue.{MpmcQueue}
use market_data_parser.Logger.{Os, AsyncLogger, flush, write_message, member_bytes}
use market_data_parser.Logger.Serialize.{IsConsistent}

module _ {W : Type 0} (IsGood : AsyncLogger W → Type 0) (Logged : AsyncLogger W → List ℕ → Type 0)
    (counted : AsyncLogger W → ℕ) where
  -- From `l` to `l'`, `bytes` have been added to what is logged, and the queue is as it was.
  pub record Sent (l l' : AsyncLogger W) (bytes : List ℕ) : Type 0 where
    pub state : IsGood l'
    pub queue_kept : l'.queue ≡ l.queue
    pub running_kept : l'.running ≡ l.running
    pub contents : (before : List ℕ) → Logged l before → Logged l' (before ++ bytes)
    pub counts : counted l' ≡ counted l + length bytes

  -- Nothing that concerns the sink has changed.
  pub record Framed (l l' : AsyncLogger W) : Type 0 where
    pub state : IsGood l'
    pub contents : (before : List ℕ) → Logged l before → Logged l' before
    pub counts : counted l' ≡ counted l

module _ {W : Type 0} (IsGood : AsyncLogger W → Type 0) (Logged : AsyncLogger W → List ℕ → Type 0)
    (counted : AsyncLogger W → ℕ) where
  pub Sent-trans :
      {l l' l'' : AsyncLogger W} {xs ys : List ℕ}
      → Sent IsGood Logged counted l l' xs
      → Sent IsGood Logged counted l' l'' ys
      → Sent IsGood Logged counted l l'' (xs ++ ys)
  Sent-trans {l} {l'} {l''} {xs} {ys} u v = record {
    state = v.state;
    queue_kept = v.queue_kept ∙ u.queue_kept;
    running_kept = v.running_kept ∙ u.running_kept;
    contents = λ before e.
        subst (Logged l'') (append_assoc before xs ys)
          (v.contents (before ++ xs) (u.contents before e));
    counts = omega (arith, u.counts, v.counts, length-append xs ys);
  }

pub record Sink {W : Type 0} (os : Os W) (slack : ParsedMessage → List ℕ) : Type 1 where
  pub IsGood : AsyncLogger W → Type 0
  -- These are all bytes of messages so far, and this is their number.
  pub Logged : AsyncLogger W → List ℕ → Type 0
  pub counted : AsyncLogger W → ℕ
  -- The number stays below it.
  pub limit : ℕ
  -- The queue and `running_` are not part of the sink.
  pub framed :
      (l : AsyncLogger W) (queue : MpmcQueue ParsedMessage) (running : Bool)
      → IsGood l
      → Framed IsGood Logged counted l (record l { queue = queue; running = running })
  pub flushes :
      (l : AsyncLogger W)
      → IsGood l
      → counted l < limit
      → Sent IsGood Logged counted l (flush os l) []
  pub writes :
      (l : AsyncLogger W) (msg : ParsedMessage)
      → IsGood l
      → IsConsistent msg
      → counted l + length (member_bytes msg.payload) < limit
      → (l' : AsyncLogger W) × (write_message os slack l msg ≡ some l')
        × Sent IsGood Logged counted l l' (member_bytes msg.payload)
