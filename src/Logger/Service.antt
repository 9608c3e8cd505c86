-- ===== src/Logger/Service.antt =====
-- What `log`, an iteration of the worker thread and its second loop do to a logger between `start` and `stop`.
use market_data_parser.Common.{
  ℕ, zero, suc, ◌+◌, ◌^◌, ◌≤◌, ◌<◌, ◌≡◌, refl, sym, ◌∙◌, Bool, true, false, Bool-cases, some, List,
  [], ◌∷◌, ◌++◌, length, All-append, length-append, inl, inr, arith, ◌==◌,
}
use market_data_parser.Parser.{ParsedMessage}
use market_data_parser.Queue.{MpmcQueue}
use market_data_parser.Queue.Fifo
use market_data_parser.Queue.Quiet.{IsQuiet, contents, try_enqueue-push, try_dequeue-pop}
use market_data_parser.Logger.{Os, AsyncLogger, flush, member_bytes}
use market_data_parser.Logger.Serialize.{IsConsistent}
use market_data_parser.Logger.Buffered.{bytes_of}
use market_data_parser.Logger.Sink.{Sink}
use market_data_parser.Logger.Lifecycle.{queue_bits, log, handle, work, drain_queue}
use mathlib.Core.List.{append-nil}
use market_data_parser.Logger.Holding.{Holds, requeued, moved, in_order-snoc, length-snoc, taken}

two : 2 ≤ 2 ^ queue_bits
two = omega arith

module _ {W : Type 0} (os : Os W) (slack : ParsedMessage → List ℕ) (sink : Sink os slack)
    (base : List ℕ) (total : ℕ) where
  module _ (accepted : List ParsedMessage)
      (fewer : total + length (bytes_of accepted) < sink.limit) where
    -- What the worker thread does with the answer of the queue.
    handle-Holds :
        (l : AsyncLogger W) (q : MpmcQueue ParsedMessage) (items : List ParsedMessage)
        → Holds os slack sink base total l items accepted
        → IsQuiet queue_bits q
        → contents queue_bits q ≡ (Fifo.pop items).1
        → (l' : AsyncLogger W) × (handle os slack (Fifo.pop items).0 (record l { queue = q })
            ≡ some l')
          × Holds os slack sink base total l' (Fifo.pop items).1 accepted
          × (l'.queue ≡ q)
          × (l'.running ≡ l.running)
    unfolding Fifo.pop
    handle-Holds l q [] h quiet e =
        let f = sink.framed l q l.running h.state in
        let w = sink.flushes (record l { queue = q }) f.state (omega (arith, f.counts, h.counts)) in
        (
          flush os (record l { queue = q }),
          refl,
          moved os slack sink base total l _ q [] [] accepted h tt quiet e w,
          w.queue_kept,
          w.running_kept,
        )
    handle-Holds l q (msg ∷ items) h quiet e =
        let f = sink.framed l q l.running h.state in
        let apart = length-append (member_bytes msg.payload) (bytes_of items) in
        let (l', e', w) =
          sink.writes (record l { queue = q }) msg f.state h.consistent.0
            (omega (arith, f.counts, h.counts)) in
        let alone = sym (append-nil (member_bytes msg.payload)) in
        (
          l',
          e',
          moved os slack sink base total l l' q (msg ∷ []) items accepted h h.consistent.1 quiet e
              (rw alone at w),
          w.queue_kept,
          w.running_kept,
        )

    pub work-Holds :
        (retries : ℕ) (l : AsyncLogger W) (items : List ParsedMessage)
        → Holds os slack sink base total l items accepted
        → l.queue.head + 2 ^ queue_bits < 2 ^ 63
        → (l' : AsyncLogger W) × (work os slack retries l ≡ some l')
          × Holds os slack sink base total l' (Fifo.pop items).1 accepted
          × (l'.queue.head ≡ l.queue.head)
          × (l'.running ≡ l.running)
    unfolding work
    work-Holds retries l items h far =
        let (q, e, c, quiet, same) = try_dequeue-pop queue_bits two l.queue h.quiet far retries in
        let (l', e', h', kept, running) = handle-Holds l q items h quiet (rw h.queued at c) in
        (l', rw (e, h.queued) e', h', rw kept same, running)

    pub drain_queue-Holds :
        (items : List ParsedMessage) (fuel : ℕ) (retries : ℕ → ℕ) (l : AsyncLogger W)
        → Holds os slack sink base total l items accepted
        → l.queue.head + 2 ^ queue_bits < 2 ^ 63
        → length items < fuel
        → (l' : AsyncLogger W) × (drain_queue os slack fuel retries l ≡ some l')
          × Holds os slack sink base total l' [] accepted
          × (l'.running ≡ l.running)
          × (l'.queue.head ≡ l.queue.head)
    unfolding drain_queue Fifo.pop
    drain_queue-Holds items zero retries l h far enough = absurd (omega arith)
    drain_queue-Holds [] (suc fuel) retries l h far enough =
        let (q, e, c, quiet, same) =
          try_dequeue-pop queue_bits two l.queue h.quiet far (retries fuel) in
        let h' : Holds os slack sink base total (record l { queue = q }) [] accepted =
          requeued os slack sink base total l q l.running [] [] accepted accepted h quiet
            (rw h.queued at c) tt h.in_order h.counts in
        (record l { queue = q }, rw (e, h.queued) refl, h', refl, same)
    drain_queue-Holds (msg ∷ items) (suc fuel) retries l h far enough =
        let (q, e, c, quiet, same) =
          try_dequeue-pop queue_bits two l.queue h.quiet far (retries fuel) in
        let (l₁, e₁, h₁, kept, running) =
          handle-Holds l q (msg ∷ items) h quiet (rw h.queued at c) in
        let (l₂, e₂, h₂, running', same') =
          drain_queue-Holds items fuel retries l₁ h₁ (rw kept (omega (arith, same)))
            (omega arith) in
        (l₂, rw (e, h.queued, e₁) e₂, h₂, running' ∙ running, same' ∙ rw kept same)

  pub log-Holds :
      (retries : ℕ) (msg : ParsedMessage) (l : AsyncLogger W) (items accepted : List ParsedMessage)
      → Holds os slack sink base total l items accepted
      → IsConsistent msg
      → l.queue.head + 2 ^ queue_bits < 2 ^ 63
      → (result : Bool) × (l' : AsyncLogger W) × (log retries msg l ≡ some (result, l'))
        × (result ≡ (Fifo.push (2 ^ queue_bits) items msg).0)
        × Holds os slack sink base total l'
            (Fifo.push (2 ^ queue_bits) items msg).1
            (accepted ++ taken result msg)
        × (l'.queue.head ≤ l.queue.head + 1)
        × (l'.running ≡ l.running)
        × (result ≡ false → l'.queue.head ≡ l.queue.head)
  unfolding log Fifo.push
  log-Holds retries msg l items accepted h consistent far =
      let (q, e, c, quiet, step, same) =
        try_enqueue-push queue_bits two l.queue h.quiet far retries msg in
      let l' : AsyncLogger W = record l { queue = q } in
      elim (Bool-cases (length items == 2 ^ queue_bits)) [
        | inl full ↦ (
          false,
          l',
          rw (e, h.queued, full) refl,
          rw full refl,
          rw (full, append-nil accepted)
              (requeued os slack sink base total l q l.running items items accepted accepted h quiet
                (rw (h.queued, full) at c) h.consistent h.in_order h.counts),
          step,
          refl,
          λ refused. same (rw (h.queued, full) refl),
        )
        | inr room ↦ (
          true,
          l',
          rw (e, h.queued, room) refl,
          rw room refl,
          rw room (
              requeued os slack sink base total l q l.running items (items ++ (msg ∷ [])) accepted
                (accepted ++ (msg ∷ [])) h quiet (rw (h.queued, room) at c)
                (All-append IsConsistent items (msg ∷ []) h.consistent (consistent, tt))
                (in_order-snoc h.sent base items accepted msg h.in_order)
                (omega (arith, h.counts, length-snoc items msg, length-snoc accepted msg))),
          step,
          refl,
          λ refused. cc,
        )
      ]
