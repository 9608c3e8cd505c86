-- ===== src/Logger/Draining.antt =====
-- What `stop` does before it closes the file, in any mode: the worker thread's second loop and the last flush.
use market_data_parser.Common.{
  ℕ, ◌+◌, ◌-◌, ◌^◌, ◌≤◌, ◌<◌, ◌≡◌, refl, ap, true, false, some, List, [], length, arith,
}
use market_data_parser.Parser.{ParsedMessage}
use market_data_parser.Queue.Quiet.{length-window}
use market_data_parser.Logger.{Os, AsyncLogger, flush}
use market_data_parser.Logger.Buffered.{bytes_of}
use market_data_parser.Logger.Sink.{Sent, Sink}
use market_data_parser.Logger.Lifecycle.{queue_bits, stop, destroy, close_file}
use market_data_parser.Logger.Holding.{Holds, requeued}
use market_data_parser.Logger.Service.{drain_queue-Holds}

module _ {W : Type 0} (os : Os W) (slack : ParsedMessage → List ℕ) (sink : Sink os slack)
    (base : List ℕ) (total : ℕ) where
  pub few :
      (l : AsyncLogger W) (items accepted : List ParsedMessage)
      → Holds os slack sink base total l items accepted
      → length items ≤ 2 ^ queue_bits
  few l items accepted h = omega (
    arith,
    ap length h.queued,
    h.quiet.fits,
    length-window queue_bits l.queue.buffer l.queue.tail (l.queue.head - l.queue.tail),
  )

  -- `drained` is the logger when the worker thread ends.
  pub stop-drained :
      (accepted items : List ParsedMessage) (fuel : ℕ) (retries : ℕ → ℕ) (l : AsyncLogger W)
      → Holds os slack sink base total l items accepted
      → l.running ≡ true
      → l.queue.head + 2 ^ queue_bits < 2 ^ 63
      → total + length (bytes_of accepted) < sink.limit
      → 2 ^ queue_bits < fuel
      → (drained : AsyncLogger W) × (stop os slack fuel retries l
          ≡ some (close_file os (flush os drained)))
        × Holds os slack sink base total drained [] accepted
        × Sent sink.IsGood sink.Logged sink.counted drained (flush os drained) []
        × (drained.running ≡ false)
        × (drained.queue.head ≡ l.queue.head)
  unfolding stop
  stop-drained accepted items fuel retries l h run far fewer enough =
      let h₀ =
        requeued os slack sink base total l l.queue false items items accepted accepted h h.quiet
          h.queued h.consistent h.in_order h.counts in
      let (l₁, e₁, h₁, run₁, head₁) =
        drain_queue-Holds os slack sink base total accepted fewer items fuel retries
          (record l { running = false }) h₀ far (omega (arith, few l items accepted h)) in
      (l₁, rw (run, e₁) refl, h₁, sink.flushes l₁ h₁.state (omega (arith, h₁.counts)), run₁, head₁)

module _ {W : Type 0} (os : Os W) (slack : ParsedMessage → List ℕ) where
  -- The destructor stops a logger that runs, and does nothing to one that is stopped.
  pub destroy-stop :
      (fuel : ℕ) (retries : ℕ → ℕ) (l l' : AsyncLogger W)
      → stop os slack fuel retries l ≡ some l'
      → destroy os slack fuel retries l ≡ some l'.world
  unfolding destroy
  destroy-stop fuel retries l l' e = rw e refl

  pub destroy-stopped :
      (fuel : ℕ) (retries : ℕ → ℕ) (l : AsyncLogger W)
      → l.running ≡ false
      → destroy os slack fuel retries l ≡ some l.world
  unfolding stop
  destroy-stopped fuel retries l e = destroy-stop fuel retries l l (rw e refl)
