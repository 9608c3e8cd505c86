-- ===== src/Logger/Sinks.antt =====
-- BUFFERED mode as a sink; DIRECT mode is in Logger/Direct.
use market_data_parser.Common.{ℕ, ◌^◌, ◌≤◌, ◌≡◌, refl, ap, ◌∙◌, List, ◌++◌, arith}
use market_data_parser.Parser.{ParsedMessage}
use market_data_parser.Logger.{Os, AsyncLogger, WriteMode, buffer_size}
use market_data_parser.Logger.Buffered.{
  Appends, Wrote, flush-Wrote, write_message-Wrote, logged, counted,
}
use market_data_parser.Logger.Sink.{Sent, Sink}

module _ {W : Type 0} (os : Os W) (slack : ParsedMessage → List ℕ) where
  -- In BUFFERED mode: the file and the buffer.
  module _ (file : W → List ℕ) (a : Appends os file) where
    abbrev pub IsBuffered : AsyncLogger W → Type 0
    IsBuffered l = (l.write_mode ≡ WriteMode.buffered) × (l.buffer_offset ≤ buffer_size)

    pub Wrote-Sent :
        {l l' : AsyncLogger W} {bytes : List ℕ}
        → Wrote os slack file a l l' bytes
        → Sent IsBuffered
            (λ l bs. logged os slack file a l ≡ bs)
            (counted os slack file a)
            l
            l'
            bytes
    Wrote-Sent {bytes = bytes} w = record {
      state = (w.mode, w.fits);
      queue_kept = w.queue_kept;
      running_kept = w.running_kept;
      contents = λ before e. w.contents ∙ ap (λ bs. bs ++ bytes) e;
      counts = w.counts;
    }

    abbrev pub buffered_sink : Sink os slack
    buffered_sink = record {
      IsGood = IsBuffered;
      Logged = λ l bs. logged os slack file a l ≡ bs;
      counted = counted os slack file a;
      limit = 2 ^ 64;
      framed = λ l queue running g. record { state = g; contents = λ before e. e; counts = refl };
      flushes = λ l g fewer. Wrote-Sent (flush-Wrote os slack file a l g.0 fewer).0;
      writes = λ l msg g tag fewer.
          let (l', e, w) = write_message-Wrote os slack file a l msg g.0 g.1 tag (omega arith) in
          (l', e, Wrote-Sent w);
    }
