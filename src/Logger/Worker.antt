-- ===== src/Logger/Worker.antt =====
-- The loops of the worker thread in BUFFERED mode, and the file that they leave.
use market_data_parser.Common.{
  ℕ, ◌+◌, ◌^◌, ◌≤◌, ◌<◌, ◌≡◌, refl, subst, sym, ap, ◌∙◌, List, [], ◌∷◌, ◌++◌, length, All,
  length-append, Option, none, some, arith,
}
use market_data_parser.Parser.{ParsedMessage}
use market_data_parser.Logger.{
  Os, AsyncLogger, WriteMode, buffer_size, flush, poll, drain, worker_loop, member_bytes,
}
use market_data_parser.Logger.Serialize.{IsConsistent}
use market_data_parser.Logger.Buffered.{
  Appends, Wrote, Wrote-trans, Wrote-refl, flush-Wrote, write_message-Wrote, bytes_of, received,
  logged, counted,
}
use mathlib.Core.List.{append-nil, append_assoc}

pub bytes_of-append :
    (xs ys : List ParsedMessage) → bytes_of (xs ++ ys) ≡ bytes_of xs ++ bytes_of ys
bytes_of-append [] ys = refl
bytes_of-append (x ∷ xs) ys =
    ap (λ bs. member_bytes x.payload ++ bs) (bytes_of-append xs ys)
    ∙ sym (append_assoc (member_bytes x.payload) (bytes_of xs) (bytes_of ys))

module _ {W : Type 0} (os : Os W) (slack : ParsedMessage → List ℕ) (file : W → List ℕ)
    (a : Appends os file) where
  pub logged-empty :
      (l : AsyncLogger W) → l.buffer_offset ≡ 0 → logged os slack file a l ≡ file l.world
  logged-empty l e = rw e (append-nil (file l.world))

  poll-Wrote :
      (l : AsyncLogger W) (polled : List (Option ParsedMessage))
      → l.write_mode ≡ WriteMode.buffered
      → l.buffer_offset ≤ buffer_size
      → All IsConsistent (received polled)
      → counted os slack file a l + length (bytes_of (received polled)) < 2 ^ 64
      → (l' : AsyncLogger W) × (poll os slack l polled ≡ some l')
        × Wrote os slack file a l l' (bytes_of (received polled))
  unfolding poll
  poll-Wrote l [] m fit tags far = (l, refl, Wrote-refl os slack file a l m fit)
  poll-Wrote l (some msg ∷ rest) m fit tags far =
      let apart = length-append (member_bytes msg.payload) (bytes_of (received rest)) in
      let (l₁, e₁, w₁) = write_message-Wrote os slack file a l msg m fit tags.0 (omega arith) in
      let (l₂, e₂, w₂) = poll-Wrote l₁ rest w₁.mode w₁.fits tags.1 (omega (arith, w₁.counts)) in
      (l₂, rw e₁ e₂, Wrote-trans os slack file a w₁ w₂)
  poll-Wrote l (none ∷ rest) m fit tags far =
      let (w₁, e₁) = flush-Wrote os slack file a l m (omega arith) in
      let (l₂, e₂, w₂) =
        poll-Wrote (flush os l) rest w₁.mode w₁.fits tags (omega (arith, w₁.counts)) in
      (l₂, e₂, Wrote-trans os slack file a w₁ w₂)

  drain-Wrote :
      (l : AsyncLogger W) (left : List ParsedMessage)
      → l.write_mode ≡ WriteMode.buffered
      → l.buffer_offset ≤ buffer_size
      → All IsConsistent left
      → counted os slack file a l + length (bytes_of left) < 2 ^ 64
      → (l' : AsyncLogger W) × (drain os slack l left ≡ some l')
        × Wrote os slack file a l l' (bytes_of left)
  unfolding drain
  drain-Wrote l [] m fit tags far = (l, refl, Wrote-refl os slack file a l m fit)
  drain-Wrote l (msg ∷ rest) m fit tags far =
      let apart = length-append (member_bytes msg.payload) (bytes_of rest) in
      let (l₁, e₁, w₁) = write_message-Wrote os slack file a l msg m fit tags.0 (omega arith) in
      let (l₂, e₂, w₂) = drain-Wrote l₁ rest w₁.mode w₁.fits tags.1 (omega (arith, w₁.counts)) in
      (l₂, rw e₁ e₂, Wrote-trans os slack file a w₁ w₂)

  -- In BUFFERED mode, with an empty buffer at the start and a file where every write succeeds in full:
  -- the worker thread and the final flush of `stop` end without an exception, whatever the queue answers,
  -- and have appended to the file the bytes in memory of all messages that were taken from the queue, in
  -- that order and nothing else; `total_written_` has grown by their number, and the buffer is empty. Each
  -- message has the type of the union's member that it holds, and the total stays below 2^64.
  pub worker_loop-bytes_of :
      (l : AsyncLogger W) (polled : List (Option ParsedMessage)) (left : List ParsedMessage)
      → l.write_mode ≡ WriteMode.buffered
      → l.buffer_offset ≡ 0
      → All IsConsistent (received polled)
      → All IsConsistent left
      → l.total_written + length (bytes_of (received polled ++ left)) < 2 ^ 64
      → (l' : AsyncLogger W) × (worker_loop os slack l polled left ≡ some l')
        × (file l'.world ≡ file l.world ++ bytes_of (received polled ++ left))
        × (l'.total_written ≡ l.total_written + length (bytes_of (received polled ++ left)))
        × (l'.buffer_offset ≡ 0)
  unfolding worker_loop
  worker_loop-bytes_of l polled left m start tags tags' far =
      let parts = bytes_of-append (received polled) left in
      let sizes = length-append (bytes_of (received polled)) (bytes_of left) in
      let (l₁, e₁, w₁) =
        poll-Wrote l polled m (omega arith) tags (omega (arith, ap length parts)) in
      let (l₂, e₂, w₂) =
        drain-Wrote l₁ left w₁.mode w₁.fits tags' (omega (arith, ap length parts, w₁.counts)) in
      let (w₃, e₃) =
        flush-Wrote os slack file a l₂ w₂.mode
          (omega (arith, ap length parts, w₁.counts, w₂.counts)) in
      let w : Wrote os slack file a l (flush os l₂) (bytes_of (received polled ++ left)) =
        subst (Wrote os slack file a l (flush os l₂))
          (append-nil (bytes_of (received polled) ++ bytes_of left) ∙ sym parts)
          (Wrote-trans os slack file a (Wrote-trans os slack file a w₁ w₂) w₃) in
      (
        flush os l₂,
        rw (e₁, e₂) refl,
        sym (logged-empty (flush os l₂) e₃)
            ∙ w.contents
            ∙ ap (λ xs. xs ++ bytes_of (received polled ++ left)) (logged-empty l start),
        omega (arith, w.counts, e₃),
        e₃,
      )
