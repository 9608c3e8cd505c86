-- ===== src/Logger/Buffered.antt =====
-- The worker thread in BUFFERED mode, where every write to the file succeeds: the file gets the messages.
use market_data_parser.Common.{
  ℕ, zero, suc, ◌+◌, ◌^◌, ◌≤◌, ◌<◌, ◌≡◌, refl, sym, ap, ◌∙◌, List, [], ◌∷◌, ◌++◌, length,
  length-append, Option, none, some, arith, true, false, Bool-cases, inl, inr, ltb, ◌==◌,
  if◌then◌else◌,
}
use market_data_parser.Common.Int.{ℤ}
use market_data_parser.Common.Bytes.{bytes_at, length-bytes_at}
use market_data_parser.Parser.{ParsedMessage}
use market_data_parser.Queue.{size_add}
use market_data_parser.Logger.{
  Os, AsyncLogger, WriteMode, buffer_size, flush, write_message, write_buffered, serialize_message,
  member_bytes, get_message_size, is_positive,
}
use market_data_parser.Logger.Serialize.{
  IsConsistent, copied-member_bytes, length-get_message_size, get_message_size-le, bytes_at-copy,
}
use mathlib.Core.List.{append-nil, append_assoc}

-- The bytes of messages in memory, one after the other.
abbrev pub bytes_of : List ParsedMessage → List ℕ
bytes_of [] = []
bytes_of (msg ∷ rest) = member_bytes msg.payload ++ bytes_of rest

-- The messages that calls of `try_dequeue` give.
abbrev pub received : List (Option ParsedMessage) → List ParsedMessage
received [] = []
received (some msg ∷ rest) = msg ∷ received rest
received (none ∷ rest) = received rest

-- `file` is the contents of the file: a write of at least one byte appends all its bytes, and says so.
pub record Appends {W : Type 0} (os : Os W) (file : W → List ℕ) : Type 0 where
  pub answer : (fd : ℤ) (bytes : List ℕ) (w : W) → (os.write fd bytes w).0 ≡ ℤ.pos (length bytes)
  pub appended : (fd : ℤ) (bytes : List ℕ) (w : W) → file (os.write fd bytes w).1 ≡ file w ++ bytes

pub is_positive-pos : (n : ℕ) → 0 < n → is_positive (ℤ.pos n) ≡ true
is_positive-pos zero h = absurd (omega arith)
is_positive-pos (suc n) h = refl

module _ {W : Type 0} (os : Os W) (slack : ParsedMessage → List ℕ) (file : W → List ℕ)
    (a : Appends os file) where
  -- The file with what is still in the buffer.
  abbrev pub logged : AsyncLogger W → List ℕ
  logged l = file l.world ++ bytes_at l.write_buffer 0 l.buffer_offset

  abbrev pub counted : AsyncLogger W → ℕ
  counted l = l.total_written + l.buffer_offset

  pub record Wrote (l l' : AsyncLogger W) (bytes : List ℕ) : Type 0 where
    pub mode : l'.write_mode ≡ WriteMode.buffered
    pub queue_kept : l'.queue ≡ l.queue
    pub running_kept : l'.running ≡ l.running
    pub fits : l'.buffer_offset ≤ buffer_size
    pub contents : logged l' ≡ logged l ++ bytes
    pub counts : counted l' ≡ counted l + length bytes

  abbrev flushed : AsyncLogger W → AsyncLogger W
  flushed l = record l {
    total_written = size_add l.total_written l.buffer_offset;
    buffer_offset = 0;
    world = (os.write l.fd (bytes_at l.write_buffer 0 l.buffer_offset) l.world).1;
  }

  flush-flushed :
      (l : AsyncLogger W)
      → l.write_mode ≡ WriteMode.buffered
      → 0 < l.buffer_offset
      → flush os l ≡ flushed l
  unfolding flush
  flush-flushed l m some_left =
      let something : (l.buffer_offset == 0) ≡ false = ground arith in
      let written = length-bytes_at l.write_buffer 0 l.buffer_offset in
      rw (something, m, a.answer, written, is_positive-pos l.buffer_offset some_left) refl

  pub flush-Wrote :
      (l : AsyncLogger W)
      → l.write_mode ≡ WriteMode.buffered
      → counted l < 2 ^ 64
      → Wrote l (flush os l) [] × ((flush os l).buffer_offset ≡ 0)
  flush-Wrote l m far = elim (Bool-cases (l.buffer_offset == 0)) [
    | inl nothing ↦
        let same : flush os l ≡ l = unfold flush in rw nothing refl in
        rw same (
          record {
            mode = m;
            queue_kept = refl;
            running_kept = refl;
            fits = ground arith;
            contents = sym (append-nil (logged l));
            counts = omega arith;
          },
          ground arith,
        )
    | inr something ↦ rw (flush-flushed l m (ground arith)) (
      record {
        mode = m;
        queue_kept = refl;
        running_kept = refl;
        fits = omega arith;
        contents =
            ap (λ xs. xs ++ [])
              (a.appended l.fd (bytes_at l.write_buffer 0 l.buffer_offset) l.world);
        counts = omega arith;
      },
      refl,
    )
  ]

  pub Wrote-trans :
      {l l' l'' : AsyncLogger W} {xs ys : List ℕ}
      → Wrote l l' xs
      → Wrote l' l'' ys
      → Wrote l l'' (xs ++ ys)
  Wrote-trans {l} {l'} {l''} {xs} {ys} u v = record {
    mode = v.mode;
    queue_kept = v.queue_kept ∙ u.queue_kept;
    running_kept = v.running_kept ∙ u.running_kept;
    fits = v.fits;
    contents = v.contents ∙ ap (λ zs. zs ++ ys) u.contents ∙ append_assoc (logged l) xs ys;
    counts = omega (arith, u.counts, v.counts, length-append xs ys);
  }

  pub Wrote-refl :
      (l : AsyncLogger W)
      → l.write_mode ≡ WriteMode.buffered
      → l.buffer_offset ≤ buffer_size
      → Wrote l l []
  Wrote-refl l m fit = record {
    mode = m;
    queue_kept = refl;
    running_kept = refl;
    fits = fit;
    contents = sym (append-nil (logged l));
    counts = omega arith;
  }

  -- The message put into the buffer, where there is room.
  serialized : AsyncLogger W → ParsedMessage → AsyncLogger W
  serialized l msg = record l {
    write_buffer = serialize_message slack l.write_buffer l.buffer_offset msg;
    buffer_offset = size_add l.buffer_offset (get_message_size msg);
  }

  serialized-Wrote :
      (l : AsyncLogger W) (msg : ParsedMessage)
      → l.write_mode ≡ WriteMode.buffered
      → IsConsistent msg
      → l.buffer_offset + get_message_size msg ≤ buffer_size
      → Wrote l (serialized l msg) (member_bytes msg.payload)
  unfolding serialized serialize_message
  serialized-Wrote l msg m tag room =
      let bytes = member_bytes msg.payload in
      let size = length-get_message_size msg tag in
      let next : size_add l.buffer_offset (get_message_size msg) ≡ l.buffer_offset + length bytes =
        omega arith in
      record {
        mode = m;
        queue_kept = refl;
        running_kept = refl;
        fits = omega arith;
        contents =
            rw
              (
                next,
                copied-member_bytes msg (slack msg) tag,
                bytes_at-copy l.write_buffer l.buffer_offset bytes,
              )
              (sym (append_assoc (file l.world) (bytes_at l.write_buffer 0 l.buffer_offset) bytes));
        counts = omega arith;
      }

  -- The buffer with room for the message: flushed if it had none.
  abbrev with_room : AsyncLogger W → ParsedMessage → AsyncLogger W
  with_room l msg =
      if ltb buffer_size (size_add l.buffer_offset (get_message_size msg)) then flush os l else l

  with_room-Wrote :
      (l : AsyncLogger W) (msg : ParsedMessage)
      → l.write_mode ≡ WriteMode.buffered
      → l.buffer_offset ≤ buffer_size
      → counted l < 2 ^ 64
      → Wrote l (with_room l msg) []
        × ((with_room l msg).buffer_offset + get_message_size msg ≤ buffer_size)
  with_room-Wrote l msg m fit far =
      let small = get_message_size-le msg in
      elim (Bool-cases (ltb buffer_size (size_add l.buffer_offset (get_message_size msg)))) [
        | inl full ↦ rw full (let (w, e) = flush-Wrote l m far in (w, omega arith))
        | inr fits ↦ rw fits (Wrote-refl l m fit, ground arith)
      ]

  pub write_message-Wrote :
      (l : AsyncLogger W) (msg : ParsedMessage)
      → l.write_mode ≡ WriteMode.buffered
      → l.buffer_offset ≤ buffer_size
      → IsConsistent msg
      → counted l < 2 ^ 64
      → (l' : AsyncLogger W) × (write_message os slack l msg ≡ some l')
        × Wrote l l' (member_bytes msg.payload)
  unfolding write_message write_buffered serialized
  write_message-Wrote l msg m fit tag far =
      let (w, room) = with_room-Wrote l msg m fit far in
      (
        serialized (with_room l msg) msg,
        rw m refl,
        Wrote-trans w (serialized-Wrote (with_room l msg) msg w.mode tag room),
      )
