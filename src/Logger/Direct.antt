-- ===== src/Logger/Direct.antt =====
-- DIRECT mode, where every write succeeds in full: a flush writes whole blocks of 4096 bytes, so the file
-- has the bytes of the messages with padding between them.
use market_data_parser.Common.{
  ℕ, ◌+◌, ◌-◌, ◌%◌, ◌^◌, ◌≤◌, ◌<◌, ◌≡◌, refl, sym, ap, ◌∙◌, subst, List, [], ◌++◌, length,
  length-append, some, false, Bool-cases, inl, inr, ltb, ◌==◌, if◌then◌else◌, arith,
}
use market_data_parser.Common.Bytes.{bytes_at, length-bytes_at}
use market_data_parser.Parser.{ParsedMessage}
use market_data_parser.Queue.{size_add}
use market_data_parser.Logger.{
  Os, AsyncLogger, WriteMode, buffer_size, alignment, align_up, flush, write_message,
  write_buffered, serialize_message, member_bytes, get_message_size,
}
use market_data_parser.Logger.Serialize.{
  IsConsistent, copied-member_bytes, length-get_message_size, get_message_size-le, bytes_at-copy,
  bytes_at-split,
}
use market_data_parser.Logger.Bounds.{align_up-le, flush-offset}
use market_data_parser.Logger.Buffered.{Appends, is_positive-pos}
use market_data_parser.Logger.Sink.{Sent, Sent-trans, Sink}
use mathlib.Core.List.{append-nil, append_assoc}

-- A file of blocks: each has bytes of messages and less than a block of padding, and ends at a multiple of the
-- alignment. The second list is the bytes without the padding.
pub data IsPadded : List ℕ → List ℕ → Type 0 where
  no_block : IsPadded [] []
  block :
      {file bytes : List ℕ} (chunk padding : List ℕ)
      → IsPadded file bytes
      → length (chunk ++ padding) % alignment ≡ 0
      → length padding < alignment
      → IsPadded (file ++ (chunk ++ padding)) (bytes ++ chunk)

-- Such a file ends at a multiple of the alignment.
pub length-IsPadded : {file bytes : List ℕ} → IsPadded file bytes → length file % alignment ≡ 0
length-IsPadded no_block = refl
length-IsPadded (block {file} chunk padding p whole less) =
    omega (arith, length-IsPadded p, length-append file (chunk ++ padding), whole)

module _ {W : Type 0} (os : Os W) (slack : ParsedMessage → List ℕ) (file : W → List ℕ)
    (a : Appends os file) where
  abbrev pub IsDirect : AsyncLogger W → Type 0
  IsDirect l = (l.write_mode ≡ WriteMode.direct) × (l.buffer_offset ≤ buffer_size)

  -- The bytes of the file without the padding, and what is in the buffer.
  abbrev pub Logged : AsyncLogger W → List ℕ → Type 0
  Logged l bs =
      (bytes : List ℕ) × IsPadded (file l.world) bytes
      × (bytes ++ bytes_at l.write_buffer 0 l.buffer_offset ≡ bs)

  abbrev pub counted : AsyncLogger W → ℕ
  counted l = l.total_written + l.buffer_offset

  abbrev pub SentDirect : (l l' : AsyncLogger W) (bytes : List ℕ) → Type 0
  SentDirect l l' bytes = Sent IsDirect Logged counted l l' bytes

  abbrev flushed : AsyncLogger W → AsyncLogger W
  flushed l = record l {
    total_written = size_add l.total_written l.buffer_offset;
    buffer_offset = 0;
    world = (os.write l.fd (bytes_at l.write_buffer 0 (align_up l.buffer_offset)) l.world).1;
  }

  flush-flushed : (l : AsyncLogger W) → IsDirect l → 0 < l.buffer_offset → flush os l ≡ flushed l
  unfolding flush
  flush-flushed l g some_left =
      let something : (l.buffer_offset == 0) ≡ false = ground arith in
      let (even, more, less, within) = align_up-le l.buffer_offset g.1 in
      let written = length-bytes_at l.write_buffer 0 (align_up l.buffer_offset) in
      rw
        (
          something,
          g.0,
          a.answer,
          written,
          is_positive-pos (align_up l.buffer_offset) (omega arith),
        )
        refl

  -- A flush writes a block.
  flushed-Sent : (l : AsyncLogger W) → IsDirect l → counted l < 2 ^ 64 → SentDirect l (flushed l) []
  flushed-Sent l g fewer =
      let n = l.buffer_offset in
      let (even, more, less, within) = align_up-le n g.1 in
      let chunk = bytes_at l.write_buffer 0 n in
      let padding = bytes_at l.write_buffer (0 + n) (align_up n - n) in
      let whole : bytes_at l.write_buffer 0 (align_up n) ≡ chunk ++ padding =
        let parts : align_up n ≡ n + (align_up n - n) = omega (arith, more) in
        ap (bytes_at l.write_buffer 0) parts ∙ bytes_at-split l.write_buffer 0 n (align_up n - n) in
      let written = length-bytes_at l.write_buffer 0 (align_up n) in
      let size : length (chunk ++ padding) ≡ align_up n = sym (ap length whole) ∙ written in
      let rest = length-bytes_at l.write_buffer (0 + n) (align_up n - n) in
      let new_file : file (flushed l).world ≡ file l.world ++ (chunk ++ padding) =
        a.appended l.fd (bytes_at l.write_buffer 0 (align_up n)) l.world
        ∙ ap (λ bs. file l.world ++ bs) whole in
      record {
        state = (g.0, omega arith);
        queue_kept = refl;
        running_kept = refl;
        contents = λ before (bytes, p, e). (
          bytes ++ chunk,
          subst (λ f. IsPadded f (bytes ++ chunk)) (sym new_file)
              (block chunk padding p (rw size even) (omega (arith, rest, less, more))),
          ap (λ bs. bs ++ []) e,
        );
        counts = omega arith;
      }

  Sent-refl : (l : AsyncLogger W) → IsDirect l → SentDirect l l []
  Sent-refl l g = record {
    state = g;
    queue_kept = refl;
    running_kept = refl;
    contents = λ before e. subst (Logged l) (sym (append-nil before)) e;
    counts = omega arith;
  }

  pub flush-Sent :
      (l : AsyncLogger W) → IsDirect l → counted l < 2 ^ 64 → SentDirect l (flush os l) []
  flush-Sent l g fewer = elim (Bool-cases (l.buffer_offset == 0)) [
    | inl nothing ↦
        let same : flush os l ≡ l = unfold flush in rw nothing refl in rw same (Sent-refl l g)
    | inr something ↦ rw (flush-flushed l g (ground (arith, something))) (flushed-Sent l g fewer)
  ]

  serialized : AsyncLogger W → ParsedMessage → AsyncLogger W
  serialized l msg = record l {
    write_buffer = serialize_message slack l.write_buffer l.buffer_offset msg;
    buffer_offset = size_add l.buffer_offset (get_message_size msg);
  }

  serialized-Sent :
      (l : AsyncLogger W) (msg : ParsedMessage)
      → IsDirect l
      → IsConsistent msg
      → l.buffer_offset + get_message_size msg ≤ buffer_size
      → SentDirect l (serialized l msg) (member_bytes msg.payload)
  unfolding serialized serialize_message
  serialized-Sent l msg g tag room =
      let bs = member_bytes msg.payload in
      let size = length-get_message_size msg tag in
      let next : size_add l.buffer_offset (get_message_size msg) ≡ l.buffer_offset + length bs =
        omega arith in
      record {
        state = (g.0, omega arith);
        queue_kept = refl;
        running_kept = refl;
        contents = λ before (bytes, p, e). (
          bytes,
          p,
          rw
              (
                next,
                copied-member_bytes msg (slack msg) tag,
                bytes_at-copy l.write_buffer l.buffer_offset bs,
              )
              (sym (append_assoc bytes (bytes_at l.write_buffer 0 l.buffer_offset) bs)
                ∙ ap (λ xs. xs ++ bs) e),
        );
        counts = omega arith;
      }

  -- The buffer with room for the message: flushed if it had none.
  abbrev with_room : AsyncLogger W → ParsedMessage → AsyncLogger W
  with_room l msg =
      if ltb buffer_size (size_add l.buffer_offset (get_message_size msg)) then flush os l else l

  with_room-Sent :
      (l : AsyncLogger W) (msg : ParsedMessage)
      → IsDirect l
      → counted l < 2 ^ 64
      → SentDirect l (with_room l msg) []
        × ((with_room l msg).buffer_offset + get_message_size msg ≤ buffer_size)
  with_room-Sent l msg g fewer =
      let small = get_message_size-le msg in
      elim (Bool-cases (ltb buffer_size (size_add l.buffer_offset (get_message_size msg)))) [
        | inl full ↦ rw full (flush-Sent l g fewer, omega (arith, flush-offset os slack l))
        | inr fits ↦ rw fits (Sent-refl l g, ground (arith, g.1))
      ]

  pub write_message-Sent :
      (l : AsyncLogger W) (msg : ParsedMessage)
      → IsDirect l
      → IsConsistent msg
      → counted l + length (member_bytes msg.payload) < 2 ^ 64
      → (l' : AsyncLogger W) × (write_message os slack l msg ≡ some l')
        × SentDirect l l' (member_bytes msg.payload)
  unfolding write_message write_buffered serialized
  write_message-Sent l msg g tag fewer =
      let (w, room) = with_room-Sent l msg g (omega arith) in
      (
        serialized (with_room l msg) msg,
        rw (g.0) refl,
        Sent-trans IsDirect Logged counted w
            (serialized-Sent (with_room l msg) msg w.state tag room),
      )

  abbrev pub direct_sink : Sink os slack
  direct_sink = record {
    IsGood = IsDirect;
    Logged = Logged;
    counted = counted;
    limit = 2 ^ 64;
    framed = λ l queue running g. record { state = g; contents = λ before e. e; counts = refl };
    flushes = flush-Sent;
    writes = write_message-Sent;
  }
