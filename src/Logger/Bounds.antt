-- ===== src/Logger/Bounds.antt =====
-- What the buffer holds after a message, and what a flush in DIRECT mode writes.
use market_data_parser.Common.{
  ℕ, ◌+◌, ◌-◌, ◌%◌, ◌^◌, ◌≤◌, ◌<◌, ◌≡◌, ◌≢◌, ◌⊎◌, refl, ap, ◌∙◌, List, ◌++◌, length, length-append,
  some, arith, Bool-cases, inl, inr, ltb, false, ◌==◌,
}
use market_data_parser.Common.Bits.{bit_and-high_mask}
use market_data_parser.Common.Bytes.{bytes_at, length-bytes_at}
use market_data_parser.Parser.{ParsedMessage}
use market_data_parser.Queue.{size_add}
use market_data_parser.Logger.{
  Os, AsyncLogger, WriteMode, buffer_size, alignment, align_up, flush, write_message,
  write_buffered, get_message_size, serialize_message, member_bytes,
}
use market_data_parser.Logger.Serialize.{
  IsConsistent, get_message_size-le, length-get_message_size, serialize_message-member_bytes,
}
use market_data_parser.Logger.Buffered.{Appends, is_positive-pos}

-- For a length up to the size of the buffer, the number of bytes that DIRECT mode writes is the next
-- multiple of the alignment, and the buffer has that many bytes.
pub align_up-le :
    (n : ℕ)
    → n ≤ buffer_size
    → (align_up n % alignment ≡ 0)
      × (n ≤ align_up n)
      × (align_up n < n + alignment)
      × (align_up n ≤ buffer_size)
unfolding align_up
align_up-le n h =
    let sum : (n + alignment - 1) % 2 ^ 64 ≡ n + 4095 = omega arith in
    let mask = bit_and-high_mask 12 52 (n + 4095) (omega arith) in rw sum (omega (arith, mask))

module _ {W : Type 0} (os : Os W) (slack : ParsedMessage → List ℕ) where
  pub flush-offset : (l : AsyncLogger W) → (flush os l).buffer_offset ≡ 0
  unfolding flush
  flush-offset l = ground arith

  flush-write_buffer : (l : AsyncLogger W) → (flush os l).write_buffer ≡ l.write_buffer
  unfolding flush
  flush-write_buffer l = ground arith

  write_message-by_mode :
      (mode : WriteMode) (l : AsyncLogger W) (msg : ParsedMessage)
      → l.write_mode ≡ mode
      → mode ≢ WriteMode.mmap
      → write_message os slack l msg ≡ some (write_buffered os slack l msg)
  unfolding write_message
  write_message-by_mode WriteMode.mmap l msg e other = absurd (other refl)
  write_message-by_mode mode l msg e other = rw e refl

  -- A message that `write_message` has put into the buffer.
  pub record Placed (l : AsyncLogger W) (msg : ParsedMessage) : Type 0 where
    pub after : AsyncLogger W
    pub start : ℕ
    pub ends : write_message os slack l msg ≡ some after
    pub follows :
        ((l.buffer_offset + length (member_bytes msg.payload) ≤ buffer_size)
          × (start ≡ l.buffer_offset))
        ⊎ ((buffer_size < l.buffer_offset + length (member_bytes msg.payload)) × (start ≡ 0))
    pub end : after.buffer_offset ≡ start + length (member_bytes msg.payload)
    pub within : after.buffer_offset ≤ buffer_size
    pub contents :
        bytes_at after.write_buffer 0 after.buffer_offset
        ≡ bytes_at l.write_buffer 0 start ++ member_bytes msg.payload
    pub beyond :
        (i : ℕ)
        → after.write_buffer (after.buffer_offset + i) ≡ l.write_buffer (after.buffer_offset + i)

  -- The logger with the message in the buffer from `start` on.
  abbrev placed_at : (base l : AsyncLogger W) → ParsedMessage → (start : ℕ) → AsyncLogger W
  placed_at base l msg start = record base {
    write_buffer = serialize_message slack l.write_buffer start msg;
    buffer_offset = start + get_message_size msg;
  }

  placed :
      (base l : AsyncLogger W) (msg : ParsedMessage) (start : ℕ)
      → IsConsistent msg
      → write_message os slack l msg ≡ some (placed_at base l msg start)
      → ((l.buffer_offset + length (member_bytes msg.payload) ≤ buffer_size)
          × (start ≡ l.buffer_offset))
        ⊎ ((buffer_size < l.buffer_offset + length (member_bytes msg.payload)) × (start ≡ 0))
      → start + get_message_size msg ≤ buffer_size
      → Placed l msg
  placed base l msg start tag ends follows within =
      let (contents, beyond) = serialize_message-member_bytes slack l.write_buffer start msg tag in
      record {
        after = placed_at base l msg start;
        start = start;
        ends = ends;
        follows = follows;
        end = omega (arith, length-get_message_size msg tag);
        within = within;
        contents = contents;
        beyond = beyond;
      }

  -- In the two modes with a buffer, for a message of the type of the member it holds and an offset inside
  -- the buffer: `write_message` does not throw. The message's bytes start at the old offset if there is
  -- room, and at the beginning of the buffer otherwise; they end at the new offset, which is inside the
  -- buffer, up to there the buffer has what it had before the start and the message's bytes, and nothing from
  -- there on is changed.
  pub write_message-fits :
      (l : AsyncLogger W) (msg : ParsedMessage)
      → l.write_mode ≢ WriteMode.mmap
      → IsConsistent msg
      → l.buffer_offset ≤ buffer_size
      → Placed l msg
  unfolding write_buffered
  write_message-fits l msg other tag fit =
      let small = get_message_size-le msg in
      let size = length-get_message_size msg tag in
      let ends = write_message-by_mode l.write_mode l msg refl other in
      elim (Bool-cases (ltb buffer_size (size_add l.buffer_offset (get_message_size msg)))) [
        | inl full ↦
            let end : size_add 0 (get_message_size msg) ≡ 0 + get_message_size msg = omega arith in
            placed (flush os l) l msg 0 tag
              (ends ∙ rw (full, flush-offset l, flush-write_buffer l, end) refl)
              (inr (ground (arith, full, size), refl)) (omega arith)
        | inr room ↦
            let end : size_add l.buffer_offset (get_message_size msg)
                ≡ l.buffer_offset + get_message_size msg =
              omega arith in
            placed l l msg l.buffer_offset tag (ends ∙ rw (room, end) refl)
              (inl (ground (arith, room, size), refl)) (ground (arith, room))
      ]

  -- In DIRECT mode, where every write succeeds in full: a flush of a buffer whose contents are no
  -- multiple of 4096 bytes appends the next multiple of 4096 bytes from the buffer to the file, and adds
  -- only the length of the contents to `total_written_`. The offset is inside the buffer, and the
  -- total does not overflow.
  pub flush-direct :
      (file : W → List ℕ)
      → Appends os file
      → (l : AsyncLogger W) → l.write_mode ≡ WriteMode.direct
      → 0 < l.buffer_offset % 4096
      → l.buffer_offset ≤ buffer_size
      → l.total_written + l.buffer_offset < 2 ^ 64
      → (n : ℕ) × (file (flush os l).world ≡ file l.world ++ bytes_at l.write_buffer 0 n)
        × (length (file (flush os l).world) ≡ length (file l.world) + n)
        × (n % 4096 ≡ 0)
        × (l.buffer_offset < n)
        × (n < l.buffer_offset + 4096)
        × ((flush os l).total_written ≡ l.total_written + l.buffer_offset)
  unfolding flush
  flush-direct file a l m uneven fit far =
      let something : (l.buffer_offset == 0) ≡ false = ground arith in
      let (even, more, less, within) = align_up-le l.buffer_offset fit in
      let bytes = bytes_at l.write_buffer 0 (align_up l.buffer_offset) in
      let written : length bytes ≡ align_up l.buffer_offset =
        length-bytes_at l.write_buffer 0 (align_up l.buffer_offset) in
      let positive = is_positive-pos (length bytes) (omega arith) in
      let grown = length-append (file l.world) bytes in
      (
        align_up l.buffer_offset,
        rw (something, m) (a.appended _ bytes _),
        rw (something, m, a.appended _ bytes _)
            (grown ∙ ap (λ k. length (file l.world) + k) written),
        even,
        omega arith,
        less,
        rw (something, m, a.answer _ bytes _, positive) (omega arith),
      )
