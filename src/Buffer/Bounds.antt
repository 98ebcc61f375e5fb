-- ===== src/Buffer/Bounds.antt =====
-- Index bounds of the buffer: `CheapPrepend <= readerIndex_ <= writerIndex_ <= buffer_.size()`.
use kama_webserver.Prelude.{
  ℕ, ◌+◌, ◌-◌, ◌%◌, ◌^◌, ◌≤◌, ◌<◌, ◌≡◌, List, [], length, arith, ltb, if◌then◌else◌,
}
use kama_webserver.Prelude.Bytes.{
  resize, copy_within, length-resize, length-store, length-copy_within,
}
use kama_webserver.Buffer.{
  Buffer, readable_bytes, writable_bytes, init, retrieve_all, retrieve, make_space,
  ensure_writable_bytes, put, append,
}

-- The largest size of a vector<char>, PTRDIFF_MAX.
abbrev pub max_size : ℕ
max_size = 2 ^ 63 - 1

pub record IsValid (b : Buffer) : Type 0 where
  pub prepended : 8 ≤ b.reader_index
  pub ordered : b.reader_index ≤ b.writer_index
  pub within : b.writer_index ≤ length b.buffer
  pub bounded : length b.buffer ≤ max_size

pub readable_bytes_lem :
    {b : Buffer} → IsValid b → readable_bytes b ≡ b.writer_index - b.reader_index
unfolding readable_bytes
readable_bytes_lem v = omega arith

pub writable_bytes_lem :
    {b : Buffer} → IsValid b → writable_bytes b ≡ length b.buffer - b.writer_index
unfolding writable_bytes
writable_bytes_lem v = omega arith

pub init-IsValid : (n : ℕ) → n + 8 ≤ max_size → IsValid (init n)
unfolding init
init-IsValid n h = record {
  prepended = omega arith;
  ordered = omega arith;
  within = omega (arith, length-resize [] ((8 + n) % 2 ^ 64));
  bounded = omega (arith, length-resize [] ((8 + n) % 2 ^ 64));
}

pub retrieve_all-IsValid : {b : Buffer} → IsValid b → IsValid (retrieve_all b)
unfolding retrieve_all
retrieve_all-IsValid v = omega arith

-- Reading any amount keeps the indices in order; more than is readable empties the buffer.
pub retrieve-IsValid : {b : Buffer} (len : ℕ) → IsValid b → IsValid (retrieve b len)
unfolding retrieve
retrieve-IsValid len v = ground arith

-- Without the wrap-around, which the bounds rule out.
pub make_space_lem :
    {b : Buffer} (len : ℕ)
    → IsValid b
    → b.writer_index + len ≤ max_size
    → make_space b len ≡ (
        if ltb (length b.buffer - b.writer_index + b.reader_index) (len + 8)
        then record b { buffer = resize b.buffer (b.writer_index + len) }
        else record {
          buffer = copy_within (b.writer_index - b.reader_index) b.buffer b.reader_index 8;
          reader_index = 8;
          writer_index = 8 + (b.writer_index - b.reader_index);
        })
unfolding make_space
make_space_lem {b} len v fits = rw (free, readable, total, needed, end, moved)
  where
    free : (length b.buffer + 2 ^ 64 - b.writer_index) % 2 ^ 64 ≡ length b.buffer - b.writer_index
    free = omega arith

    readable : (b.writer_index + 2 ^ 64 - b.reader_index) % 2 ^ 64 ≡ b.writer_index - b.reader_index
    readable = omega arith

    total :
        (length b.buffer - b.writer_index + b.reader_index) % 2 ^ 64
        ≡ length b.buffer - b.writer_index + b.reader_index
    total = omega arith

    needed : (len + 8) % 2 ^ 64 ≡ len + 8
    needed = omega arith

    end : (b.writer_index + len) % 2 ^ 64 ≡ b.writer_index + len
    end = omega arith

    moved : (8 + (b.writer_index - b.reader_index)) % 2 ^ 64 ≡ 8 + (b.writer_index - b.reader_index)
    moved = omega arith

-- `makeSpace`, called when the writable part is too short, leaves room for `len` bytes.
make_space-IsValid :
    {b : Buffer} (len : ℕ)
    → IsValid b
    → length b.buffer < b.writer_index + len
    → b.writer_index + len ≤ max_size
    → IsValid (make_space b len)
      × ((make_space b len).writer_index + len ≤ length (make_space b len).buffer)
make_space-IsValid {b} len v short fits = rw (make_space_lem len v fits) (
    ground (
      arith,
      length-resize b.buffer (b.writer_index + len),
      length-copy_within (b.writer_index - b.reader_index) b.buffer b.reader_index 8,
    ))

-- `ensureWritableBytes` leaves at least `len` writable bytes and a buffer within its bounds.
pub ensure_writable_bytes-IsValid :
    {b : Buffer} (len : ℕ)
    → IsValid b
    → b.writer_index + len ≤ max_size
    → IsValid (ensure_writable_bytes b len)
      × ((ensure_writable_bytes b len).writer_index + len
          ≤ length (ensure_writable_bytes b len).buffer)
unfolding ensure_writable_bytes
ensure_writable_bytes-IsValid {b} len v fits = ground (arith, make_space-IsValid len v)

pub put-IsValid :
    {b : Buffer} (bytes : List ℕ)
    → IsValid b
    → b.writer_index + length bytes ≤ length b.buffer
    → IsValid (put b bytes)
unfolding put
put-IsValid {b} bytes v room = record {
  prepended = v.prepended;
  ordered = omega arith;
  within = omega (arith, length-store b.buffer b.writer_index bytes);
  bounded = omega (arith, length-store b.buffer b.writer_index bytes);
}

pub append-IsValid :
    {b : Buffer} (bytes : List ℕ)
    → IsValid b
    → b.writer_index + length bytes ≤ max_size
    → IsValid (append b bytes)
unfolding append
append-IsValid bytes v fits =
    let (v', room) = ensure_writable_bytes-IsValid (length bytes) v fits in
    put-IsValid bytes v' room
