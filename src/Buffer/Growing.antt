-- ===== src/Buffer/Growing.antt =====
-- How far the array of a Buffer grows.
use kama_webserver.Prelude.{
  ℕ, ◌+◌, ◌-◌, ◌%◌, ◌^◌, [], ◌≤◌, ◌≡◌, List, length, take, drop, arith, leb, ltb, length-drop,
  Bool-cases, inl, inr,
}
use kama_webserver.Prelude.Bytes.{store, length-resize, length-store, length-copy_within}
use kama_webserver.Buffer.{
  readable_bytes, Buffer, writable_bytes, ensure_writable_bytes, make_space, put, append, offered,
  after_read, retrieve_all, retrieve, init, retrieve_as_string, retrieve_all_as_string,
}
use kama_webserver.Buffer.Bounds.{IsValid, max_size, make_space_lem, writable_bytes_lem}

module _ {b : Buffer} (v : IsValid b) where
  make_space-size :
      (len : ℕ)
      → b.writer_index + len ≤ max_size
      → length b.buffer ≤ b.writer_index + len
      → length (make_space b len).buffer ≤ b.writer_index + len
  make_space-size len fits short = rw (make_space_lem len v fits) (
      ground (
        arith,
        length-resize b.buffer (b.writer_index + len),
        length-copy_within (b.writer_index - b.reader_index) b.buffer b.reader_index 8,
      ))

  pub append-size :
      (bytes : List ℕ) (m : ℕ)
      → b.writer_index + length bytes ≤ max_size
      → length b.buffer ≤ m
      → b.writer_index + length bytes ≤ m
      → length (append b bytes).buffer ≤ m
  unfolding append put ensure_writable_bytes
  append-size bytes m fits old enough = elim (Bool-cases (ltb (writable_bytes b) (length bytes))) [
    | inl short ↦ rw short (
        omega (
          arith,
          make_space-size (length bytes) fits (ground (arith, short, writable_bytes_lem v)),
          length-store (make_space b (length bytes)).buffer
              (make_space b (length bytes)).writer_index bytes,
        ))
    | inr room ↦ rw room (omega (arith, length-store b.buffer b.writer_index bytes))
  ]

  pub offered_lem : offered b ≤ (length b.buffer - b.writer_index) + 65536
  unfolding offered
  offered_lem = ground (arith, writable_bytes_lem v)

-- One `readv` makes the array at most 65536 bytes larger.
pub after_read-size :
    {b : Buffer} (bytes : List ℕ)
    → IsValid b
    → length bytes ≤ offered b
    → length b.buffer + 65536 ≤ max_size
    → length (after_read b bytes).buffer ≤ length b.buffer + 65536
unfolding after_read
after_read-size {b} bytes v room fits = elim (Bool-cases (leb (length bytes) (writable_bytes b))) [
  | inl few ↦ rw few (unfold put in omega (arith, length-store b.buffer b.writer_index bytes))
  | inr many ↦ rw many (
      append-size {b = filled} filled-IsValid back (length b.buffer + 65536)
        (omega (arith, back-length, length-store b.buffer b.writer_index front))
        (omega (arith, length-store b.buffer b.writer_index front)) (omega (arith, back-length)))
]
  where
    front : List ℕ
    front = take (writable_bytes b) bytes

    back : List ℕ
    back = drop (writable_bytes b) bytes

    filled : Buffer
    filled = record b {
      buffer = store b.buffer b.writer_index front;
      writer_index = length b.buffer;
    }

    back-length : length back ≤ 65536
    back-length =
        omega (arith, length-drop (writable_bytes b) bytes, writable_bytes_lem v, offered_lem v)

    filled-IsValid : IsValid filled
    filled-IsValid = record {
      prepended = v.prepended;
      ordered = omega (arith, v.ordered, v.within);
      within = omega (arith, length-store b.buffer b.writer_index front);
      bounded = omega (arith, length-store b.buffer b.writer_index front, v.bounded);
    }

pub retrieve_all_as_string-array : (b : Buffer) → (retrieve_all_as_string b).1.buffer ≡ b.buffer
unfolding retrieve_all_as_string retrieve_as_string retrieve retrieve_all
retrieve_all_as_string-array b = ground arith

pub length-init : (n : ℕ) → n + 8 ≤ max_size → length (init n).buffer ≡ n + 8
unfolding init
length-init n h = omega (arith, length-resize [] ((8 + n) % 2 ^ 64))

pub readable_bytes-init : (n : ℕ) → readable_bytes (init n) ≡ 0
unfolding readable_bytes init
readable_bytes-init n = omega arith
