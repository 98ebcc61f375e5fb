-- ===== src/Buffer.antt =====
-- include/Buffer.h and src/Buffer.cc: the growing byte buffer of a connection.
-- Sizes are `size_t`, kept modulo 2 ^ 64. `readv` and `write` are arguments: the answer of the
-- kernel to one call. Allocation is taken to succeed.
pub mod Bounds
pub mod Contents
pub mod Queue
pub mod Reading
pub mod Growing
mod Tests
use kama_webserver.Prelude.{
  ℕ, ◌+◌, ◌-◌, ◌%◌, ◌^◌, List, length, take, drop, ltb, leb, if◌then◌else◌,
}
use kama_webserver.Prelude.Bytes.{store, copy_within, resize, window}

abbrev pub cheap_prepend : ℕ
cheap_prepend = 8

abbrev pub extra_size : ℕ
extra_size = 65536

-- `size_t` addition and subtraction.
abbrev pub add_size : ℕ → ℕ → ℕ
add_size a b = (a + b) % 2 ^ 64

abbrev pub sub_size : ℕ → ℕ → ℕ
sub_size a b = (a + 2 ^ 64 - b) % 2 ^ 64

pub record Buffer : Type 0 where
  pub buffer : List ℕ
  pub reader_index : ℕ
  pub writer_index : ℕ

pub readable_bytes : Buffer → ℕ
readable_bytes b = sub_size b.writer_index b.reader_index

pub writable_bytes : Buffer → ℕ
writable_bytes b = sub_size (length b.buffer) b.writer_index

pub prependable_bytes : Buffer → ℕ
prependable_bytes b = b.reader_index

-- The constructor; `resize` of the empty vector makes the zeroed array.
pub init : ℕ → Buffer
unfolding resize
init initial_size = record {
  buffer = resize List.[] (add_size cheap_prepend initial_size);
  reader_index = cheap_prepend;
  writer_index = cheap_prepend;
}

pub retrieve_all : Buffer → Buffer
retrieve_all b = record b { reader_index = cheap_prepend; writer_index = cheap_prepend }

pub retrieve : Buffer → ℕ → Buffer
unfolding readable_bytes retrieve_all
retrieve b len =
    if ltb len (readable_bytes b)
    then record b { reader_index = add_size b.reader_index len }
    else retrieve_all b

pub retrieve_as_string : Buffer → ℕ → List ℕ × Buffer
retrieve_as_string b len = (window b.buffer b.reader_index len, retrieve b len)

pub retrieve_all_as_string : Buffer → List ℕ × Buffer
retrieve_all_as_string b = retrieve_as_string b (readable_bytes b)

pub make_space : Buffer → ℕ → Buffer
unfolding readable_bytes writable_bytes prependable_bytes
make_space b len =
    if ltb (add_size (writable_bytes b) (prependable_bytes b)) (add_size len cheap_prepend)
    then record b { buffer = resize b.buffer (add_size b.writer_index len) }
    else moved
  where
    moved : Buffer
    moved = record {
      buffer = copy_within (readable_bytes b) b.buffer b.reader_index cheap_prepend;
      reader_index = cheap_prepend;
      writer_index = add_size cheap_prepend (readable_bytes b);
    }

pub ensure_writable_bytes : Buffer → ℕ → Buffer
unfolding writable_bytes
ensure_writable_bytes b len = if ltb (writable_bytes b) len then make_space b len else b

-- The write at `beginWrite()` and the move of the index behind it.
pub put : Buffer → List ℕ → Buffer
put b bytes = record b {
  buffer = store b.buffer b.writer_index bytes;
  writer_index = add_size b.writer_index (length bytes);
}

pub append : Buffer → List ℕ → Buffer
append b bytes = put (ensure_writable_bytes b (length bytes)) bytes

-- What `readv` and `write` answer: the bytes that came in, or how many went out, or an errno.
pub data Received : Type 0 where
  received : List ℕ → Received
  read_error : ℕ → Received

pub data Written : Type 0 where
  wrote : ℕ → Written
  write_error : ℕ → Written

-- The space that `readFd` offers: `vec[0]`, and `vec[1]` if `iovcnt` is 2.
pub offered : Buffer → ℕ
unfolding writable_bytes
offered b =
    if ltb (writable_bytes b) extra_size
    then add_size (writable_bytes b) extra_size
    else writable_bytes b

-- `readv` fills the writable part first and `extrabuf` with what is left.
pub after_read : Buffer → List ℕ → Buffer
unfolding writable_bytes
after_read b bytes =
    if leb (length bytes) (writable_bytes b)
    then put b bytes
    else append
        (record b {
          buffer = store b.buffer b.writer_index (take (writable_bytes b) bytes);
          writer_index = length b.buffer;
        })
        (drop (writable_bytes b) bytes)

pub read_fd : (ℕ → Received) → Buffer → Received × Buffer
unfolding offered after_read
read_fd readv b = elim (readv (offered b)) [
  | read_error e ↦ (read_error e, b)
  | received bytes ↦ (received bytes, after_read b bytes)
]

-- `writeFd` hands the readable bytes to `write` and moves no index.
pub write_fd : (List ℕ → Written) → Buffer → Written
write_fd write b = write (window b.buffer b.reader_index (readable_bytes b))
