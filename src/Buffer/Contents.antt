-- ===== src/Buffer/Contents.antt =====
-- What the buffer holds: the readable bytes, as a first-in first-out queue of bytes.
use kama_webserver.Prelude.{
  ℕ, ◌+◌, ◌-◌, ◌%◌, ◌^◌, ◌≤◌, ◌<◌, ◌≡◌, ap, ap₂, ◌∙◌, sym, List, [], ◌++◌, length, take, drop,
  arith,
}
use kama_webserver.Prelude.Bytes.{
  window, store, window-resize, window-copy_within, window-store, window-store_before,
  window-append, window-take, window-drop, length-window,
}
use kama_webserver.Buffer.{
  Buffer, readable_bytes, retrieve, retrieve_as_string, retrieve_all_as_string, make_space,
  ensure_writable_bytes, put, append, init, Written, write_fd,
}
use kama_webserver.Buffer.Bounds.{
  IsValid, max_size, readable_bytes_lem, writable_bytes_lem, make_space_lem,
  ensure_writable_bytes-IsValid, append-IsValid, retrieve-IsValid,
}

unfoldable pub contents : Buffer → List ℕ
contents b = window b.buffer b.reader_index (b.writer_index - b.reader_index)

pub length-contents : {b : Buffer} → IsValid b → length (contents b) ≡ readable_bytes b
unfolding contents
length-contents {b} v =
    length-window b.buffer b.reader_index (b.writer_index - b.reader_index)
    ∙ sym (readable_bytes_lem v)

make_space-contents :
    {b : Buffer} (len : ℕ)
    → IsValid b
    → length b.buffer < b.writer_index + len
    → b.writer_index + len ≤ max_size
    → contents (make_space b len) ≡ contents b
unfolding contents
make_space-contents {b} len v short fits = rw (make_space_lem len v fits) (
    ground (
      arith,
      window-resize b.buffer (b.writer_index + len) b.reader_index
          (b.writer_index - b.reader_index),
      window-copy_within (b.writer_index - b.reader_index) b.buffer b.reader_index 8,
    ))

-- Making room, by growing the array or by moving the bytes down, keeps what is readable.
pub ensure_writable_bytes-contents :
    {b : Buffer} (len : ℕ)
    → IsValid b
    → b.writer_index + len ≤ max_size
    → contents (ensure_writable_bytes b len) ≡ contents b
unfolding ensure_writable_bytes
ensure_writable_bytes-contents {b} len v fits =
    ground (arith, writable_bytes_lem v, make_space-contents len v)

pub put-contents :
    {b : Buffer} (bytes : List ℕ)
    → IsValid b
    → b.writer_index + length bytes ≤ length b.buffer
    → contents (put b bytes) ≡ contents b ++ bytes
unfolding put contents
put-contents {b} bytes v room =
    ap (window _ b.reader_index) size
    ∙ window-append (store b.buffer b.writer_index bytes) b.reader_index old (length bytes)
    ∙ ap₂ ◌++◌ (window-store_before b.buffer b.writer_index bytes b.reader_index old (omega arith))
        (ap (λ t. window (store b.buffer b.writer_index bytes) t (length bytes)) at_end
          ∙ window-store b.buffer b.writer_index bytes room)
  where
    old : ℕ
    old = b.writer_index - b.reader_index

    size : (b.writer_index + length bytes) % 2 ^ 64 - b.reader_index ≡ old + length bytes
    size = omega arith

    at_end : b.reader_index + old ≡ b.writer_index
    at_end = omega arith

-- `append` puts the bytes behind those that are readable, and keeps the buffer within its bounds,
-- whether it has room, moves the bytes down or grows the array.
pub append_lem :
    {b : Buffer} (bytes : List ℕ)
    → IsValid b
    → b.writer_index + length bytes ≤ max_size
    → (contents (append b bytes) ≡ contents b ++ bytes) × IsValid (append b bytes)
unfolding append
append_lem {b} bytes v fits =
    let (v', room) = ensure_writable_bytes-IsValid (length bytes) v fits in
    (
      put-contents bytes v' room
          ∙ ap (λ xs. xs ++ bytes) (ensure_writable_bytes-contents (length bytes) v fits),
      append-IsValid bytes v fits,
    )

-- `retrieve` drops that many bytes from the front, and all of them if fewer are readable.
pub retrieve-contents :
    {b : Buffer} (len : ℕ) → IsValid b → contents (retrieve b len) ≡ drop len (contents b)
unfolding retrieve contents window
retrieve-contents {b} len v =
    ground (arith, window-drop b.buffer b.reader_index len (b.writer_index - b.reader_index))

pub window-contents :
    {b : Buffer} → IsValid b → window b.buffer b.reader_index (readable_bytes b) ≡ contents b
unfolding contents
window-contents {b} v = ap (window b.buffer b.reader_index) (readable_bytes_lem v)

pub contents-init : (n : ℕ) → contents (init n) ≡ []
unfolding contents init window
contents-init n = λ i. []

pub writer-init : (n : ℕ) → (init n).writer_index ≡ 8
unfolding init
writer-init n = λ i. 8

-- `writeFd` offers what is readable.
pub write_fd_lem :
    (write : List ℕ → Written) {b : Buffer} → IsValid b → write_fd write b ≡ write (contents b)
unfolding write_fd
write_fd_lem write v = ap write (window-contents v)

-- `retrieveAsString` takes its bytes off the front of what is readable, in order.
pub retrieve_as_string_lem :
    {b : Buffer} (len : ℕ)
    → IsValid b
    → len ≤ readable_bytes b
    → ((retrieve_as_string b len).0 ≡ take len (contents b))
      × (contents (retrieve_as_string b len).1 ≡ drop len (contents b))
      × IsValid (retrieve_as_string b len).1
unfolding retrieve_as_string
retrieve_as_string_lem {b} len v enough = (
  sym (
      unfold contents in
      window-take b.buffer b.reader_index len _ (omega (arith, readable_bytes_lem v))),
  retrieve-contents len v,
  retrieve-IsValid len v,
)

-- `retrieveAllAsString` hands over everything readable and leaves nothing.
pub retrieve_all_as_string_lem :
    {b : Buffer}
    → IsValid b
    → ((retrieve_all_as_string b).0 ≡ contents b)
      × (contents (retrieve_all_as_string b).1 ≡ [])
      × IsValid (retrieve_all_as_string b).1
unfolding retrieve_all_as_string
retrieve_all_as_string_lem {b} v = (
  unfold retrieve_as_string contents in rw (readable_bytes_lem v),
  unfold retrieve_as_string in
      (retrieve-contents (readable_bytes b) v
        ∙ unfold contents in
          (window-drop b.buffer b.reader_index (readable_bytes b) _
            ∙ unfold window in ground (arith, readable_bytes_lem v))),
  unfold retrieve_as_string in retrieve-IsValid (readable_bytes b) v,
)
