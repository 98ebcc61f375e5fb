-- ===== src/Buffer/Reading.antt =====
-- Buffer::readFd: one readv into the writable part and the stack array, and the abstract queue that
-- a sequence of buffer calls implements.
use kama_webserver.Prelude.{
  ℕ, ◌+◌, ◌%◌, ◌^◌, ◌≤◌, ◌≡◌, refl, true, false, ap, ◌∙◌, inl, inr, List, ◌++◌, length, take, drop,
  arith, leb, Bool-cases, take-append-drop, length-take, length-drop,
}
use mathlib.Core.List.{append_assoc}
use kama_webserver.Prelude.Bytes.{store}
use kama_webserver.Buffer.{
  Buffer, writable_bytes, put, append, Received, received, read_error, offered, after_read, read_fd,
}
use kama_webserver.Buffer.Bounds.{IsValid, max_size, put-IsValid, writable_bytes_lem}
use kama_webserver.Buffer.Contents.{contents, put-contents, append_lem}

-- `readv` never reports more bytes than it was given room for.
abbrev pub WithinRoom : (ℕ → Received) → Type 0
WithinRoom readv = (room : ℕ) (bytes : List ℕ) → readv room ≡ received bytes → length bytes ≤ room

fill-put :
    {b : Buffer} (bytes : List ℕ)
    → IsValid b
    → leb (length bytes) (writable_bytes b) ≡ false
    → after_read b bytes
      ≡ append (put b (take (writable_bytes b) bytes)) (drop (writable_bytes b) bytes)
unfolding after_read put
fill-put {b} bytes v more = rw more (
    ap
      (λ w.
        append
          (record b {
            buffer = store b.buffer b.writer_index (take (writable_bytes b) bytes);
            writer_index = w;
          })
          (drop (writable_bytes b) bytes))
      full)
  where
    full : length b.buffer ≡ (b.writer_index + length (take (writable_bytes b) bytes)) % 2 ^ 64
    full = ground (arith, writable_bytes_lem v, length-take (writable_bytes b) bytes)

after_read-few :
    {b : Buffer} (bytes : List ℕ)
    → IsValid b
    → leb (length bytes) (writable_bytes b) ≡ true
    → (contents (after_read b bytes) ≡ contents b ++ bytes) × IsValid (after_read b bytes)
unfolding after_read
after_read-few {b} bytes v few = rw few (put-contents bytes v room, put-IsValid bytes v room)
  where
    room : b.writer_index + length bytes ≤ length b.buffer
    room = ground (arith, writable_bytes_lem v)

after_read-many :
    {b : Buffer} (bytes : List ℕ)
    → IsValid b
    → b.writer_index + length bytes ≤ max_size
    → leb (length bytes) (writable_bytes b) ≡ false
    → (contents (after_read b bytes) ≡ contents b ++ bytes) × IsValid (after_read b bytes)
after_read-many {b} bytes v fits many = rw (fill-put bytes v many) (
  rest.0
      ∙ ap (λ xs. xs ++ back) (put-contents front v room)
      ∙ append_assoc (contents b) front back
      ∙ ap (λ xs. contents b ++ xs) (take-append-drop (writable_bytes b) bytes),
  rest.1,
)
  where
    front : List ℕ
    front = take (writable_bytes b) bytes

    back : List ℕ
    back = drop (writable_bytes b) bytes

    room : b.writer_index + length front ≤ length b.buffer
    room = omega (arith, writable_bytes_lem v, length-take (writable_bytes b) bytes)

    fits' : (put b front).writer_index + length back ≤ max_size
    fits' =
        unfold put in
        ground (
          arith,
          writable_bytes_lem v,
          length-take (writable_bytes b) bytes,
          length-drop (writable_bytes b) bytes,
        )

    rest :
        (contents (append (put b front) back) ≡ contents (put b front) ++ back)
        × IsValid (append (put b front) back)
    rest = append_lem back (put-IsValid front v room) fits'

pub after_read_lem :
    {b : Buffer} (bytes : List ℕ)
    → IsValid b
    → b.writer_index + length bytes ≤ max_size
    → (contents (after_read b bytes) ≡ contents b ++ bytes) × IsValid (after_read b bytes)
after_read_lem {b} bytes v fits = elim (Bool-cases (leb (length bytes) (writable_bytes b))) [
  | inl few ↦ after_read-few bytes v few
  | inr many ↦ after_read-many bytes v fits many
]

pub read_fd-received :
    (readv : ℕ → Received) (b : Buffer) {bytes : List ℕ}
    → readv (offered b) ≡ received bytes
    → read_fd readv b ≡ (received bytes, after_read b bytes)
unfolding read_fd
read_fd-received readv b h = rw (h, read_fd) refl

pub read_fd-read_error :
    (readv : ℕ → Received) (b : Buffer) {e : ℕ}
    → readv (offered b) ≡ read_error e
    → read_fd readv b ≡ (read_error e, b)
unfolding read_fd
read_fd-read_error readv b h = rw (h, read_fd) refl

-- The outcome of `readFd`: bytes that came in are behind the readable ones, in order, also those
-- that went through the stack array; on an error nothing has changed.
abbrev pub ReadOutcome : Buffer → Received × Buffer → Type 0
ReadOutcome b (received bytes, b') =
    (contents b' ≡ contents b ++ bytes) × IsValid b' × (length bytes ≤ offered b)
ReadOutcome b (read_error e, b') = b' ≡ b

-- `readFd` loses no byte, whatever `readv` answers to the room that it was offered.
pub read_fd_lem :
    (readv : ℕ → Received) (b : Buffer)
    → WithinRoom readv
    → IsValid b
    → b.writer_index + offered b ≤ max_size
    → ReadOutcome b (read_fd readv b)
unfolding read_fd
read_fd_lem readv b within v fits = go (readv (offered b)) refl
  where
    go : (r : Received) → readv (offered b) ≡ r → ReadOutcome b (read_fd readv b)
    go (read_error e) h = rw (h, read_fd) refl
    go (received bytes) h =
        let room = within (offered b) bytes h in
        let (c, v') = after_read_lem bytes v (omega arith) in rw (h, read_fd) (c, v', room)
