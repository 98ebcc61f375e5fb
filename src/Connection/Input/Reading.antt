-- ===== src/Connection/Input/Reading.antt =====
-- src/TcpConnection.cc: what the loop of `handleRead` reads, and that it ends.
use mathlib.Core.List.{append_assoc, append-nil}
use kama_webserver.Prelude.{
  ℕ, zero, suc, ◌+◌, ◌*◌, ◌≤◌, ◌<◌, ◌≡◌, refl, sym, ap, ◌∙◌, Option, some, List, [], ◌∷◌, ◌++◌,
  length, drop, take, take-append-drop, ℕ_discrete, ◌==◌, if◌then◌else◌, arith,
}
use kama_webserver.Buffer.{Received, received, read_error, offered, after_read}
use kama_webserver.Buffer.Bounds.{IsValid, max_size}
use kama_webserver.Buffer.Contents.{contents}
use kama_webserver.Buffer.Reading.{WithinRoom, after_read_lem, read_fd-received, read_fd-read_error}
use kama_webserver.Buffer.Growing.{offered_lem, after_read-size}
use kama_webserver.Connection.{
  TcpConnection, eagain, emit, handle_close, handle_error, error_logged, message_called,
}
use kama_webserver.Connection.Input.{read_round, read_loop, handle_read}

-- The connection as the message callback finds it.
abbrev pub fed : List ℕ → TcpConnection → TcpConnection
fed bytes c = record c { input_buffer = after_read c.input_buffer bytes }

-- The end of the stream or an error.
unfoldable pub IsEnding : Received → Type 0
IsEnding (received []) = Unit
IsEnding (received (x ∷ xs)) = ⊥
IsEnding (read_error e) = Unit

-- What is due at the end: the peer's close and an error close the connection, EAGAIN leaves it.
unfoldable pub ended : Received → TcpConnection → TcpConnection
ended (received bytes) c = handle_close (fed bytes c)
ended (read_error e) c = if e == eagain then c else handle_error (emit error_logged c)

module _ (readv : ℕ → ℕ → Received) (on_message : ℕ → TcpConnection → TcpConnection) where
  -- From the `k`-th call of readv on, the chunks come in one by one, each followed by the callback.
  pub data Fed : ℕ → TcpConnection → List (List ℕ) → ℕ → TcpConnection → Type 0 where
    stays : (k : ℕ) (c : TcpConnection) → Fed k c [] k c
    gets :
        (k : ℕ) (c : TcpConnection) (x : ℕ) (xs : List ℕ) {chunks : List (List ℕ)} {m : ℕ}
        {d : TcpConnection}
        → readv k (offered c.input_buffer) ≡ received (x ∷ xs)
        → Fed (suc k) (on_message k (emit message_called (fed (x ∷ xs) c))) chunks m d
        → Fed k c ((x ∷ xs) ∷ chunks) m d

  pub record IsRead (k : ℕ) (c : TcpConnection) (r : Option TcpConnection) : Type 0 where
    pub chunks : List (List ℕ)
    pub last : ℕ
    pub before : TcpConnection
    pub steps : Fed k c chunks last before
    pub ending : Received
    pub answer : readv last (offered before.input_buffer) ≡ ending
    pub stops : IsEnding ending
    pub result : r ≡ some (ended ending before)

module _ (readv : ℕ → ℕ → Received) (on_message : ℕ → TcpConnection → TcpConnection) where
  next : ℕ → ℕ → TcpConnection → Option TcpConnection
  next fuel k read =
      read_loop fuel (suc k) readv on_message (on_message k (emit message_called read))

  -- What one round does with an answer.
  round : ℕ → ℕ → TcpConnection → Received → Option TcpConnection
  round fuel k c (received []) = some (ended (received []) c)
  round fuel k c (received (x ∷ xs)) =
      read_loop fuel (suc k) readv on_message (on_message k (emit message_called (fed (x ∷ xs) c)))
  round fuel k c (read_error e) = some (ended (read_error e) c)

  read_loop-round :
      (fuel k : ℕ) (c : TcpConnection) (r : Received)
      → readv k (offered c.input_buffer) ≡ r
      → read_loop (suc fuel) k readv on_message c ≡ round fuel k c r
  unfolding read_loop read_round round ended next
  read_loop-round fuel k c (received []) h =
      ap (read_round (next fuel k) c) (read_fd-received (readv k) c.input_buffer h)
  read_loop-round fuel k c (received (x ∷ xs)) h =
      ap (read_round (next fuel k) c) (read_fd-received (readv k) c.input_buffer h)
  read_loop-round fuel k c (read_error e) h =
      ap (read_round (next fuel k) c) (read_fd-read_error (readv k) c.input_buffer h)

  stopped-IsRead :
      (fuel k : ℕ) (c : TcpConnection) (r : Received)
      → IsEnding r
      → readv k (offered c.input_buffer) ≡ r
      → read_loop (suc fuel) k readv on_message c ≡ some (ended r c)
      → IsRead readv on_message k c (read_loop (suc fuel) k readv on_message c)
  stopped-IsRead fuel k c r stops h result = record {
    chunks = [];
    last = k;
    before = c;
    steps = stays k c;
    ending = r;
    answer = h;
    stops = stops;
    result = result;
  }

  round-IsRead :
      (fuel k : ℕ) (c : TcpConnection) (r : Received)
      → readv k (offered c.input_buffer) ≡ r
      → ((x : ℕ) (xs : List ℕ)
          → r ≡ received (x ∷ xs)
          → IsRead readv on_message (suc k) (on_message k (emit message_called (fed (x ∷ xs) c))) (
              read_loop fuel
                (suc k)
                readv
                on_message
                (on_message k (emit message_called (fed (x ∷ xs) c)))))
      → IsRead readv on_message k c (read_loop (suc fuel) k readv on_message c)
  unfolding round IsEnding
  round-IsRead fuel k c (received []) h more =
      stopped-IsRead fuel k c (received []) tt h (read_loop-round fuel k c (received []) h)
  round-IsRead fuel k c (read_error e) h more =
      stopped-IsRead fuel k c (read_error e) tt h (read_loop-round fuel k c (read_error e) h)
  round-IsRead fuel k c (received (x ∷ xs)) h more =
      let rest = more x xs refl in
      record {
        chunks = (x ∷ xs) ∷ rest.chunks;
        last = rest.last;
        before = rest.before;
        steps = gets k c x xs h rest.steps;
        ending = rest.ending;
        answer = rest.answer;
        stops = rest.stops;
        result = read_loop-round fuel k c (received (x ∷ xs)) h ∙ rest.result;
      }

not-ending : (r : Received) (x : ℕ) (xs : List ℕ) → IsEnding r → r ≡ received (x ∷ xs) → ⊥
unfolding IsEnding
not-ending (received []) x xs stops e = cc
not-ending (received (y ∷ ys)) x xs stops e = stops
not-ending (read_error i) x xs stops e = cc

module _ (readv : ℕ → ℕ → Received) (on_message : ℕ → TcpConnection → TcpConnection) (n : ℕ)
    (ends : (room : ℕ) → IsEnding (readv n room)) where
  read_loop-IsRead :
      (fuel k : ℕ) (c : TcpConnection)
      → k ≤ n
      → n < k + fuel
      → IsRead readv on_message k c (read_loop fuel k readv on_message c)
  read_loop-IsRead zero k c lo hi = absurd (omega arith)
  read_loop-IsRead (suc fuel) k c lo hi =
      round-IsRead readv on_message fuel k c (readv k (offered c.input_buffer)) refl (λ x xs e.
        elim (ℕ_discrete k n) [
          | yes at ↦ absurd (
              not-ending (readv k (offered c.input_buffer)) x xs
                (rw at (ends (offered c.input_buffer))) e)
          | no apart ↦
              read_loop-IsRead fuel (suc k) (on_message k (emit message_called (fed (x ∷ xs) c)))
                (omega (arith, lo)) (omega (arith, hi))
        ])

  -- The loop is over by the `n`-th call.
  pub Fed-last :
      {k m : ℕ} {c d : TcpConnection} {chunks : List (List ℕ)}
      → Fed readv on_message k c chunks m d
      → k ≤ n
      → m ≤ n
  Fed-last (stays k c) lo = lo
  Fed-last (gets k c x xs h rest) lo = elim (ℕ_discrete k n) [
    | yes at ↦ absurd (
        not-ending (readv k (offered c.input_buffer)) x xs (rw at (ends (offered c.input_buffer)))
          h)
    | no apart ↦ Fed-last rest (omega arith)
  ]

pub Fed-count :
    {readv : ℕ → ℕ → Received} {on_message : ℕ → TcpConnection → TcpConnection} {k m : ℕ}
    {c d : TcpConnection} {chunks : List (List ℕ)}
    → Fed readv on_message k c chunks m d
    → m ≡ k + length chunks
Fed-count (stays k c) = omega arith
Fed-count (gets k c x xs h rest) = omega (arith, Fed-count rest)

-- What the callbacks take off the front of the bytes they find, and what is left, on a plain queue.
unfoldable pub consumed : (ℕ → List ℕ → ℕ) → ℕ → List ℕ → List (List ℕ) → List ℕ
consumed consume k q [] = []
consumed consume k q (chunk ∷ chunks) =
    let found = q ++ chunk in
    take (consume k found) found ++ consumed consume (suc k) (drop (consume k found) found) chunks

unfoldable pub left_over : (ℕ → List ℕ → ℕ) → ℕ → List ℕ → List (List ℕ) → List ℕ
left_over consume k q [] = q
left_over consume k q (chunk ∷ chunks) =
    let found = q ++ chunk in left_over consume (suc k) (drop (consume k found) found) chunks

unfoldable pub concat : List (List ℕ) → List ℕ
concat [] = []
concat (chunk ∷ chunks) = chunk ++ concat chunks

consumed-left_over :
    (consume : ℕ → List ℕ → ℕ) (k : ℕ) (q : List ℕ) (chunks : List (List ℕ))
    → consumed consume k q chunks ++ left_over consume k q chunks ≡ q ++ concat chunks
unfolding consumed left_over concat
consumed-left_over consume k q [] = sym (append-nil q)
consumed-left_over consume k q (chunk ∷ chunks) =
    let found = q ++ chunk in
    append_assoc (take (consume k found) found)
      (consumed consume (suc k) (drop (consume k found) found) chunks)
      (left_over consume (suc k) (drop (consume k found) found) chunks)
    ∙ ap (◌++◌ (take (consume k found) found))
        (consumed-left_over consume (suc k) (drop (consume k found) found) chunks)
    ∙ sym
        (append_assoc (take (consume k found) found) (drop (consume k found) found) (concat chunks))
    ∙ ap (λ xs. xs ++ concat chunks) (take-append-drop (consume k found) found)
    ∙ append_assoc q chunk (concat chunks)

-- A callback that takes bytes off the front of the input buffer and does not let its array grow.
pub record Consumes (consume : ℕ → List ℕ → ℕ) (on_message : ℕ → TcpConnection → TcpConnection)
    : Type 0 where
  pub rest :
      (k : ℕ) (c : TcpConnection)
      → IsValid c.input_buffer
      → contents (on_message k c).input_buffer
        ≡ drop (consume k (contents c.input_buffer)) (contents c.input_buffer)
  pub valid :
      (k : ℕ) (c : TcpConnection) → IsValid c.input_buffer → IsValid (on_message k c).input_buffer
  pub size :
      (k : ℕ) (c : TcpConnection)
      → IsValid c.input_buffer
      → length (on_message k c).input_buffer.buffer ≤ length c.input_buffer.buffer

-- The bytes reach the callbacks in the order in which they came in, each once.
record IsFed (consume : ℕ → List ℕ → ℕ) (k : ℕ) (c : TcpConnection) (chunks : List (List ℕ))
    (d : TcpConnection) : Type 0 where
  pub left : contents d.input_buffer ≡ left_over consume k (contents c.input_buffer) chunks
  pub valid : IsValid d.input_buffer
  pub size : length d.input_buffer.buffer ≤ length c.input_buffer.buffer + length chunks * 65536

module _ (readv : ℕ → ℕ → Received) (on_message : ℕ → TcpConnection → TcpConnection)
    (consume : ℕ → List ℕ → ℕ) (within : (i : ℕ) → WithinRoom (readv i))
    (consumes : Consumes consume on_message) where
  Fed-IsFed :
      {k m : ℕ} {c d : TcpConnection} {chunks : List (List ℕ)}
      → Fed readv on_message k c chunks m d
      → IsValid c.input_buffer
      → length c.input_buffer.buffer + length chunks * 65536 ≤ max_size
      → IsFed consume k c chunks d
  unfolding left_over
  Fed-IsFed (stays k c) v fits = record { left = refl; valid = v; size = omega arith }
  Fed-IsFed (gets k c x xs {chunks} h rest) v fits =
      let small = within k (offered c.input_buffer) (x ∷ xs) h in
      let (bytes, v') = after_read_lem (x ∷ xs) v (omega (arith, small, offered_lem v, v.within)) in
      let grown = after_read-size (x ∷ xs) v small (omega arith) in
      let found = emit message_called (fed (x ∷ xs) c) in
      let r =
        Fed-IsFed rest (consumes.valid k found v')
          (omega (arith, consumes.size k found v', grown)) in
      record {
        left =
            r.left
            ∙ ap (λ q. left_over consume (suc k) q chunks)
                (consumes.rest k found v' ∙ ap (λ q. drop (consume k q) q) bytes);
        valid = r.valid;
        size = omega (arith, r.size, consumes.size k found v', grown);
      }

-- The outcome of `handleRead`.
pub record IsHandled (readv : ℕ → ℕ → Received) (on_message : ℕ → TcpConnection → TcpConnection)
    (consume : ℕ → List ℕ → ℕ) (c : TcpConnection) (r : Option TcpConnection) : Type 0 where
  pub read : IsRead readv on_message 0 c r
  pub left :
      contents read.before.input_buffer ≡ left_over consume 0 (contents c.input_buffer) read.chunks
  pub in_order :
      consumed consume 0 (contents c.input_buffer) read.chunks ++ contents read.before.input_buffer
      ≡ contents c.input_buffer ++ concat read.chunks
  pub valid : IsValid read.before.input_buffer

-- If readv returns no more than it has room for and its `n`-th call shows the end of the stream or an
-- error, the fuel is larger than `n`, the input buffer is sound and can grow by 64 KiB a call, and the
-- callback takes bytes off the front of the buffer it finds, then handleRead ends: one callback behind
-- each chunk that came in, and at the end the close of the connection, or on EAGAIN nothing. What the
-- callbacks took, followed by what the buffer holds, is what it held followed by the chunks, in order.
pub handle_read-IsHandled :
    (readv : ℕ → ℕ → Received) (on_message : ℕ → TcpConnection → TcpConnection)
    (consume : ℕ → List ℕ → ℕ) (fuel n : ℕ) (c : TcpConnection)
    → ((i : ℕ) → WithinRoom (readv i))
    → ((room : ℕ) → IsEnding (readv n room))
    → n < fuel
    → IsValid c.input_buffer
    → length c.input_buffer.buffer + n * 65536 ≤ max_size
    → Consumes consume on_message
    → IsHandled readv on_message consume c (handle_read fuel readv on_message c)
unfolding handle_read
handle_read-IsHandled readv on_message consume fuel n c within ends enough valid fits consumes =
    let read = read_loop-IsRead readv on_message n ends fuel 0 c (omega arith) (omega arith) in
    let rounds = Fed-count read.steps in
    let few = Fed-last readv on_message n ends read.steps (omega arith) in
    let fed =
      Fed-IsFed readv on_message consume within consumes read.steps valid
        (omega (arith, rounds, few)) in
    record {
      read = read;
      left = fed.left;
      in_order =
          ap (◌++◌ (consumed consume 0 (contents c.input_buffer) read.chunks)) fed.left
          ∙ consumed-left_over consume 0 (contents c.input_buffer) read.chunks;
      valid = fed.valid;
    }
