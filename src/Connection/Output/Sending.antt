-- ===== src/Connection/Output/Sending.antt =====
-- src/TcpConnection.cc: what `sendInLoop` does with its bytes.
use mathlib.Core.List.{append_assoc, append-nil}
use mathlib.Core.Path.{subst}
use kama_webserver.Prelude.{
  ℕ, zero, suc, ◌+◌, ◌-◌, ◌≤◌, ◌<◌, ◌≡◌, refl, sym, ap, ◌∙◌, Bool, Bool-cases, inl, inr, true,
  false, not, ◌&&◌, List, [], ◌∷◌, ◌++◌, length, take, drop, ltb, ◌==◌, if◌then◌else◌, arith,
  length-drop, take-append-drop, length-append,
}
use kama_webserver.Buffer
use kama_webserver.Buffer.{Buffer, Written, wrote, write_error, readable_bytes, sub_size}
use kama_webserver.Buffer.Bounds.{IsValid, max_size}
use kama_webserver.Buffer.Contents.{contents, length-contents, append_lem}
use kama_webserver.Channel.{is_writing}
use kama_webserver.Connection.{TcpConnection, is_disconnected, emit, error_logged, is_fault}
use kama_webserver.Connection.Output.{
  Attempt, take_written, try_write, keep_rest, finish_send, send_in_loop,
}

-- What the socket took, then what waits.
abbrev pub stream : TcpConnection → List ℕ
stream c = c.wire ++ contents c.output_buffer

-- The output buffer is sound, and EPOLLOUT is asked for exactly while bytes wait in it.
pub record IsReady (c : TcpConnection) : Type 0 where
  pub valid : IsValid c.output_buffer
  pub waits : is_writing c.events ≡ not (readable_bytes c.output_buffer == 0)

-- The kernel takes no more bytes than it was offered.
abbrev pub IsHonest : (List ℕ → Written) → Type 0
IsHonest write = (bytes : List ℕ) (n : ℕ) → write bytes ≡ wrote n → n ≤ length bytes

-- The bytes of a send that the code drops: a direct write failed with EPIPE or ECONNRESET.
unfoldable pub is_dropped : Written → Bool
is_dropped (wrote n) = false
is_dropped (write_error e) = is_fault e

pub kept_bytes : (List ℕ → Written) → List ℕ → TcpConnection → List ℕ
unfolding is_dropped
kept_bytes write bytes c =
    if not (is_writing c.events) && readable_bytes c.output_buffer == 0
    then if is_dropped (write bytes) then [] else bytes
    else bytes

-- A write that does not fail that way drops nothing.
pub kept_bytes-whole :
    (write : List ℕ → Written) (bytes : List ℕ) (c : TcpConnection)
    → is_dropped (write bytes) ≡ false
    → kept_bytes write bytes c ≡ bytes
unfolding kept_bytes
kept_bytes-whole write bytes c whole = ground (arith, whole)

take-all : (n : ℕ) (xs : List ℕ) → length xs ≤ n → take n xs ≡ xs
take-all zero [] h = refl
take-all (suc n) [] h = refl
take-all zero (x ∷ xs) h = absurd (omega arith)
take-all (suc n) (x ∷ xs) h = ap (◌∷◌ x) (take-all n xs (omega arith))

pub empty-length : (xs : List ℕ) → length xs ≡ 0 → xs ≡ []
empty-length [] h = refl
empty-length (x ∷ xs) h = absurd (omega arith)

drop-all : (n : ℕ) (xs : List ℕ) → take (length xs - n) (drop n xs) ≡ drop n xs
drop-all n xs = take-all _ (drop n xs) (omega (arith, length-drop n xs))

pub nonempty-append :
    {b : Buffer} (bytes : List ℕ)
    → IsValid b
    → b.writer_index + length bytes ≤ max_size
    → 0 < length bytes
    → (readable_bytes (Buffer.append b bytes) == 0) ≡ false
nonempty-append {b} bytes v fits some_bytes =
    let (same, v') = append_lem bytes v fits in
    ground (arith, length-contents v', ap length same, length-append (contents b) bytes)

-- The part behind the direct write, with bytes left.
module _ (rest : List ℕ) (old_len : ℕ) (c : TcpConnection) (v : IsValid c.output_buffer)
    (fits : c.output_buffer.writer_index + length rest ≤ max_size) where
  pub keep_rest-buffer :
      (keep_rest rest old_len c).output_buffer ≡ Buffer.append c.output_buffer rest
  unfolding keep_rest
  keep_rest-buffer = ground arith

  keep_rest-wire : (keep_rest rest old_len c).wire ≡ c.wire
  unfolding keep_rest
  keep_rest-wire = ground arith

  keep_rest-writing : is_writing (keep_rest rest old_len c).events ≡ true
  unfolding keep_rest
  keep_rest-writing = ground arith

  keep_rest-state : (keep_rest rest old_len c).state ≡ c.state
  unfolding keep_rest
  keep_rest-state = ground arith

  keep_rest-stream : stream (keep_rest rest old_len c) ≡ stream c ++ rest
  keep_rest-stream =
      ap (λ w. w ++ contents (keep_rest rest old_len c).output_buffer) keep_rest-wire
      ∙ ap (λ b. c.wire ++ contents b) keep_rest-buffer
      ∙ ap (◌++◌ c.wire) (append_lem rest v fits).0
      ∙ sym (append_assoc c.wire (contents c.output_buffer) rest)

  keep_rest-IsReady : 0 < length rest → IsReady (keep_rest rest old_len c)
  keep_rest-IsReady some_rest = record {
    valid = subst IsValid (sym keep_rest-buffer) (append_lem rest v fits).1;
    waits =
        ground (arith, keep_rest-buffer, keep_rest-writing, nonempty-append rest v fits some_rest);
  }

-- The direct write.
module _ (write : List ℕ → Written) (bytes : List ℕ) (c : TcpConnection) (ready : IsReady c)
    (honest : IsHonest write) (fits : c.output_buffer.writer_index + length bytes ≤ max_size) where
  abbrev attempt : Attempt
  attempt = try_write write bytes c

  abbrev rest : List ℕ
  rest = take attempt.remaining (drop attempt.nwrote bytes)

  attempt-buffer : attempt.after.output_buffer ≡ c.output_buffer
  unfolding try_write take_written
  attempt-buffer = ground arith

  attempt-events : attempt.after.events ≡ c.events
  unfolding try_write take_written
  attempt-events = ground arith

  attempt-state : attempt.after.state ≡ c.state
  unfolding try_write take_written
  attempt-state = ground arith

  attempt-fault : attempt.fault_error ≡ true → kept_bytes write bytes c ≡ []
  unfolding try_write take_written kept_bytes is_dropped
  attempt-fault h = ground (arith, h)

  attempt-wire-fault : attempt.fault_error ≡ true → attempt.after.wire ≡ c.wire
  unfolding try_write take_written
  attempt-wire-fault h = ground (arith, h)

  attempt-kept : attempt.fault_error ≡ false → kept_bytes write bytes c ≡ bytes
  unfolding try_write take_written kept_bytes is_dropped
  attempt-kept h = ground (arith, h)

  attempt-wire : attempt.after.wire ≡ c.wire ++ take attempt.nwrote bytes
  unfolding try_write take_written
  attempt-wire = ground (arith, append-nil c.wire)

  attempt-rest : rest ≡ drop attempt.nwrote bytes
  unfolding try_write take_written
  attempt-rest = ground (arith, drop-all attempt.nwrote bytes, honest bytes attempt.nwrote)

  attempt-remaining : attempt.remaining ≡ length bytes - attempt.nwrote
  unfolding try_write take_written
  attempt-remaining = ground (arith, honest bytes attempt.nwrote)

  contents-empty : (readable_bytes c.output_buffer == 0) ≡ true → contents c.output_buffer ≡ []
  contents-empty h =
      empty-length (contents c.output_buffer) (ground (arith, length-contents ready.valid))

  attempt-order :
      take attempt.nwrote bytes ++ contents c.output_buffer
      ≡ contents c.output_buffer ++ take attempt.nwrote bytes
  unfolding try_write take_written
  attempt-order = ground (
    arith,
    contents-empty,
    append-nil (take attempt.nwrote bytes),
    append-nil (contents c.output_buffer),
  )

  after-stream : stream attempt.after ≡ stream c ++ take attempt.nwrote bytes
  after-stream =
      ap (λ b. attempt.after.wire ++ contents b) attempt-buffer
      ∙ ap (λ w. w ++ contents c.output_buffer) attempt-wire
      ∙ append_assoc c.wire (take attempt.nwrote bytes) (contents c.output_buffer)
      ∙ ap (◌++◌ c.wire) attempt-order
      ∙ sym (append_assoc c.wire (contents c.output_buffer) (take attempt.nwrote bytes))

  after-IsReady : IsReady attempt.after
  after-IsReady = record {
    valid = subst IsValid (sym attempt-buffer) ready.valid;
    waits = ground (arith, attempt-buffer, attempt-events, ready.waits);
  }

  fault-stream : attempt.fault_error ≡ true → stream attempt.after ≡ stream c
  fault-stream h = rw (attempt-buffer, attempt-wire-fault h)

  after-fits : attempt.after.output_buffer.writer_index + length rest ≤ max_size
  after-fits = ground (arith, attempt-buffer, attempt-rest, length-drop attempt.nwrote bytes)

  done-stream :
      attempt.fault_error ≡ false
      → ltb 0 attempt.remaining ≡ false
      → stream attempt.after ≡ stream c ++ kept_bytes write bytes c
  done-stream kept none_left =
      after-stream
      ∙ ap (◌++◌ (stream c)) (
          take-all attempt.nwrote bytes (ground (arith, attempt-remaining))
          ∙ sym (attempt-kept kept))

  kept-stream :
      attempt.fault_error ≡ false
      → stream attempt.after ++ rest ≡ stream c ++ kept_bytes write bytes c
  kept-stream kept =
      ap (λ s. s ++ rest) after-stream
      ∙ ap (λ r. (stream c ++ take attempt.nwrote bytes) ++ r) attempt-rest
      ∙ append_assoc (stream c) (take attempt.nwrote bytes) (drop attempt.nwrote bytes)
      ∙ ap (◌++◌ (stream c)) (take-append-drop attempt.nwrote bytes ∙ sym (attempt-kept kept))

  finish_send_lem :
      (stream (finish_send bytes attempt) ≡ stream c ++ kept_bytes write bytes c)
      × IsReady (finish_send bytes attempt)
  unfolding finish_send
  finish_send_lem = elim (Bool-cases attempt.fault_error) [
    | inl fault ↦ rw fault (
      fault-stream fault
          ∙ sym (append-nil (stream c))
          ∙ ap (◌++◌ (stream c)) (sym (attempt-fault fault)),
      after-IsReady,
    )
    | inr kept ↦ elim (Bool-cases (ltb 0 attempt.remaining)) [
      | inl left ↦
          rw (kept, left)
            (
              keep_rest-stream rest _ attempt.after after-IsReady.valid after-fits
                  ∙ kept-stream kept,
              keep_rest-IsReady rest _ attempt.after after-IsReady.valid after-fits (
                  ground
                    (arith, attempt-rest, attempt-remaining, length-drop attempt.nwrote bytes)),
            )
      | inr none_left ↦ rw (kept, none_left) (done-stream kept none_left, after-IsReady)
    ]
  ]

logged-IsReady : (c : TcpConnection) → IsReady c → IsReady (emit error_logged c)
logged-IsReady c ready = record { valid = ready.valid; waits = ready.waits }

-- If write takes no more than it is offered, the output buffer is sound and can grow by the bytes,
-- and EPOLLOUT is asked for exactly while bytes wait, then sendInLoop adds its bytes to the end of
-- what the socket took and what waits, in this order, also in the state kDisconnected; only a
-- direct write that fails with EPIPE or ECONNRESET drops them. The condition on EPOLLOUT is kept.
pub send_in_loop_lem :
    (write : List ℕ → Written) (bytes : List ℕ) (c : TcpConnection)
    → IsReady c
    → IsHonest write
    → c.output_buffer.writer_index + length bytes ≤ max_size
    → (stream (send_in_loop write bytes c) ≡ stream c ++ kept_bytes write bytes c)
      × IsReady (send_in_loop write bytes c)
unfolding send_in_loop kept_bytes
send_in_loop_lem write bytes c ready honest fits = elim (Bool-cases (is_disconnected c.state)) [
  | inl down ↦
      rw down
        (finish_send_lem write bytes (emit error_logged c) (logged-IsReady c ready) honest fits)
  | inr up ↦ rw up (finish_send_lem write bytes c ready honest fits)
]
