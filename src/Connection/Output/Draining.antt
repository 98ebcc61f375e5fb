-- ===== src/Connection/Output/Draining.antt =====
-- src/TcpConnection.cc: the loop of `handleWrite`.
use mathlib.Core.List.{append_assoc}
use mathlib.Core.Path.{subst}
use kama_webserver.Prelude.{
  ℕ, zero, suc, ◌-◌, ◌≤◌, ◌<◌, ◌≡◌, refl, sym, ap, ◌∙◌, Bool, Bool-cases, inl, inr, true, false,
  Option, some, List, ◌++◌, length, take, ◌==◌, if◌then◌else◌, arith, length-drop, take-append-drop,
}
use kama_webserver.Buffer
use kama_webserver.Buffer.{Buffer, Written, wrote, write_error, readable_bytes, sub_size, write_fd}
use kama_webserver.Buffer.Bounds.{IsValid, retrieve-IsValid}
use kama_webserver.Buffer.Contents.{
  contents, length-contents, retrieve-contents, window-contents, write_fd_lem,
}
use kama_webserver.Channel.{is_writing}
use kama_webserver.Connection.{
  TcpConnection, StateE, is_disconnected, is_disconnecting, emit, error_logged, eagain, log_failure,
  shutdown_in_loop,
}
use kama_webserver.Connection.Output.{drained, after_write, write_loop, handle_write}
use kama_webserver.Connection.Output.Sending.{stream, IsReady, IsHonest}

-- `kConnecting` and `kConnected`.
abbrev pub is_open : StateE → Bool
is_open s = if is_disconnected s then false else if is_disconnecting s then false else true

-- A half-closed connection sends its FIN as soon as nothing waits, and nothing waits after it.
pub record IsClosing (c : TcpConnection) : Type 0 where
  pub shuts : is_disconnecting c.state ≡ true → is_writing c.events ≡ false → c.write_shut ≡ true
  pub last : c.write_shut ≡ true → is_writing c.events ≡ false
  pub refused : c.write_shut ≡ true → is_open c.state ≡ false

pub disconnecting-refused : (s : StateE) → is_disconnecting s ≡ true → is_open s ≡ false
unfolding is_disconnected is_disconnecting
disconnecting-refused s h = ground (arith, h)

module _ (n : ℕ) (c : TcpConnection) (ready : IsReady c)
    (within : n ≤ readable_bytes c.output_buffer) where
  after_write-buffer : (after_write n c).output_buffer ≡ Buffer.retrieve c.output_buffer n
  unfolding after_write drained shutdown_in_loop
  after_write-buffer = ground arith

  after_write-state : (after_write n c).state ≡ c.state
  unfolding after_write drained shutdown_in_loop
  after_write-state = ground arith

  after_write-wire : (after_write n c).wire ≡ c.wire ++ take n (contents c.output_buffer)
  unfolding after_write drained shutdown_in_loop
  after_write-wire = ground (arith, window-contents ready.valid)

  retrieved :
      readable_bytes (Buffer.retrieve c.output_buffer n) ≡ readable_bytes c.output_buffer - n
  retrieved =
      sym (length-contents (retrieve-IsValid n ready.valid))
      ∙ ap length (retrieve-contents n ready.valid)
      ∙ length-drop n (contents c.output_buffer)
      ∙ ap (λ m. m - n) (length-contents ready.valid)

  after_write-stream : stream (after_write n c) ≡ stream c
  after_write-stream =
      ap (λ b. (after_write n c).wire ++ contents b) after_write-buffer
      ∙ ap (λ w. w ++ contents (Buffer.retrieve c.output_buffer n)) after_write-wire
      ∙ append_assoc c.wire (take n (contents c.output_buffer)) _
      ∙ ap (λ q. c.wire ++ (take n (contents c.output_buffer) ++ q))
          (retrieve-contents n ready.valid)
      ∙ ap (◌++◌ c.wire) (take-append-drop n (contents c.output_buffer))

  after_write-IsReady : IsReady (after_write n c)
  unfolding after_write drained shutdown_in_loop
  after_write-IsReady = record {
    valid = subst IsValid (sym after_write-buffer) (retrieve-IsValid n ready.valid);
    waits = ground (arith, ready.waits, retrieved);
  }

  after_write-IsClosing : IsClosing c → IsClosing (after_write n c)
  unfolding after_write drained shutdown_in_loop
  after_write-IsClosing closing = record {
    shuts = λ a b.
        ground (arith, a, b, closing.shuts, closing.last, closing.refused, ready.waits, retrieved);
    last = λ a.
        ground (arith, a, closing.shuts, closing.last, closing.refused, ready.waits, retrieved);
    refused =
        λ a. ground (arith, a, closing.refused, after_write-state, disconnecting-refused c.state);
  }

-- What the loop leaves.
pub record IsDrained (c r : TcpConnection) : Type 0 where
  pub same_stream : stream r ≡ stream c
  pub ready : IsReady r
  pub closing : IsClosing c → IsClosing r
  pub same_state : r.state ≡ c.state

stop-IsDrained :
    (c r : TcpConnection)
    → IsReady c
    → IsReady r
    → (IsClosing c → IsClosing r)
    → stream r ≡ stream c
    → r.state ≡ c.state
    → IsDrained c r
stop-IsDrained c r v w h s t = record { same_stream = s; ready = w; closing = h; same_state = t }

logged-IsDrained : (c : TcpConnection) → IsReady c → IsDrained c (emit error_logged c)
logged-IsDrained c ready = record {
  same_stream = refl;
  ready = record { valid = ready.valid; waits = ready.waits };
  closing = λ h. record { shuts = h.shuts; last = h.last; refused = h.refused };
  same_state = refl;
}

unchanged-IsDrained : (c : TcpConnection) → IsReady c → IsDrained c c
unchanged-IsDrained c ready = record {
  same_stream = refl;
  ready = ready;
  closing = λ h. h;
  same_state = refl;
}

step-IsDrained : (c d r : TcpConnection) → IsDrained c d → IsDrained d r → IsDrained c r
step-IsDrained c d r s t = record {
  same_stream = t.same_stream ∙ s.same_stream;
  ready = t.ready;
  closing = λ h. t.closing (s.closing h);
  same_state = t.same_state ∙ s.same_state;
}

failure-IsDrained : (e : ℕ) (c : TcpConnection) → IsReady c → IsDrained c (log_failure e c)
failure-IsDrained e c ready = elim (Bool-cases (e == eagain)) [
  | inl again ↦ rw again (unchanged-IsDrained c ready)
  | inr other ↦ rw other (logged-IsDrained c ready)
]

-- The outcome of the loop, which ends.
abbrev pub WriteOutcome : TcpConnection → Option TcpConnection → Type 0
WriteOutcome c r = (c' : TcpConnection) × (r ≡ some c') × IsDrained c c'

after_write-IsDrained :
    (n : ℕ) (c : TcpConnection)
    → IsReady c
    → n ≤ readable_bytes c.output_buffer
    → IsDrained c (after_write n c)
after_write-IsDrained n c ready within = record {
  same_stream = after_write-stream n c ready within;
  ready = after_write-IsReady n c ready within;
  closing = after_write-IsClosing n c ready within;
  same_state = after_write-state n c ready within;
}

after_write-shorter :
    (n : ℕ) (c : TcpConnection) (ready : IsReady c) (within : n ≤ readable_bytes c.output_buffer)
    (fuel : ℕ)
    → readable_bytes c.output_buffer < suc fuel
    → 0 < n
    → readable_bytes (after_write n c).output_buffer < fuel
after_write-shorter n c ready within fuel enough some_bytes =
    omega
      (arith, ap readable_bytes (after_write-buffer n c ready within), retrieved n c ready within)

write_loop_lem :
    (fuel k : ℕ) (write : ℕ → List ℕ → Written) (c : TcpConnection)
    → ((i : ℕ) → IsHonest (write i))
    → IsReady c
    → readable_bytes c.output_buffer < fuel
    → WriteOutcome c (write_loop fuel k write c)
unfolding write_loop
write_loop_lem zero k write c honest ready enough = absurd (omega arith)
write_loop_lem (suc fuel) k write c honest ready enough =
    go (write_fd (write k) c.output_buffer) refl
      (λ next h less. write_loop_lem fuel (suc k) write next honest h less)
  where
    go :
        (w : Written)
        → write_fd (write k) c.output_buffer ≡ w
        → ((next : TcpConnection)
            → IsReady next
            → readable_bytes next.output_buffer < fuel
            → WriteOutcome next (write_loop fuel (suc k) write next))
        → WriteOutcome c (elim w [
          | wrote zero ↦ some (emit error_logged c)
          | wrote (suc n) ↦ write_loop fuel (suc k) write (after_write (suc n) c)
          | write_error e ↦ some (log_failure e c)
        ])
    go (wrote zero) eq again = (_, refl, logged-IsDrained c ready)
    go (write_error e) eq again = (_, refl, failure-IsDrained e c ready)
    go (wrote (suc n)) eq again =
        let within : suc n ≤ readable_bytes c.output_buffer = omega (
          arith,
          honest k (contents c.output_buffer) (suc n)
              (sym (write_fd_lem (write k) ready.valid) ∙ eq),
          length-contents ready.valid,
        ) in
        let next = after_write (suc n) c in
        let (r, eq', done) =
          again next (after_write-IsReady (suc n) c ready within)
            (after_write-shorter (suc n) c ready within fuel enough (omega arith)) in
        (r, eq', step-IsDrained c next r (after_write-IsDrained (suc n) c ready within) done)

-- If write takes no more than it is offered, the output buffer is sound, EPOLLOUT is asked for
-- exactly while bytes wait, and there is fuel for one round more than bytes wait, then handleWrite
-- ends. What the socket took followed by what waits is the same bytes in the same order, the state
-- is the same, the conditions on the buffer and EPOLLOUT are kept, and if a connection in
-- kDisconnecting was to shut its write side exactly when nothing waits, it still is.
pub handle_write_lem :
    (fuel : ℕ) (write : ℕ → List ℕ → Written) (c : TcpConnection)
    → ((i : ℕ) → IsHonest (write i))
    → IsReady c
    → readable_bytes c.output_buffer < fuel
    → WriteOutcome c (handle_write fuel write c)
unfolding handle_write
handle_write_lem fuel write c honest ready enough = elim (Bool-cases (is_writing c.events)) [
  | inl on ↦ simp on (write_loop_lem fuel 0 write c honest ready enough)
  | inr off ↦ simp off (_, refl, logged-IsDrained c ready)
]

pub handle_write-off :
    (fuel : ℕ) (write : ℕ → List ℕ → Written) (c : TcpConnection)
    → is_writing c.events ≡ false
    → handle_write fuel write c ≡ some (emit error_logged c)
unfolding handle_write
handle_write-off fuel write c off = ground (arith, off)
