-- ===== src/Connection/Input.antt =====
-- src/TcpConnection.cc: the loop of `handleRead`.
pub mod Reading
use kama_webserver.Prelude.{ℕ, zero, suc, Option, none, some, [], ◌∷◌, ◌==◌, if◌then◌else◌}
use kama_webserver.Buffer.{Buffer, Received, received, read_error, read_fd}
use kama_webserver.Connection.{
  TcpConnection, eagain, emit, handle_close, handle_error, error_logged, message_called,
}

-- One round, with what `readFd` returned and left; `next` is the callback and the rounds behind it.
pub read_round :
    (TcpConnection → Option TcpConnection)
    → TcpConnection
    → Received × Buffer
    → Option TcpConnection
unfolding handle_close handle_error
read_round next c (received [], b) = some (handle_close (record c { input_buffer = b }))
read_round next c (received (x ∷ xs), b) = next (record c { input_buffer = b })
read_round next c (read_error e, b) =
    let read = record c { input_buffer = b } in
    some (if e == eagain then read else handle_error (emit error_logged read))

-- The loop of `handleRead`; `on_message k` is what the user's callback does to the connection behind
-- the `k`-th call of readv.
pub read_loop :
    ℕ
    → ℕ
    → (ℕ → ℕ → Received)
    → (ℕ → TcpConnection → TcpConnection)
    → TcpConnection
    → Option TcpConnection
unfolding read_round
read_loop zero k readv on_message c = none
read_loop (suc fuel) k readv on_message c =
    read_round
      (λ read. read_loop fuel (suc k) readv on_message (on_message k (emit message_called read))) c
      (read_fd (readv k) c.input_buffer)

pub handle_read :
    ℕ
    → (ℕ → ℕ → Received)
    → (ℕ → TcpConnection → TcpConnection)
    → TcpConnection
    → Option TcpConnection
unfolding read_loop
handle_read fuel readv on_message c = read_loop fuel 0 readv on_message c
