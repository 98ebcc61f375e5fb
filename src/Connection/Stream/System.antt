-- ===== src/Connection/Stream/System.antt =====
-- src/TcpConnection.cc: the life of a connection, as steps of its loop, and what it should keep. The
-- user's calls in the message callback are steps like others.
use kama_webserver.Prelude.{
  ℕ, ◌+◌, ◌≤◌, ◌<◌, ◌≡◌, refl, ap, true, false, some, List, [], ◌++◌, length, if◌then◌else◌, arith,
}
use kama_webserver.Buffer.{Written, readable_bytes}
use kama_webserver.Buffer.Bounds.{IsValid, max_size, init-IsValid}
use kama_webserver.Buffer.Contents.{length-contents, contents-init, writer-init}
use kama_webserver.Channel.{is_writing}
use kama_webserver.Connection.{
  TcpConnection, init, is_connected, is_disconnected, is_disconnecting, connecting,
  connect_established, connect_destroyed, handle_close, handle_error, shutdown,
}
use kama_webserver.Connection.Output.{send, handle_write}
use kama_webserver.Connection.Output.Sending.{stream, IsReady, IsHonest, kept_bytes}
use kama_webserver.Connection.Output.Draining.{IsClosing}

-- The bytes that a send takes over: none unless the state is kConnected.
unfoldable pub accepted_bytes : (List ℕ → Written) → List ℕ → TcpConnection → List ℕ
accepted_bytes write bytes c = if is_connected c.state then kept_bytes write bytes c else []

-- A step of the loop, with the bytes that it accepts for sending.
pub data Step : TcpConnection → List ℕ → TcpConnection → Type 0 where
  establishes : (c : TcpConnection) → c.state ≡ connecting → Step c [] (connect_established c)
  sends :
      (c : TcpConnection) (write : List ℕ → Written) (bytes : List ℕ)
      → IsHonest write
      → c.output_buffer.writer_index + length bytes ≤ max_size
      → Step c (accepted_bytes write bytes c) (send write bytes c)
  writes :
      (c r : TcpConnection) (fuel : ℕ) (write : ℕ → List ℕ → Written)
      → ((i : ℕ) → IsHonest (write i))
      → readable_bytes c.output_buffer < fuel
      → handle_write fuel write c ≡ some r
      → Step c [] r
  closes : (c : TcpConnection) → Step c [] (handle_close c)
  fails : (c : TcpConnection) → Step c [] (handle_error c)
  shuts : (c : TcpConnection) → Step c [] (shutdown c)
  destroys : (c : TcpConnection) → Step c [] (connect_destroyed c)

pub data Run : TcpConnection → List ℕ → Type 0 where
  starts : Run init []
  steps :
      {c d : TcpConnection} {accepted more : List ℕ}
      → Run c accepted
      → Step c more d
      → Run d (accepted ++ more)

-- What every reachable connection keeps.
pub record IsSound (c : TcpConnection) (accepted : List ℕ) : Type 0 where
  pub all_bytes : stream c ≡ accepted
  pub valid : IsValid c.output_buffer
  pub ready : is_disconnected c.state ≡ false → IsReady c
  pub quiet : is_disconnected c.state ≡ true → is_writing c.events ≡ false
  pub closing : IsClosing c

pub init-is_up : is_disconnected init.state ≡ false
unfolding init is_disconnected
init-is_up = refl

pub init-connecting : init.state ≡ connecting
unfolding init
init-connecting = refl

-- The empty buffers have room.
pub init-fits :
    (bytes : List ℕ)
    → 8 + length bytes ≤ max_size
    → init.output_buffer.writer_index + length bytes ≤ max_size
unfolding init
init-fits bytes h = omega (arith, writer-init 1024)

pub opened-fits :
    (bytes : List ℕ)
    → 8 + length bytes ≤ max_size
    → (connect_established init).output_buffer.writer_index + length bytes ≤ max_size
unfolding connect_established
opened-fits bytes h = init-fits bytes h

pub init-IsSound : IsSound init []
unfolding init is_disconnected is_disconnecting is_connected
init-IsSound =
    let valid = init-IsValid 1024 (omega arith) in
    record {
      all_bytes = contents-init 1024;
      valid = valid;
      ready = λ h. record {
        valid = valid;
        waits = ground (arith, length-contents valid, ap length (contents-init 1024));
      };
      quiet = λ h. absurd (ground (arith, h));
      closing = record {
        shuts = λ a b. absurd (ground (arith, a));
        last = λ a. refl;
        refused = λ a. absurd (ground (arith, a));
      };
    }
