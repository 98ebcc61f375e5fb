-- ===== src/Connection/Stream.antt =====
-- src/TcpConnection.cc: what all steps of a connection keep.
pub mod System
pub mod Steps
use mathlib.Core.List.{append-nil}
use mathlib.Core.Path.{subst, subst₂}
use mathlib.Core.Option.{some-injective}
use kama_webserver.Prelude.{
  ℕ, ◌+◌, ◌≤◌, ◌<◌, ◌≡◌, refl, sym, ap, ◌∙◌, Bool-cases, inl, inr, true, false, some, List, [],
  ◌++◌, length, if◌then◌else◌, arith,
}
use kama_webserver.Buffer.{Written, readable_bytes}
use kama_webserver.Buffer.Bounds.{IsValid, max_size, init-IsValid}
use kama_webserver.Buffer.Contents.{length-contents, contents-init, writer-init}
use kama_webserver.Channel.{is_writing}
use kama_webserver.Connection.{
  TcpConnection, StateE, init, is_connected, is_disconnected, is_disconnecting, connecting,
  connect_established, connect_destroyed, handle_close, handle_error, shutdown, shutdown_in_loop,
  emit, error_logged,
}
use kama_webserver.Connection.Output.{send, send_in_loop, handle_write}
use kama_webserver.Connection.Output.Sending.{
  stream, IsReady, IsHonest, kept_bytes, send_in_loop_lem,
}
use kama_webserver.Connection.Output.Room.{
  send-open, send-shut, send_in_loop-state, send_in_loop-shut,
}
use kama_webserver.Connection.Output.Draining.{
  IsClosing, is_open, handle_write-off, handle_write_lem, disconnecting-refused,
}
use kama_webserver.Connection.Stream.Steps.{
  establishes-IsSound, sends-IsSound, closes-IsSound, fails-IsSound, shuts-IsSound,
  destroys-IsSound,
}
use kama_webserver.Connection.Stream.System.{
  accepted_bytes, Step, Run, IsSound, establishes, sends, writes, closes, fails, shuts, destroys,
  starts, steps, init-IsSound,
}

module _ (c : TcpConnection) (accepted : List ℕ) (sound : IsSound c accepted) where
  writes-IsSound :
      (r : TcpConnection) (fuel : ℕ) (write : ℕ → List ℕ → Written)
      → ((i : ℕ) → IsHonest (write i))
      → readable_bytes c.output_buffer < fuel
      → handle_write fuel write c ≡ some r
      → IsSound r (accepted ++ [])
  writes-IsSound r fuel write honest enough eq = elim (Bool-cases (is_disconnected c.state)) [
    | inr up ↦
        let (r', eq', done) = handle_write_lem fuel write c honest (sound.ready up) enough in
        let same : r' ≡ r = some-injective r' r (sym eq' ∙ eq) in
        subst (λ x. IsSound x (accepted ++ [])) same
          (record {
            all_bytes = done.same_stream ∙ sound.all_bytes ∙ sym (append-nil accepted);
            valid = done.ready.valid;
            ready = λ h. done.ready;
            quiet = λ h. absurd (ground (arith, h, up, ap is_disconnected done.same_state));
            closing = done.closing sound.closing;
          })
    | inl down ↦
        let same : emit error_logged c ≡ r =
          some-injective (emit error_logged c) r
            (sym (handle_write-off fuel write c (sound.quiet down)) ∙ eq) in
        subst (λ x. IsSound x (accepted ++ [])) same
          (record {
            all_bytes = sound.all_bytes ∙ sym (append-nil accepted);
            valid = sound.valid;
            ready = λ h. absurd (ground (arith, h, down));
            quiet = sound.quiet;
            closing = record {
              shuts = sound.closing.shuts;
              last = sound.closing.last;
              refused = sound.closing.refused;
            };
          })
  ]

Step-IsSound :
    {c d : TcpConnection} {accepted more : List ℕ}
    → IsSound c accepted
    → Step c more d
    → IsSound d (accepted ++ more)
Step-IsSound {accepted} s (establishes c first) = establishes-IsSound c accepted s first
Step-IsSound {accepted} s (sends c write bytes honest fits) =
    sends-IsSound c accepted s write bytes honest fits
Step-IsSound {accepted} s (writes c r fuel write honest enough eq) =
    writes-IsSound c accepted s r fuel write honest enough eq
Step-IsSound {accepted} s (closes c) = closes-IsSound c accepted s
Step-IsSound {accepted} s (fails c) = fails-IsSound c accepted s
Step-IsSound {accepted} s (shuts c) = shuts-IsSound c accepted s
Step-IsSound {accepted} s (destroys c) = destroys-IsSound c accepted s

-- In every reachable state of a connection, whose kernel takes no more than it is offered and whose
-- buffer can grow: the bytes that the socket took followed by those that wait are the accepted
-- bytes in order (all bytes of sends in kConnected but those of a direct write that failed with
-- EPIPE or ECONNRESET); while it is not disconnected, EPOLLOUT is asked for exactly while bytes
-- wait; afterwards it is not; in kDisconnecting the write side is shut as soon as EPOLLOUT is
-- not asked for; and once it is shut, EPOLLOUT is not asked for and the state is neither
-- kConnecting nor kConnected.
pub Run-IsSound : {c : TcpConnection} {accepted : List ℕ} → Run c accepted → IsSound c accepted
Run-IsSound starts = init-IsSound
Run-IsSound (steps run step) = Step-IsSound (Run-IsSound run) step
