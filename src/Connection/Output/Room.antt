-- ===== src/Connection/Output/Room.antt =====
-- src/TcpConnection.cc: what a send keeps, and how far the output buffer fills.
use mathlib.Core.Path.{subst}
use kama_webserver.Prelude.{
  ℕ, ◌+◌, ◌≤◌, ◌≡◌, ◌∙◌, Bool-cases, inl, inr, true, false, not, ◌&&◌, List, length, take, drop,
  ltb, if◌then◌else◌, arith, length-take, length-drop,
}
use kama_webserver.Buffer.{Buffer, Written, readable_bytes}
use kama_webserver.Buffer.Bounds.{IsValid, max_size}
use kama_webserver.Buffer.Queue.{append-writer-le}
use kama_webserver.Connection.{TcpConnection, is_disconnected, is_connected, emit, error_logged}
use kama_webserver.Connection.Output.{
  Attempt, take_written, try_write, keep_rest, finish_send, send_in_loop, send,
}
use kama_webserver.Connection.Output.Sending.{keep_rest-buffer}

module _ (write : List ℕ → Written) (bytes : List ℕ) (c : TcpConnection) where
  pub send_in_loop-state : (send_in_loop write bytes c).state ≡ c.state
  unfolding send_in_loop finish_send keep_rest try_write take_written
  send_in_loop-state = ground arith

  pub send_in_loop-shut : (send_in_loop write bytes c).write_shut ≡ c.write_shut
  unfolding send_in_loop finish_send keep_rest try_write take_written
  send_in_loop-shut = ground arith

  pub send-input : (send write bytes c).input_buffer ≡ c.input_buffer
  unfolding send send_in_loop finish_send keep_rest try_write take_written
  send-input = ground arith

  pub send-open : is_connected c.state ≡ true → send write bytes c ≡ send_in_loop write bytes c
  unfolding send
  send-open up = ground (arith, up)

  pub send-shut : is_connected c.state ≡ false → send write bytes c ≡ c
  unfolding send
  send-shut down = ground (arith, down)

rest-length : (bytes : List ℕ) (t n : ℕ) → length (take t (drop n bytes)) ≤ length bytes
rest-length bytes t n = omega (arith, length-take t (drop n bytes), length-drop n bytes)

module _ (write : List ℕ → Written) (bytes : List ℕ) (c : TcpConnection) where
  try_write-buffer : (try_write write bytes c).after.output_buffer ≡ c.output_buffer
  unfolding try_write take_written
  try_write-buffer = ground arith

finish_send-writer :
    (bytes : List ℕ) (t : Attempt)
    → IsValid t.after.output_buffer
    → t.after.output_buffer.writer_index + length bytes ≤ max_size
    → (finish_send bytes t).output_buffer.writer_index
      ≤ t.after.output_buffer.writer_index + length bytes
unfolding finish_send
finish_send-writer bytes t valid fits = elim (Bool-cases (not t.fault_error && ltb 0 t.remaining)) [
  | inl kept ↦
      let short = rest-length bytes t.remaining t.nwrote in
      let rest = take t.remaining (drop t.nwrote bytes) in
      rw
        (
          kept,
          keep_rest-buffer rest (readable_bytes t.after.output_buffer) t.after valid (omega arith),
        )
        (omega (arith, append-writer-le rest valid (omega arith)))
  | inr none_left ↦ rw none_left (omega arith)
]

-- The end of the output buffer moves by no more than the bytes.
pub send_in_loop-writer :
    (write : List ℕ → Written) (bytes : List ℕ) (c : TcpConnection)
    → IsValid c.output_buffer
    → c.output_buffer.writer_index + length bytes ≤ max_size
    → (send_in_loop write bytes c).output_buffer.writer_index
      ≤ c.output_buffer.writer_index + length bytes
unfolding send_in_loop
send_in_loop-writer write bytes c valid fits =
    let tried = if is_disconnected c.state then emit error_logged c else c in
    let same : tried.output_buffer ≡ c.output_buffer = ground arith in
    let buffer = try_write-buffer write bytes tried ∙ same in
    let t = try_write write bytes tried in
    subst
      (λ (b : Buffer).
        (finish_send bytes t).output_buffer.writer_index ≤ b.writer_index + length bytes)
      buffer (finish_send-writer bytes t (rw buffer valid) (rw buffer fits))
