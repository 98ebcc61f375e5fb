-- ===== src/Connection/Output.antt =====
-- src/TcpConnection.cc: `send` with its direct write, and the loop of `handleWrite`.
pub mod Sending
pub mod Room
pub mod Draining
use kama_webserver.Prelude.{
  ℕ, zero, suc, ◌+◌, ◌-◌, Bool, true, false, not, ◌&&◌, ◌||◌, Option, none, some, List, [], ◌∷◌,
  ◌++◌, length, take, drop, ltb, leb, ◌==◌, if◌then◌else◌,
}
use kama_webserver.Prelude.Bytes.{window}
use kama_webserver.Buffer
use kama_webserver.Buffer.{
  Buffer, Received, received, read_error, Written, wrote, write_error, readable_bytes, add_size,
  sub_size, write_fd, read_fd,
}
use kama_webserver.Channel
use kama_webserver.Channel.{Events, is_writing}
use kama_webserver.Connection.{
  StateE, Effect, TcpConnection, eagain, emit, update_events, is_disconnected, is_connected,
  is_disconnecting, handle_close, handle_error, shutdown_in_loop, is_fault, log_failure,
  queue_write_complete, error_logged, message_called, high_water_queued, send_file_queued,
  file_sent,
}

-- The outcome of the direct write: `nwrote`, `remaining`, `faultError`.
pub record Attempt : Type 0 where
  pub nwrote : ℕ
  pub remaining : ℕ
  pub fault_error : Bool
  pub after : TcpConnection

pub take_written : List ℕ → TcpConnection → Written → Attempt
take_written bytes c (wrote n) =
    let sent = record c { wire = c.wire ++ take n bytes } in
    record {
      nwrote = n;
      remaining = sub_size (length bytes) n;
      fault_error = false;
      after = if sub_size (length bytes) n == 0 then queue_write_complete sent else sent;
    }
take_written bytes c (write_error e) = record {
  nwrote = 0;
  remaining = length bytes;
  fault_error = if e == eagain then false else is_fault e;
  after = log_failure e c;
}

-- A write is tried at once only if none waits.
pub try_write : (List ℕ → Written) → List ℕ → TcpConnection → Attempt
unfolding take_written
try_write write bytes c =
    if not (is_writing c.events) && readable_bytes c.output_buffer == 0
    then take_written bytes c (write bytes)
    else record { nwrote = 0; remaining = length bytes; fault_error = false; after = c }

abbrev pub queue_high_water : ℕ → TcpConnection → TcpConnection
queue_high_water size c =
    if leb c.high_water_mark size && c.high_water_mark_callback
    then emit (high_water_queued size) c
    else c

-- What was not written is kept for `handleWrite`.
pub keep_rest : List ℕ → ℕ → TcpConnection → TcpConnection
keep_rest rest old_len c =
    let warned =
      if ltb old_len c.high_water_mark
      then queue_high_water (add_size old_len (length rest)) c
      else c in
    let kept = record warned { output_buffer = Buffer.append c.output_buffer rest } in
    if is_writing kept.events then kept else update_events Channel.enable_writing kept

pub finish_send : List ℕ → Attempt → TcpConnection
unfolding keep_rest
finish_send bytes t =
    if not t.fault_error && ltb 0 t.remaining
    then keep_rest (take t.remaining (drop t.nwrote bytes)) (readable_bytes t.after.output_buffer)
        t.after
    else t.after

pub send_in_loop : (List ℕ → Written) → List ℕ → TcpConnection → TcpConnection
unfolding is_disconnected try_write finish_send
send_in_loop write bytes c =
    finish_send bytes
      (try_write write bytes (if is_disconnected c.state then emit error_logged c else c))

-- In the loop's own thread.
pub send : (List ℕ → Written) → List ℕ → TcpConnection → TcpConnection
unfolding is_connected send_in_loop
send write bytes c = if is_connected c.state then send_in_loop write bytes c else c

-- The buffer is empty: no more writing, and a shutdown that waited goes on.
pub drained : TcpConnection → TcpConnection
unfolding is_disconnecting shutdown_in_loop
drained c =
    let stopped = queue_write_complete (update_events Channel.disable_writing c) in
    if is_disconnecting c.state then shutdown_in_loop stopped else stopped

pub after_write : ℕ → TcpConnection → TcpConnection
unfolding drained
after_write n c =
    let moved = record c {
      wire =
          c.wire
          ++ take n (
              window c.output_buffer.buffer c.output_buffer.reader_index
                (readable_bytes c.output_buffer));
      output_buffer = Buffer.retrieve c.output_buffer n;
    } in
    if readable_bytes moved.output_buffer == 0 then drained moved else moved

-- The loop of `handleWrite`, the `k`-th call of `write` on; `none` if the fuel runs out.
pub write_loop : ℕ → ℕ → (ℕ → List ℕ → Written) → TcpConnection → Option TcpConnection
unfolding after_write
write_loop zero k write c = none
write_loop (suc fuel) k write c = elim (write_fd (write k) c.output_buffer) [
  | wrote zero ↦ some (emit error_logged c)
  | wrote (suc n) ↦ write_loop fuel (suc k) write (after_write (suc n) c)
  | write_error e ↦ some (log_failure e c)
]

pub handle_write : ℕ → (ℕ → List ℕ → Written) → TcpConnection → Option TcpConnection
unfolding write_loop
handle_write fuel write c =
    let written = write_loop fuel 0 write c in
    if is_writing c.events then written else some (emit error_logged c)
