-- ===== src/Connection.antt =====
-- include/TcpConnection.h and src/TcpConnection.cc: one connection, in the thread of its loop.
-- The kernel's answers to `write`, `readv` and `sendfile` and the user's callback are arguments.
-- What the code asks of its loop, its channel's poller and its user is a trace, in order; `wire` is
-- what the socket took. The connection, message and close callbacks are set (TcpServer does it).
pub mod Output
pub mod Input
pub mod Files
pub mod Stream
mod Tests
use kama_webserver.Prelude.{
  ℕ, zero, suc, ◌+◌, ◌-◌, ◌*◌, ◌%◌, ◌^◌, Bool, true, false, not, ◌&&◌, ◌||◌, Option, none, some,
  List, [], ◌∷◌, ◌++◌, length, take, drop, ltb, leb, ◌==◌, if◌then◌else◌,
}
use kama_webserver.Prelude.Bytes.{window}
use kama_webserver.Buffer
use kama_webserver.Buffer.{
  Buffer, Received, received, read_error, Written, wrote, write_error, readable_bytes, add_size,
  sub_size, write_fd, read_fd,
}
use kama_webserver.Channel
use kama_webserver.Channel.{Events, is_writing}

-- `kDisconnected`, `kConnecting`, `kConnected`, `kDisconnecting`.
pub data StateE : Type 0 where
  disconnected : StateE
  connecting : StateE
  connected : StateE
  disconnecting : StateE

pub data Effect : Type 0 where
  channel_updated : Events → Effect
  channel_removed : Effect
  connection_called : Effect
  message_called : Effect
  close_called : Effect
  write_complete_queued : Effect
  high_water_queued : ℕ → Effect
  send_file_queued : ℕ → ℕ → ℕ → Effect
  file_sent : ℕ → ℕ → ℕ → Effect
  error_logged : Effect

pub record TcpConnection : Type 0 where
  pub state : StateE
  pub tied : Bool
  pub events : Events
  pub write_shut : Bool
  pub wire : List ℕ
  pub input_buffer : Buffer
  pub output_buffer : Buffer
  pub high_water_mark : ℕ
  pub write_complete_callback : Bool
  pub high_water_mark_callback : Bool
  pub trace : List Effect

-- The buffers have 1024 bytes; the high-water mark is 64 MiB.
unfoldable pub init : TcpConnection
init = record {
  state = connecting;
  tied = false;
  events = Channel.none_event;
  write_shut = false;
  wire = [];
  input_buffer = Buffer.init 1024;
  output_buffer = Buffer.init 1024;
  high_water_mark = 64 * 1024 * 1024;
  write_complete_callback = false;
  high_water_mark_callback = false;
  trace = [];
}

-- `EWOULDBLOCK` and `EAGAIN` are one number on Linux.
abbrev pub eagain : ℕ
eagain = 11

abbrev pub epipe : ℕ
epipe = 32

abbrev pub econnreset : ℕ
econnreset = 104

abbrev pub emit : Effect → TcpConnection → TcpConnection
emit e c = record c { trace = c.trace ++ e ∷ [] }

abbrev pub update_events : (Events → Events) → TcpConnection → TcpConnection
update_events change c =
    emit (channel_updated (change c.events)) (record c { events = change c.events })

pub is_disconnected : StateE → Bool
is_disconnected disconnected = true
is_disconnected connecting = false
is_disconnected connected = false
is_disconnected disconnecting = false

unfoldable pub is_connected : StateE → Bool
is_connected disconnected = false
is_connected connecting = false
is_connected connected = true
is_connected disconnecting = false

pub is_disconnecting : StateE → Bool
is_disconnecting disconnected = false
is_disconnecting connecting = false
is_disconnecting connected = false
is_disconnecting disconnecting = true

unfoldable pub connect_established : TcpConnection → TcpConnection
connect_established c = emit connection_called (
    update_events Channel.enable_reading
      (record c { state = connected; tied = true; events = Channel.enable_et c.events }))

pub connect_destroyed : TcpConnection → TcpConnection
unfolding is_connected
connect_destroyed c = emit channel_removed (
    if is_connected c.state
    then emit connection_called
        (update_events (λ e. Channel.none_event) (record c { state = disconnected }))
    else c)

pub handle_close : TcpConnection → TcpConnection
handle_close c = emit close_called (
    emit connection_called
      (update_events (λ e. Channel.none_event) (record c { state = disconnected })))

-- `getsockopt` only gives the number for the log line.
pub handle_error : TcpConnection → TcpConnection
unfolding handle_close
handle_error c = handle_close (emit error_logged c)

pub shutdown_in_loop : TcpConnection → TcpConnection
shutdown_in_loop c = if is_writing c.events then c else record c { write_shut = true }

-- In the loop's own thread, where `runInLoop` runs its argument at once.
pub shutdown : TcpConnection → TcpConnection
unfolding is_connected shutdown_in_loop
shutdown c =
    if is_connected c.state then shutdown_in_loop (record c { state = disconnecting }) else c

abbrev pub is_fault : ℕ → Bool
is_fault e = e == epipe || e == econnreset

abbrev pub log_failure : ℕ → TcpConnection → TcpConnection
log_failure e c = if e == eagain then c else emit error_logged c

abbrev pub queue_write_complete : TcpConnection → TcpConnection
queue_write_complete c = if c.write_complete_callback then emit write_complete_queued c else c
