-- ===== src/Connection/Files.antt =====
-- src/TcpConnection.cc: `sendFile`, and the loop that runs the calls it queues.
pub mod Calls
pub mod Sharing
pub mod Cutting
mod Tests
use kama_webserver.Prelude.{
  ℕ, zero, suc, ◌+◌, Option, none, some, List, [], ◌∷◌, ◌++◌, length, drop, not, ◌&&◌, ◌||◌, ltb,
  ◌==◌, if◌then◌else◌,
}
use kama_webserver.Buffer.{Written, wrote, write_error, readable_bytes, sub_size}
use kama_webserver.Channel.{is_writing}
use kama_webserver.Connection.{
  TcpConnection, Effect, channel_updated, channel_removed, connection_called, message_called,
  close_called, write_complete_queued, high_water_queued, emit, is_connected, is_disconnecting,
  is_fault, log_failure, queue_write_complete, error_logged, send_file_queued, file_sent,
}

-- `sendfile` moves that many bytes from `offset` on, which it advances by as many.
pub file_rest : ℕ → ℕ → ℕ → TcpConnection → Written → TcpConnection
file_rest descriptor offset count c (wrote n) =
    let sent = emit (file_sent descriptor offset n) c in
    if sub_size count n == 0
    then queue_write_complete sent
    else emit (send_file_queued descriptor (offset + n) (sub_size count n)) sent
file_rest descriptor offset count c (write_error e) =
    let logged = log_failure e c in
    if is_fault e || count == 0
    then logged
    else emit (send_file_queued descriptor offset count) logged

pub send_file_in_loop : (ℕ → Written) → ℕ → ℕ → ℕ → TcpConnection → TcpConnection
unfolding is_disconnecting file_rest
send_file_in_loop sendfile descriptor offset count c =
    if is_disconnecting c.state
    then emit error_logged c
    else if not (is_writing c.events) && readable_bytes c.output_buffer == 0
    then file_rest descriptor offset count c (sendfile count)
    else if ltb 0 count
    then emit (send_file_queued descriptor offset count) c
    else c

-- In the loop's own thread.
pub send_file : (ℕ → Written) → ℕ → ℕ → ℕ → TcpConnection → TcpConnection
unfolding is_connected send_file_in_loop
send_file sendfile descriptor offset count c =
    if is_connected c.state
    then send_file_in_loop sendfile descriptor offset count c
    else emit error_logged c

-- A queued call of `sendFileInLoop`.
pub record Task : Type 0 where
  pub descriptor : ℕ
  pub offset : ℕ
  pub count : ℕ

-- The calls among what the connection asked of its loop.
unfoldable pub queued_calls : List Effect → List Task
queued_calls [] = []
queued_calls (send_file_queued descriptor offset count ∷ es) =
    record { descriptor = descriptor; offset = offset; count = count } ∷ queued_calls es
queued_calls (channel_updated events ∷ es) = queued_calls es
queued_calls (channel_removed ∷ es) = queued_calls es
queued_calls (connection_called ∷ es) = queued_calls es
queued_calls (message_called ∷ es) = queued_calls es
queued_calls (close_called ∷ es) = queued_calls es
queued_calls (write_complete_queued ∷ es) = queued_calls es
queued_calls (high_water_queued size ∷ es) = queued_calls es
queued_calls (file_sent descriptor offset count ∷ es) = queued_calls es
queued_calls (error_logged ∷ es) = queued_calls es

-- The loop runs the calls in the order queued (`queueInLoop`, `doPendingFunctors`), and nothing else
-- comes up; the `k`-th call of `sendfile` on. `none` if the fuel runs out.
unfoldable pub run_calls :
    ℕ → ℕ → (ℕ → ℕ → Written) → List Task → TcpConnection → Option TcpConnection
unfolding send_file_in_loop queued_calls
run_calls fuel k sendfile [] c = some c
run_calls zero k sendfile (t ∷ ts) c = none
run_calls (suc fuel) k sendfile (t ∷ ts) c =
    let after = send_file_in_loop (sendfile k) t.descriptor t.offset t.count c in
    run_calls fuel (suc k) sendfile (ts ++ queued_calls (drop (length c.trace) after.trace)) after
