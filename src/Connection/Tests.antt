-- ===== src/Connection/Tests.antt =====
-- Runs of src/TcpConnection.cc.
use kama_webserver.Prelude.{ℕ, suc, ◌+◌, ◌≤◌, ◌≡◌, List, [], ◌∷◌, ◌++◌, length, arith}
use kama_webserver.Buffer.{Written, wrote, write_error, readable_bytes}
use kama_webserver.Buffer.Bounds.{max_size}
use kama_webserver.Connection.{TcpConnection, init, connect_established, shutdown, eagain}
use kama_webserver.Connection.Output.{send, send_in_loop, handle_write}
use kama_webserver.Connection.Output.Sending.{
  stream, IsReady, IsHonest, kept_bytes, send_in_loop_lem,
}
use kama_webserver.Connection.Output.Draining.{WriteOutcome, handle_write_lem}
use kama_webserver.Connection.Stream.{Run-IsSound}
use kama_webserver.Connection.Stream.System.{
  starts, steps, establishes, sends, shuts, IsSound, init-IsSound, init-is_up, init-fits,
  init-connecting, opened-fits, accepted_bytes,
}

-- A socket that takes one byte of each offer, and one that takes none.
abbrev one_byte : List ℕ → Written
one_byte [] = wrote 0
one_byte (x ∷ xs) = wrote 1

abbrev full : List ℕ → Written
full bytes = write_error eagain

one_byte-IsHonest : IsHonest one_byte
one_byte-IsHonest [] n eq = ground (arith, eq)
one_byte-IsHonest (x ∷ xs) n eq = ground (arith, eq)

full-IsHonest : IsHonest full
full-IsHonest bytes n eq = ground (arith, eq)

abbrev message : List ℕ
message = 104 ∷ 105 ∷ 33 ∷ []

init-IsReady : IsReady init
init-IsReady = init-IsSound.ready init-is_up

init-room : init.output_buffer.writer_index + length message ≤ max_size
init-room = init-fits message (omega arith)

send_in_loop_lem_example :
    (stream (send_in_loop one_byte message init) ≡ stream init ++ kept_bytes one_byte message init)
    × IsReady (send_in_loop one_byte message init)
send_in_loop_lem_example =
    send_in_loop_lem one_byte message init init-IsReady one_byte-IsHonest init-room

abbrev sent : TcpConnection
sent = send_in_loop full message init

sent-IsReady : IsReady sent
sent-IsReady = (send_in_loop_lem full message init init-IsReady full-IsHonest init-room).1

handle_write_lem_example :
    WriteOutcome sent (handle_write (suc (readable_bytes sent.output_buffer)) (λ i. one_byte) sent)
handle_write_lem_example =
    handle_write_lem (suc (readable_bytes sent.output_buffer)) (λ i. one_byte) sent
      (λ i. one_byte-IsHonest) sent-IsReady (omega arith)

abbrev opened : TcpConnection
opened = connect_established init

Run-IsSound_example :
    IsSound
      (shutdown (send one_byte message opened))
      (([] ++ [] ++ accepted_bytes one_byte message opened) ++ [])
Run-IsSound_example = Run-IsSound (
    steps
      (steps (steps starts (establishes init init-connecting))
        (sends opened one_byte message one_byte-IsHonest opened-room))
      (shuts (send one_byte message opened)))
  where
    opened-room : opened.output_buffer.writer_index + length message ≤ max_size
    opened-room = opened-fits message (omega arith)
