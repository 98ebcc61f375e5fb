-- ===== src/EchoServer/Tests.antt =====
-- Runs of the server of src/main.cc, and of `handleRead`.
use kama_webserver.Prelude.{
  ℕ, ◌+◌, ◌*◌, ◌≤◌, ◌≡◌, refl, true, false, List, [], ◌∷◌, ◌++◌, length, ltb, if◌then◌else◌, arith,
}
use kama_webserver.Buffer.{Received, received, read_error, Written, write_error}
use kama_webserver.Buffer.Bounds.{IsValid, max_size, init-IsValid}
use kama_webserver.Buffer.Contents.{writer-init}
use kama_webserver.Buffer.Growing.{length-init}
use kama_webserver.Buffer.Reading.{WithinRoom}
use kama_webserver.Connection.{TcpConnection, init, connect_established, eagain, is_connected}
use kama_webserver.Connection.Output.Sending.{IsReady, IsHonest, is_dropped}
use kama_webserver.Connection.Input.{handle_read}
use kama_webserver.Connection.Input.Reading.{IsEnding, Consumes, IsHandled, handle_read-IsHandled}
use kama_webserver.Connection.Stream.System.{init-IsSound, init-is_up}
use kama_webserver.EchoServer.{codes, response, on_message}
use kama_webserver.EchoServer.Serving.{IsAnswered, serve_lem}

-- A peer that sends `a` and `b` in two parts.
abbrev two_parts : ℕ → ℕ → Received
two_parts k room =
    if ltb k 2
    then (if ltb 0 room then received (b'a' ∷ []) else received [])
    else read_error eagain

abbrev full : ℕ → List ℕ → Written
full k bytes = write_error eagain

two_parts-WithinRoom : (i : ℕ) → WithinRoom (two_parts i)
two_parts-WithinRoom i room bytes e = ground (arith, e)

response_test :
    response
    ≡ codes "HTTP/1.1 200 OK"
      ++ 13 ∷ 10 ∷ codes "Content-Length: 12"
      ++ 13 ∷ 10 ∷ codes "Connection: keep-alive"
      ++ 13 ∷ 10 ∷ 13 ∷ 10 ∷ codes "Hello Muduo!"
unfolding response
response_test = refl

two_parts-IsEnding : (room : ℕ) → IsEnding (two_parts 2 room)
unfolding IsEnding
two_parts-IsEnding room = tt

full-IsHonest : (i : ℕ) → IsHonest (full i)
full-IsHonest i bytes n e = ground (arith, e)

full-whole : (i : ℕ) (bytes : List ℕ) → is_dropped (full i bytes) ≡ false
unfolding is_dropped
full-whole i bytes = refl

abbrev opened : TcpConnection
opened = connect_established init

opened-up : is_connected opened.state ≡ true
unfolding connect_established is_connected
opened-up = refl

opened-IsValid : IsValid opened.input_buffer
unfolding connect_established init
opened-IsValid = init-IsValid 1024 (omega arith)

opened-grows : length opened.input_buffer.buffer + 2 * 65536 ≤ max_size
unfolding connect_established init
opened-grows = omega (arith, length-init 1024 (omega arith))

-- A callback that leaves the bytes in the buffer.
keeps-Consumes : Consumes (λ k q. 0) (λ k c. c)
keeps-Consumes = record { rest = λ k c v. refl; valid = λ k c v. v; size = λ k c v. omega arith }

handle_read-IsHandled_example :
    IsHandled two_parts (λ k c. c) (λ k q. 0) opened (handle_read 3 two_parts (λ k c. c) opened)
handle_read-IsHandled_example =
    handle_read-IsHandled two_parts (λ k c. c) (λ k q. 0) 3 2 opened two_parts-WithinRoom
      two_parts-IsEnding (omega arith) opened-IsValid opened-grows keeps-Consumes

opened-fits : opened.output_buffer.writer_index + 2 * length response ≤ max_size
unfolding connect_established init response
opened-fits = omega (arith, writer-init 1024)

opened-IsReady : IsReady opened
unfolding connect_established
opened-IsReady =
    let r = init-IsSound.ready init-is_up in record { valid = r.valid; waits = r.waits }

-- Both parts of the request are answered.
serve_lem_example :
    IsAnswered two_parts full opened (handle_read 3 two_parts (on_message full) opened)
serve_lem_example =
    serve_lem two_parts full 3 2 opened two_parts-WithinRoom two_parts-IsEnding full-IsHonest
      full-whole (omega arith) opened-up opened-IsReady opened-IsValid opened-grows opened-fits
