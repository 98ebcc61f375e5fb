-- ===== src/EchoServer/Serving.antt =====
-- src/main.cc over src/TcpConnection.cc: `handleRead` with the callback of the server.
use mathlib.Core.List.{append_assoc, append-nil}
use kama_webserver.Prelude.{
  ℕ, zero, suc, ◌+◌, ◌*◌, ◌≤◌, ◌<◌, ◌≡◌, refl, sym, ap, ◌∙◌, true, false, Option, List, [], ◌∷◌,
  ◌++◌, length, drop, arith,
}
use kama_webserver.Buffer.{Buffer, Received, Written, retrieve_all_as_string}
use kama_webserver.Buffer.Bounds.{IsValid, max_size}
use kama_webserver.Buffer.Contents.{contents, retrieve_all_as_string_lem}
use kama_webserver.Buffer.Reading.{WithinRoom}
use kama_webserver.Buffer.Growing.{retrieve_all_as_string-array}
use kama_webserver.Connection.{TcpConnection, emit, message_called, is_connected}
use kama_webserver.Connection.Output.{send_in_loop}
use kama_webserver.Connection.Output.Sending.{
  stream, IsReady, IsHonest, is_dropped, kept_bytes, kept_bytes-whole, send_in_loop_lem,
}
use kama_webserver.Connection.Output.Room.{
  send_in_loop-writer, send_in_loop-state, send-open, send-input,
}
use kama_webserver.Connection.Input.{handle_read}
use kama_webserver.Connection.Input.Reading.{
  fed, IsEnding, Fed, Fed-count, Fed-last, stays, gets, IsRead, Consumes, handle_read-IsHandled,
  left_over,
}
use kama_webserver.EchoServer.{response, on_message}

unfoldable pub repeated : ℕ → List ℕ → List ℕ
repeated zero text = []
repeated (suc n) text = text ++ repeated n text

drop-length : (xs : List ℕ) → drop (length xs) xs ≡ []
drop-length [] = refl
drop-length (x ∷ xs) = drop-length xs

module _ (write : ℕ → List ℕ → Written) where
  -- The connection without what is in its input buffer.
  taken : TcpConnection → TcpConnection
  taken c = record c { input_buffer = (retrieve_all_as_string c.input_buffer).1 }

  on_message-open :
      (k : ℕ) (c : TcpConnection)
      → is_connected c.state ≡ true
      → on_message write k c ≡ send_in_loop (write k) response (taken c)
  unfolding on_message taken
  on_message-open k c up = send-open (write k) response (taken c) up

  on_message-input :
      (k : ℕ) (c : TcpConnection)
      → (on_message write k c).input_buffer ≡ (retrieve_all_as_string c.input_buffer).1
  unfolding on_message taken
  on_message-input k c = send-input (write k) response (taken c)

  on_message-Consumes : Consumes (λ k q. length q) (on_message write)
  on_message-Consumes = record {
    rest = λ k c v.
        let (all, none_left, v') = retrieve_all_as_string_lem v in
        ap contents (on_message-input k c)
        ∙ none_left
        ∙ sym (drop-length (contents c.input_buffer));
    valid = λ k c v.
        let (all, none_left, v') = retrieve_all_as_string_lem v in rw (on_message-input k c) v';
    size = λ k c v. omega (
      arith,
      ap length (
          ap (λ (b : Buffer). b.buffer) (on_message-input k c)
          ∙ retrieve_all_as_string-array c.input_buffer),
    );
  }

  taken-IsReady : (c : TcpConnection) → IsReady c → IsReady (taken c)
  unfolding taken
  taken-IsReady c r = record { valid = r.valid; waits = r.waits }

-- Each chunk is answered once, behind what was to be sent before.
record IsServed (c : TcpConnection) (chunks : List (List ℕ)) (d : TcpConnection) : Type 0 where
  pub answered : stream d ≡ stream c ++ repeated (length chunks) response
  pub ready : IsReady d
  pub up : is_connected d.state ≡ true

module _ (readv : ℕ → ℕ → Received) (write : ℕ → List ℕ → Written)
    (honest : (i : ℕ) → IsHonest (write i))
    (whole : (i : ℕ) (bytes : List ℕ) → is_dropped (write i bytes) ≡ false) where
  kept-all : (i : ℕ) (bytes : List ℕ) (c : TcpConnection) → kept_bytes (write i) bytes c ≡ bytes
  kept-all i bytes c = kept_bytes-whole (write i) bytes c (whole i bytes)

  -- One callback.
  on_message_lem :
      (k : ℕ) (c : TcpConnection)
      → IsReady c
      → is_connected c.state ≡ true
      → c.output_buffer.writer_index + length response ≤ max_size
      → (stream (on_message write k c) ≡ stream c ++ response)
        × IsReady (on_message write k c)
        × (is_connected (on_message write k c).state ≡ true)
        × ((on_message write k c).output_buffer.writer_index
            ≤ c.output_buffer.writer_index + length response)
  unfolding taken
  on_message_lem k c r up fits =
      let (sent, still) =
        send_in_loop_lem (write k) response (taken write c) (taken-IsReady write c r) (honest k)
          fits in
      rw (on_message-open write k c up) (
        sent ∙ ap (◌++◌ (stream c)) (kept-all k response (taken write c)),
        still,
        ap is_connected (send_in_loop-state (write k) response (taken write c)) ∙ up,
        send_in_loop-writer (write k) response (taken write c) r.valid fits,
      )

  Fed-IsServed :
      {k m : ℕ} {c d : TcpConnection} {chunks : List (List ℕ)}
      → Fed readv (on_message write) k c chunks m d
      → IsReady c
      → is_connected c.state ≡ true
      → c.output_buffer.writer_index + length chunks * length response ≤ max_size
      → IsServed c chunks d
  unfolding repeated
  Fed-IsServed (stays k c) r up fits = record {
    answered = sym (append-nil (stream c));
    ready = r;
    up = up;
  }
  Fed-IsServed (gets k c x xs {chunks} h rest) r up fits =
      let (sent, ready, still, room) =
        on_message_lem k (emit message_called (fed (x ∷ xs) c))
          (record { valid = r.valid; waits = r.waits }) up (omega arith) in
      let s = Fed-IsServed rest ready still (omega arith) in
      record {
        answered =
            s.answered
            ∙ ap (λ (xs : List ℕ). xs ++ repeated (length chunks) response) sent
            ∙ append_assoc (stream c) response (repeated (length chunks) response);
        ready = s.ready;
        up = s.up;
      }

-- The outcome of `handleRead` on the server: it ends as it is due to, and every chunk that came in is
-- answered by one response, whatever it holds.
pub record IsAnswered (readv : ℕ → ℕ → Received) (write : ℕ → List ℕ → Written) (c : TcpConnection)
    (r : Option TcpConnection) : Type 0 where
  pub read : IsRead readv (on_message write) 0 c r
  pub answered : stream read.before ≡ stream c ++ repeated (length read.chunks) response
  pub ready : IsReady read.before
  pub up : is_connected read.before.state ≡ true
  pub valid : IsValid read.before.input_buffer
  pub emptied : contents c.input_buffer ≡ [] → contents read.before.input_buffer ≡ []

left_over-all :
    (k : ℕ) (q : List ℕ) (chunks : List (List ℕ))
    → q ≡ []
    → left_over (λ k q. length q) k q chunks ≡ []
unfolding left_over
left_over-all k q [] e = e
left_over-all k q (chunk ∷ chunks) e = left_over-all (suc k) _ chunks (drop-length (q ++ chunk))

-- If readv returns no more than it has room for and its `n`-th call shows the end of the stream or an
-- error, write takes no more than it is offered and does not fail with EPIPE or ECONNRESET, the fuel is
-- larger than `n`, and the buffers of an established connection are sound and can grow enough, then
-- handleRead with the server's callback ends. What was to be sent is followed by one HTTP response, the
-- same whatever came in, for each chunk that came in; EPOLLOUT is asked for exactly while bytes wait, and an input buffer that was
-- empty is empty again before the end of the stream or the error is handled.
pub serve_lem :
    (readv : ℕ → ℕ → Received) (write : ℕ → List ℕ → Written) (fuel n : ℕ) (c : TcpConnection)
    → ((i : ℕ) → WithinRoom (readv i))
    → ((room : ℕ) → IsEnding (readv n room))
    → ((i : ℕ) → IsHonest (write i))
    → ((i : ℕ) (bytes : List ℕ) → is_dropped (write i bytes) ≡ false)
    → n < fuel
    → is_connected c.state ≡ true
    → IsReady c
    → IsValid c.input_buffer
    → length c.input_buffer.buffer + n * 65536 ≤ max_size
    → c.output_buffer.writer_index + n * length response ≤ max_size
    → IsAnswered readv write c (handle_read fuel readv (on_message write) c)
serve_lem readv write fuel n c within ends honest whole enough up ready valid grows fits =
    let h =
      handle_read-IsHandled readv (on_message write) (λ k q. length q) fuel n c within ends enough
        valid grows (on_message-Consumes write) in
    let few : length h.read.chunks ≤ n = omega (
      arith,
      Fed-count h.read.steps,
      Fed-last readv (on_message write) n ends h.read.steps (omega arith),
    ) in
    let room : c.output_buffer.writer_index + length h.read.chunks * length response ≤ max_size =
      grind (arith, few) in
    let s = Fed-IsServed readv write honest whole h.read.steps ready up room in
    record {
      read = h.read;
      answered = s.answered;
      ready = s.ready;
      up = s.up;
      valid = h.valid;
      emptied = λ e. h.left ∙ left_over-all 0 (contents c.input_buffer) h.read.chunks e;
    }
