-- ===== src/Connection/Files/Cutting.antt =====
-- src/TcpConnection.cc: what comes between the pieces of a file.
use kama_webserver.Prelude.{
  ℕ, suc, ◌+◌, ◌-◌, ◌<◌, ◌^◌, ◌≡◌, ap, ap₂, ◌∙◌, Bool, true, false, List, [], ◌∷◌, ◌++◌, arith,
}
use kama_webserver.Buffer.{Written, wrote}
use kama_webserver.Channel.{is_writing}
use kama_webserver.Connection.{
  TcpConnection, Effect, connected, disconnecting, is_connected, is_disconnecting, emit, shutdown,
  shutdown_in_loop, send_file_queued, file_sent, error_logged,
}
use kama_webserver.Connection.Files.{Task, run_calls, send_file_in_loop, send_file}
use kama_webserver.Connection.Files.Calls.{
  run_calls-step, IsIdle, effects, extend, rest_of, send_file_in_loop-effects,
}

-- The rest of a file behind a piece of `n` bytes.
abbrev pub rest_behind : ℕ → Task → Task
rest_behind n t = record { descriptor = t.descriptor; offset = t.offset + n; count = t.count - n }

abbrev pub piece : ℕ → Task → List Effect
piece n t =
    file_sent t.descriptor t.offset n
    ∷ send_file_queued t.descriptor (t.offset + n) (t.count - n)
    ∷ []

effects-piece :
    (n : ℕ) (t : Task) (callback : Bool) → n < t.count → effects t callback (wrote n) ≡ piece n t
unfolding effects
effects-piece n t callback short = ground (arith, short)

rest_of-short : (n : ℕ) (t : Task) → n < t.count → rest_of t (wrote n) ≡ rest_behind n t ∷ []
unfolding rest_of
rest_of-short n t short = ground (arith, short)

run_calls-short :
    (fuel k n : ℕ) (sendfile : ℕ → ℕ → Written) (t : Task) (ts : List Task) (c : TcpConnection)
    → IsIdle c
    → t.count < 2 ^ 64
    → sendfile k t.count ≡ wrote n
    → n < t.count
    → run_calls (suc fuel) k sendfile (t ∷ ts) c
      ≡ run_calls fuel (suc k) sendfile (ts ++ rest_behind n t ∷ []) (extend c (piece n t))
run_calls-short fuel k n sendfile t ts c idle fits answer short =
    run_calls-step fuel k sendfile t ts c (wrote n) idle fits answer (omega (arith, short))
    ∙ ap₂ (λ r es. run_calls fuel (suc k) sendfile (ts ++ r) (extend c es))
        (rest_of-short n t short) (effects-piece n t c.write_complete_callback short)

-- On a connection that is not in kDisconnecting and on which nothing waits to be written, with sizes
-- below 2 ^ 64: a file whose first piece is short goes on behind the first piece of the file that was
-- queued after it, so that the pieces of the two files alternate on the stream.
pub run_calls-alternates :
    (fuel k n m : ℕ) (sendfile : ℕ → ℕ → Written) (t u : Task) (c : TcpConnection)
    → IsIdle c
    → t.count < 2 ^ 64
    → u.count < 2 ^ 64
    → sendfile k t.count ≡ wrote n
    → n < t.count
    → sendfile (suc k) u.count ≡ wrote m
    → m < u.count
    → run_calls (suc (suc fuel)) k sendfile (t ∷ u ∷ []) c
      ≡ run_calls fuel
          (suc (suc k))
          sendfile
          (rest_behind n t ∷ rest_behind m u ∷ [])
          (record c { trace = (c.trace ++ piece n t) ++ piece m u })
run_calls-alternates fuel k n m sendfile t u c idle fits fits' first short second short' =
    let c1 = extend c (piece n t) in
    run_calls-short (suc fuel) k n sendfile t (u ∷ []) c idle fits first short
    ∙ run_calls-short fuel (suc k) m sendfile u (rest_behind n t ∷ []) c1 idle fits' second short'

shutdown-up :
    (c : TcpConnection)
    → c.state ≡ connected
    → is_writing c.events ≡ false
    → shutdown c ≡ record c { state = disconnecting; write_shut = true }
unfolding shutdown shutdown_in_loop is_connected
shutdown-up c up quiet = ground (arith, up, quiet)

send_file-up :
    (sendfile : ℕ → Written) (d offset count : ℕ) (c : TcpConnection)
    → c.state ≡ connected
    → send_file sendfile d offset count c ≡ send_file_in_loop sendfile d offset count c
unfolding send_file is_connected
send_file-up sendfile d offset count c up = ground (arith, up)

shut_after :
    (n : ℕ) (t : Task) (c : TcpConnection)
    → IsIdle c
    → t.count < 2 ^ 64
    → c.state ≡ connected
    → n < t.count
    → shutdown (send_file (λ count. wrote n) t.descriptor t.offset t.count c)
      ≡ record c { state = disconnecting; write_shut = true; trace = c.trace ++ piece n t }
shut_after n t c idle fits up short =
    ap shutdown (
      send_file-up (λ count. wrote n) t.descriptor t.offset t.count c up
      ∙ send_file_in_loop-effects t c (λ count. wrote n) idle fits (omega (arith, short))
      ∙ ap (extend c) (effects-piece n t c.write_complete_callback short))
    ∙ shutdown-up (extend c (piece n t)) up idle.1

send_file_in_loop-down :
    (sendfile : ℕ → Written) (d offset count : ℕ) (c : TcpConnection)
    → c.state ≡ disconnecting
    → send_file_in_loop sendfile d offset count c ≡ emit error_logged c
unfolding send_file_in_loop is_disconnecting
send_file_in_loop-down sendfile d offset count c down = ground (arith, down)

-- On a connection in kConnected on which nothing waits to be written: when `sendfile` sends less than the
-- file, and shutdown follows, the write side is shut at once, since shutdownInLoop only asks for EPOLLOUT,
-- and the queued call for the rest sends nothing and logs an error.
pub shutdown-send_file :
    (n : ℕ) (sendfile : ℕ → Written) (t : Task) (c : TcpConnection)
    → IsIdle c
    → t.count < 2 ^ 64
    → c.state ≡ connected
    → n < t.count
    → ((shutdown (send_file (λ count. wrote n) t.descriptor t.offset t.count c)).write_shut ≡ true)
      × ((shutdown (send_file (λ count. wrote n) t.descriptor t.offset t.count c)).trace
          ≡ c.trace ++ piece n t)
      × (send_file_in_loop sendfile t.descriptor
            (t.offset + n)
            (t.count - n)
            (shutdown (send_file (λ count. wrote n) t.descriptor t.offset t.count c))
          ≡ emit error_logged
              (shutdown (send_file (λ count. wrote n) t.descriptor t.offset t.count c)))
shutdown-send_file n sendfile t c idle fits up short =
    let after = shut_after n t c idle fits up short in
    (
      ap (λ d. d.write_shut) after,
      ap (λ d. d.trace) after,
      send_file_in_loop-down sendfile t.descriptor (t.offset + n) (t.count - n)
          (shutdown (send_file (λ count. wrote n) t.descriptor t.offset t.count c))
          (ap (λ d. d.state) after),
    )
