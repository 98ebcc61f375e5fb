-- ===== src/Connection/Files/Tests.antt =====
-- Files sent on a connection with `sendFile`.
use kama_webserver.Prelude.{
  ℕ, zero, suc, ◌≤◌, ◌≡◌, refl, true, some, List, [], ◌∷◌, ◌++◌, ltb, if◌then◌else◌, arith,
}
use kama_webserver.Buffer.Growing.{readable_bytes-init}
use kama_webserver.Buffer.{Written, wrote, write_error}
use kama_webserver.Connection.{
  TcpConnection, Effect, eagain, init, connect_established, shutdown, emit, error_logged,
}
use kama_webserver.Connection.Files.{Task, run_calls, send_file, send_file_in_loop}
use kama_webserver.Connection.Files.Calls.{IsIdle, Obeys, calls_of, sent_to}
use kama_webserver.Connection.Files.Sharing.{Advances, run_calls-sent_to}
use kama_webserver.Connection.Files.Cutting.{
  rest_behind, piece, run_calls-alternates, shutdown-send_file,
}

-- The first call finds the socket full, and each later one takes three bytes at most.
abbrev by_three : ℕ → ℕ → Written
by_three zero count = write_error eagain
by_three (suc k) count = wrote (if ltb 3 count then 3 else count)

abbrev page : Task
page = record { descriptor = 20; offset = 100; count = 7 }

abbrev picture : Task
picture = record { descriptor = 21; offset = 0; count = 5 }

abbrev opened : TcpConnection
opened = connect_established init

opened-IsIdle : IsIdle opened
unfolding kama_webserver.Connection.is_disconnecting connect_established init
opened-IsIdle = (refl, refl, readable_bytes-init 1024)

by_three-Obeys : (i count : ℕ) → Obeys count (by_three i count)
by_three-Obeys zero count = refl
by_three-Obeys (suc k) count = ground arith

by_three-Advances : (i count : ℕ) → 1 ≤ i → Advances count (by_three i count)
by_three-Advances zero count late = absurd (omega (arith, late))
by_three-Advances (suc k) count late =
    ((if ltb 3 count then 3 else count), refl, λ some_left. ground (arith, some_left))

run_calls-sent_to_example :
    (es : List Effect) × (run_calls 20 0 by_three (page ∷ picture ∷ []) opened
      ≡ some (record opened { trace = opened.trace ++ es }))
    × (sent_to 20 100 es ≡ some 107)
unfolding calls_of
run_calls-sent_to_example =
    run_calls-sent_to 20 1 by_three (page ∷ picture ∷ []) opened page opened-IsIdle
      (omega arith, (omega arith, tt)) by_three-Obeys by_three-Advances (omega arith) refl

run_calls-alternates_example :
    run_calls 5 1 by_three (page ∷ picture ∷ []) opened
    ≡ run_calls 3 3 by_three
        (rest_behind 3 page ∷ rest_behind 3 picture ∷ [])
        (record opened { trace = (opened.trace ++ piece 3 page) ++ piece 3 picture })
run_calls-alternates_example =
    run_calls-alternates 3 1 3 3 by_three page picture opened opened-IsIdle (omega arith)
      (omega arith) refl (omega arith) refl (omega arith)

abbrev shut : TcpConnection
shut = shutdown (send_file (λ count. wrote 3) 20 100 7 opened)

shutdown-send_file_example :
    (shut.write_shut ≡ true)
    × (shut.trace ≡ opened.trace ++ piece 3 page)
    × (send_file_in_loop (by_three 1) 20 103 4 shut ≡ emit error_logged shut)
unfolding connect_established
shutdown-send_file_example =
    shutdown-send_file 3 (by_three 1) page opened opened-IsIdle (omega arith) refl (omega arith)
