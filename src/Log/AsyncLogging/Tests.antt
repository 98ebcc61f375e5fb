-- ===== src/Log/AsyncLogging/Tests.antt =====
-- A logger with buffers of five bytes, and the theorems at its states.
use kama_webserver.Prelude.{◌≡◌, refl, Bool, none, some, [], ◌∷◌, ◌++◌, arith}
use kama_webserver.Log.FixedBuffer
use kama_webserver.Log.FixedBuffer.{FixedBuffer}
use kama_webserver.Prelude.Bytes.{store}
use kama_webserver.Log.AsyncLogging.{AsyncLogging, init, start, append, append_to}
use kama_webserver.Log.AsyncLogging.System.{
  System, started, logs, finished, Reach, begin, next, in_flight, held,
}
use kama_webserver.Log.AsyncLogging.Order.{CanRun, no_fault, nothing_lost}
use kama_webserver.Log.AsyncLogging.Shutdown.{shutdown_loses}

-- Two messages that do not fit in one buffer.
abbrev logged_twice : System
logged_twice = record (started 5) {
  front = record {
    running = Bool.true;
    buffer_size = 5;
    current_buffer =
        some (record { capacity = 5; array = 4 ∷ 5 ∷ 6 ∷ 0 ∷ 0 ∷ []; cur = 3; size = 3 });
    next_buffer = none;
    buffers = record { capacity = 5; array = 1 ∷ 2 ∷ 3 ∷ 0 ∷ 0 ∷ []; cur = 3; size = 3 } ∷ [];
  };
  logged = 1 ∷ 2 ∷ 3 ∷ 4 ∷ 5 ∷ 6 ∷ [];
}

logged_twice-Reach : Reach 5 logged_twice
unfolding init start append append_to FixedBuffer.init FixedBuffer.append store
logged_twice-Reach = next (next begin (logs (1 ∷ 2 ∷ 3 ∷ []) refl)) (logs (4 ∷ 5 ∷ 6 ∷ []) refl)

no_fault_example :
    ((l : AsyncLogging) × (append logged_twice.front (7 ∷ []) ≡ some l))
    × CanRun logged_twice.phase logged_twice
no_fault_example = no_fault 5 logged_twice (7 ∷ []) logged_twice-Reach

nothing_lost_example :
    (current : FixedBuffer) × (logged_twice.front.current_buffer ≡ some current)
    × (logged_twice.logged
        ≡ logged_twice.file
          ++ (in_flight logged_twice.phase logged_twice.back ++ held logged_twice.front current))
nothing_lost_example = nothing_lost 5 logged_twice logged_twice-Reach

shutdown_loses_example :
    (s : System) × Reach 5 s × (s.phase ≡ finished) × (s.logged ≡ 1 ∷ 2 ∷ []) × (s.file ≡ [])
shutdown_loses_example = shutdown_loses 5 (1 ∷ 2 ∷ []) (omega arith)
