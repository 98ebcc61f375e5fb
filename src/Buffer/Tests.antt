-- ===== src/Buffer/Tests.antt =====
-- Runs of the buffer, and its theorems at concrete buffers.
use kama_webserver.Prelude.{ℕ, ◌≡◌, refl, [], ◌∷◌, ◌++◌, take, replicate, length-take, arith}
use kama_webserver.Prelude.Bytes.{window, store, copy_within}
use kama_webserver.Buffer.{
  Buffer, Received, received, append, read_fd, offered, make_space, put, ensure_writable_bytes,
}
use kama_webserver.Buffer.Bounds.{IsValid}
use kama_webserver.Buffer.Contents.{contents}
use kama_webserver.Buffer.Reading.{WithinRoom, ReadOutcome, read_fd_lem}
use kama_webserver.Buffer.Queue.{appends, takes, takes_all, run, run_queue, run_refines}

-- Four bytes read, three readable, one writable.
abbrev worn : Buffer
worn = record {
  buffer = replicate 12 0 ++ 5 ∷ 6 ∷ 7 ∷ 0 ∷ [];
  reader_index = 12;
  writer_index = 15;
}

worn-IsValid : IsValid worn
worn-IsValid = omega arith

worn_moves : append worn (8 ∷ 9 ∷ []) ≡ record {
  buffer = replicate 8 0 ++ 5 ∷ 6 ∷ 7 ∷ 8 ∷ 9 ∷ 6 ∷ 7 ∷ 0 ∷ [];
  reader_index = 8;
  writer_index = 13;
}
unfolding append ensure_writable_bytes make_space put store copy_within
worn_moves = refl

-- A socket with four bytes to give, or as many as there is room for.
four_bytes : ℕ → Received
four_bytes room = received (take room (1 ∷ 2 ∷ 3 ∷ 4 ∷ []))

four_bytes-WithinRoom : WithinRoom four_bytes
unfolding four_bytes
four_bytes-WithinRoom room bytes h = ground (arith, length-take {A = ℕ} room (1 ∷ 2 ∷ 3 ∷ 4 ∷ []))

read_fd_lem_example : ReadOutcome worn (read_fd four_bytes worn)
unfolding offered
read_fd_lem_example = read_fd_lem four_bytes worn four_bytes-WithinRoom worn-IsValid (omega arith)

run_refines_example :
    (
      (run worn (appends (8 ∷ []) ∷ takes 2 ∷ takes_all ∷ [])).0,
      contents (run worn (appends (8 ∷ []) ∷ takes 2 ∷ takes_all ∷ [])).1,
    )
    ≡ run_queue (contents worn) (appends (8 ∷ []) ∷ takes 2 ∷ takes_all ∷ [])
unfolding contents window
run_refines_example =
    run_refines (appends (8 ∷ []) ∷ takes 2 ∷ takes_all ∷ []) worn-IsValid (omega arith)
      (omega arith)
