-- ===== src/Log/LogFile/Tests.antt =====
-- Runs of log/LogFile.cc and log/FileUtil.cc.
use kama_webserver.Prelude.{ℕ, ◌%◌, List, [], ◌∷◌, arith, ltb, if◌then◌else◌}
use kama_webserver.Log.FileUtil
use kama_webserver.Log.FileUtil.{FileUtil, Taken, open_file}
use kama_webserver.Log.FileUtil.Appending.{IsProgressing, IsAppended, append-IsAppended}
use kama_webserver.Log.LogFile.{init, append_in_lock}
use kama_webserver.Log.LogFile.Rolling.{IsLogged, append_in_lock-IsLogged}

-- A disk that takes two bytes at a call and is full from the third call on.
abbrev two_bytes : ℕ → ℕ → Taken
two_bytes k n =
    if ltb k 2
    then record { count = if ltb n 2 then n else 2; error = 0 }
    else record { count = 0; error = 28 }

two_bytes-IsProgressing : IsProgressing two_bytes
two_bytes-IsProgressing = record {
  within = λ k n. ground arith;
  moves = λ k n p e. ground (arith, p, e);
}

abbrev line : List ℕ
line = 1 ∷ 2 ∷ 3 ∷ 4 ∷ 5 ∷ []

append-IsAppended_example :
    IsAppended two_bytes line 0 (open_file 9) (FileUtil.append 5 two_bytes line (open_file 9))
append-IsAppended_example =
    append-IsAppended 5 two_bytes line (open_file 9) two_bytes-IsProgressing (omega arith)

-- A clock that shows each second of an hour twice.
abbrev name_of : ℕ → ℕ
name_of second = second % 3600

append_in_lock-IsLogged_example :
    IsLogged name_of two_bytes 101 line
      (init name_of 3 3 1024 0 100)
      (append_in_lock name_of 5 two_bytes 101 101 line (init name_of 3 3 1024 0 100))
append_in_lock-IsLogged_example =
    append_in_lock-IsLogged name_of 5 two_bytes 101 101 line (init name_of 3 3 1024 0 100)
      two_bytes-IsProgressing (omega arith)
