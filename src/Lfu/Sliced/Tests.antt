-- ===== src/Lfu/Sliced/Tests.antt =====
-- Runs of KHashLfuCache of include/LFU.h.
use mathlib.Core.Option
use kama_webserver.Prelude.{◌+◌, ◌<◌, ◌≡◌, refl, none, some, List, [], ◌∷◌, arith}
use kama_webserver.Prelude.Int.{pos}
use kama_webserver.Lfu
use kama_webserver.Lfu.Runs.{Call, puts, gets, purges}
use kama_webserver.Lfu.Sliced.{slice_count, slice_size, init, put, get, purge}
use kama_webserver.Lfu.Sliced.Spread.{IsSpread, run, run-init-IsSpread}
use kama_webserver.Lfu.Sliced.Slices.{total_size}

abbrev calls : List Call
calls = puts 1 10 ∷ puts 2 20 ∷ gets 1 ∷ gets 2 ∷ purges ∷ gets 1 ∷ []

two_slices : 0 < slice_count (pos 2) 8
unfolding slice_count
two_slices = omega arith

run-init-IsSpread_example :
    (s : IsSpread
      (slice_size 1 (slice_count (pos 2) 8))
      10
      (slice_count (pos 2) 8)
      (λ k. none)
      calls
      (run (λ k. k) calls (init 1 (pos 2) 8 10)))
    × (total_size s.after.lfu_slice_caches < 1 + slice_count (pos 2) 8)
run-init-IsSpread_example =
    run-init-IsSpread 1 10 (pos 2) 8 (λ k. k) calls (omega arith) two_slices (omega arith)
      (omega arith)

-- A cache of capacity 1 in two slices holds two keys.
answers_test :
    Option.map (λ r. r.0) (run (λ k. k) calls (init 1 (pos 2) 8 10))
    ≡ some (some 10 ∷ some 20 ∷ none ∷ [])
unfolding run init slice_count slice_size put get purge Lfu.init Lfu.put Lfu.get Lfu.purge
answers_test = refl
