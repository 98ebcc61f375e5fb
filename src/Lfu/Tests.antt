-- ===== src/Lfu/Tests.antt =====
-- Runs of include/LFU.h.
use kama_webserver.Prelude.{◌≡◌, refl, none, some, List, [], ◌∷◌, ◌++◌, replicate, arith}
use kama_webserver.Lfu.{KLfuCache, init, kick_out}
use kama_webserver.Lfu.Valid.{value-nonempty}
use kama_webserver.Lfu.Eviction.{IsEvicted, kick_out_lem}
use kama_webserver.Lfu.Methods.{IsPut, put-IsPut}
use kama_webserver.Lfu.Runs.{Call, puts, gets, purges, run, IsRun, init-IsValid, run-init-IsRun}
use kama_webserver.Lfu
use mathlib.Core.Option

abbrev calls : List Call
calls =
    puts 1 10 ∷ puts 2 20 ∷ gets 1 ∷ puts 3 30 ∷ gets 2 ∷ gets 1 ∷ purges ∷ gets 1 ∷ puts 4 40 ∷ []

run-init-IsRun_example : IsRun 2 10 (λ k. none) calls (run calls (init 2 10))
run-init-IsRun_example = run-init-IsRun 2 10 calls (omega arith) (omega arith) (omega arith)

-- The second key, used once, was evicted.
answers_test :
    Option.map (λ r. r.0) (run calls (init 2 10)) ≡ some (some 10 ∷ none ∷ some 10 ∷ none ∷ [])
unfolding run init Lfu.put Lfu.get Lfu.purge
answers_test = refl

abbrev stored_one : IsPut 2 10 (init 2 10) 1 10 (Lfu.put 1 10 (init 2 10))
stored_one =
    put-IsPut 2 10 1 10 (omega arith) (omega arith) (init 2 10) (init-IsValid 2 10) (omega arith)

kick_out_lem_example : IsEvicted 2 10 stored_one.after (kick_out stored_one.after)
kick_out_lem_example =
    kick_out_lem 2 10 stored_one.after stored_one.valid
      (value-nonempty stored_one.after 1 10 stored_one.stored)

-- With 1 for the largest average, frequencies are never lowered: once the only key has 127, the minimum
-- becomes 1, whose list is empty, and the next eviction finds no node.
abbrev hot_calls : List Call
hot_calls = puts 1 10 ∷ replicate 126 (gets 1) ++ puts 2 20 ∷ []

no_victim_test : run hot_calls (init 1 1) ≡ none
unfolding run init Lfu.put Lfu.get
no_victim_test = refl
