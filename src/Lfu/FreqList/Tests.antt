-- ===== src/Lfu/FreqList/Tests.antt =====
-- include/LFU.h: a list with nodes at concrete addresses.
use kama_webserver.Prelude.{ℕ, ◌≡◌, refl, ◌+◌, Option, none, some, List, [], ◌∷◌}
use kama_webserver.Lfu
use kama_webserver.Lfu.FreqList.{
  Store, FreqList, set_pre, set_next, init, is_empty, get_first_node, add_node, remove_node,
}
use kama_webserver.Lfu.FreqList.Linking.{IsList, SameData}
use kama_webserver.Lfu.FreqList.Runs.{
  Call, adds, removes, run, call, keys, run_keys, front, first, run-init-IsLinked,
}

abbrev fresh : Store
fresh a = record { freq = 1; key = a + 10; value = a; pre = none; next = none }

abbrev list : FreqList
list = (init 1 0 1 fresh).0

abbrev start : Store
start = (init 1 0 1 fresh).1

abbrev calls : List Call
calls = adds 5 ∷ adds 6 ∷ adds 7 ∷ removes 6 ∷ adds 6 ∷ removes 5 ∷ []

calls-front :
    elim (run list calls start) as (λ r. Option ℕ) [ none ↦ none | some s ↦ front list s ] ≡ some 17
unfolding run call add_node remove_node front init get_first_node is_empty
calls-front = refl

run-init-IsLinked_example :
    (s' : Store) × (xs : List ℕ) × (run list calls start ≡ some s')
    × IsList list xs s'
    × SameData start s'
    × (keys s' xs ≡ run_keys start calls [])
    × (front list s' ≡ first (run_keys start calls []))
    × (is_empty list s' ≡ Lfu.is_empty (run_keys start calls []))
unfolding init set_pre set_next
run-init-IsLinked_example =
    run-init-IsLinked 1 0 1 fresh calls refl
      (refl, refl, (refl, refl, (refl, refl, (refl, (refl, refl, (refl, tt))))))
