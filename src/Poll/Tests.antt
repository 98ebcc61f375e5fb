-- ===== src/Poll/Tests.antt =====
-- Runs of src/EPollPoller.cc.
use kama_webserver.Prelude.{ℕ, List, [], ◌∷◌, ◌+◌, arith}
use kama_webserver.Channel.{Channel, Events, Index, added, none_event, deleted}
use kama_webserver.Channel
use kama_webserver.Poll.{
  Call, init, run, poll, Waited, happened, enable_reading, enable_writing, disable_all, remove,
}
use kama_webserver.Poll.Protocol.{IsTracked, run-init-IsTracked}
use kama_webserver.Poll.Waiting.{IsAnswered, poll_lem}

abbrev calls : List (Call × ℕ)
calls =
    (enable_reading, 0)
    ∷ (enable_writing, 1)
    ∷ (disable_all, 0)
    ∷ (enable_reading, 0)
    ∷ (remove, 1)
    ∷ []

abbrev plus_three : ℕ → ℕ
plus_three a = a + 3

run-init-IsTracked_example : IsTracked (run calls (init plus_three))
run-init-IsTracked_example = run-init-IsTracked plus_three calls (λ a b e. omega arith)

abbrev answer : ℕ → Waited
answer size = happened ((Channel.enable_reading none_event, 2) ∷ [])

poll_lem_example : IsAnswered (answer 16) (init plus_three) (poll answer (init plus_three))
poll_lem_example = poll_lem answer (init plus_three)
