-- ===== src/EventLoopThread/Tests.antt =====
-- Runs of src/EventLoopThread.cc.
use kama_webserver.Prelude.{ℕ, ◌≤◌, ◌≡◌, refl, ◌⊎◌, true, arith}
use kama_webserver.EventLoopThread.{
  EventLoopThread, joining, destroyed, looping, init, start, pass_sem, seen, test_loop, chosen,
  destroy, quit_and_join, quit_loop, set_tid, post_sem, construct_loop, call_back, woken, publish,
  enter_loop,
}
use kama_webserver.EventLoopThread.System.{
  Step, Steps, stays, steps, Run, starts, passes, tests, destroys, identifies, posts, constructs,
  calls, publishes, enters, creates, runs,
}
use kama_webserver.EventLoopThread.Handshake.{
  owner_rank, worker_rank, HasReturned, IsHandshake, Run-IsHandshake,
}
use kama_webserver.EventLoopThread.Starting.{start_loop_ends}
use kama_webserver.EventLoopThread.Stopping.{quit_loop_ends, quit_lost}

-- The owner sleeps before the loop 70 of thread 7 is published.
abbrev new : EventLoopThread
new = init true

abbrev starting_state : EventLoopThread
starting_state = start new

abbrev identified_state : EventLoopThread
identified_state = set_tid 7 starting_state

abbrev posted_state : EventLoopThread
posted_state = post_sem identified_state

abbrev waiting_state : EventLoopThread
waiting_state = pass_sem 0 posted_state

abbrev asleep_state : EventLoopThread
asleep_state = test_loop waiting_state

abbrev constructed_state : EventLoopThread
constructed_state = construct_loop asleep_state

abbrev initialised_state : EventLoopThread
initialised_state = call_back 70 constructed_state

abbrev published_state : EventLoopThread
published_state = publish 70 initialised_state

abbrev back : EventLoopThread
back = test_loop published_state

to_starting_state : Steps 7 70 1 new starting_state
unfolding init start pass_sem test_loop seen set_tid post_sem construct_loop call_back publish woken
to_starting_state = steps (stays new) (starts new refl)

to_identified_state : Steps 7 70 2 new identified_state
unfolding init start pass_sem test_loop seen set_tid post_sem construct_loop call_back publish woken
to_identified_state = steps to_starting_state (identifies starting_state refl)

to_posted_state : Steps 7 70 3 new posted_state
unfolding init start pass_sem test_loop seen set_tid post_sem construct_loop call_back publish woken
to_posted_state = steps to_identified_state (posts identified_state refl)

to_waiting_state : Steps 7 70 4 new waiting_state
unfolding init start pass_sem test_loop seen set_tid post_sem construct_loop call_back publish woken
to_waiting_state = steps to_posted_state (passes posted_state 0 refl refl)

to_asleep_state : Steps 7 70 5 new asleep_state
unfolding init start pass_sem test_loop seen set_tid post_sem construct_loop call_back publish woken
to_asleep_state = steps to_waiting_state (tests waiting_state refl)

to_constructed_state : Steps 7 70 6 new constructed_state
unfolding init start pass_sem test_loop seen set_tid post_sem construct_loop call_back publish woken
to_constructed_state = steps to_asleep_state (constructs asleep_state refl)

to_initialised_state : Steps 7 70 7 new initialised_state
unfolding init start pass_sem test_loop seen set_tid post_sem construct_loop call_back publish woken
to_initialised_state = steps to_constructed_state (calls constructed_state refl)

to_published_state : Steps 7 70 8 new published_state
unfolding init start pass_sem test_loop seen set_tid post_sem construct_loop call_back publish woken
to_published_state = steps to_initialised_state (publishes initialised_state refl)

to_back : Steps 7 70 9 new back
unfolding init start pass_sem test_loop seen set_tid post_sem construct_loop call_back publish woken
to_back = steps to_published_state (tests published_state refl)

Run-Steps :
    {tid address n : ℕ} {s t : EventLoopThread}
    → Run tid address s
    → Steps tid address n s t
    → Run tid address t
Run-Steps r (stays s) = r
Run-Steps r (steps rs step) = runs (Run-Steps r rs) step

back-Run : Run 7 70 back
back-Run = Run-Steps (creates true) to_back

Run-IsHandshake_example : IsHandshake 7 70 back
Run-IsHandshake_example = Run-IsHandshake 7 70 back-Run

start_loop_ends_example :
    (9 ≤ 17)
    × HasReturned 70 back.owner
    × ((4 ≤ owner_rank back.owner) ⊎ ((t : EventLoopThread) × Step 7 70 back t))
start_loop_ends_example = start_loop_ends 7 70 9 true back to_back

quit_lost_example :
    (t : EventLoopThread) × Steps 7 70 3 back t
    × (t.owner ≡ joining)
    × (t.worker ≡ looping)
    × ((u : EventLoopThread) → Step 7 70 t u → ⊥)
unfolding init start pass_sem test_loop seen set_tid post_sem construct_loop call_back publish woken
quit_lost_example = quit_lost 7 70 70 back back-Run refl refl

abbrev testing : EventLoopThread
testing = destroy (enter_loop back)

testing-Run : Run 7 70 testing
unfolding init start pass_sem test_loop seen set_tid post_sem construct_loop call_back publish woken
    enter_loop destroy chosen
testing-Run = runs (runs back-Run (enters _ refl)) (destroys _ 70 refl)

quit_loop_ends_example :
    (0 ≤ 3)
    × (((quit_and_join testing).owner ≡ destroyed)
        ⊎ ((u : EventLoopThread) × Step 7 70 (quit_and_join testing) u))
unfolding init start pass_sem test_loop seen set_tid post_sem construct_loop call_back publish woken
    enter_loop destroy chosen worker_rank quit_loop
quit_loop_ends_example =
    quit_loop_ends 7 70 0 testing (quit_and_join testing) (quit_and_join testing) testing-Run refl
      refl (omega arith) (stays (quit_and_join testing))
