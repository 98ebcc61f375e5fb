-- ===== src/EventLoop/Tests.antt =====
-- Runs of src/EventLoop.cc.
use kama_webserver.Prelude.{refl, true, false}
use kama_webserver.EventLoop.{EventLoop, loop, handling, queue_in_loop, swap_pending}
use kama_webserver.EventLoop.System.{Run, starts, steps, queues, polls, swaps, handler_queues}
use kama_webserver.EventLoop.Waking.{IsAwake, Run-IsAwake}

-- Another thread queues a functor; the loop's poll returns, and its handlers queue one.
abbrev polled : EventLoop
polled = record (queue_in_loop false 7 loop) { phase = handling }

polled-Run : Run polled
unfolding queue_in_loop loop
polled-Run = steps (steps starts (queues loop 7)) (polls (queue_in_loop false 7 loop) refl)

Run-IsAwake_example : IsAwake (swap_pending (queue_in_loop true 8 polled))
unfolding queue_in_loop loop
Run-IsAwake_example = Run-IsAwake (
    steps (steps polled-Run (handler_queues polled 8 refl))
      (swaps (queue_in_loop true 8 polled) refl))
