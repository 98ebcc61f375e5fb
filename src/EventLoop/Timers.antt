-- ===== src/EventLoop/Timers.antt =====
-- include/EventLoop.h: the timers of a loop, set in its own thread. Waiting times are microseconds; the
-- clock is read once for the time of the timer and once when the timerfd is set. A `timerQueue_` of
-- `none` is null, and a result of `none` a call through it.
use mathlib.Core.Option
use kama_webserver.Prelude.{ℕ, ◌+◌, Option, none}
use kama_webserver.TimerQueue.{TimerQueue, add_timer}

-- The constructor of the loop leaves `timerQueue_` null, and nothing sets it.
abbrev pub timer_queue : Option TimerQueue
timer_queue = none

-- `address` is that of the new timer.
pub run_at : ℕ → ℕ → ℕ → Option TimerQueue → Option TimerQueue
run_at address timestamp later q = Option.map (add_timer address timestamp 0 later) q

pub run_after : ℕ → ℕ → ℕ → ℕ → Option TimerQueue → Option TimerQueue
unfolding run_at
run_after address wait_time now later q = run_at address (now + wait_time) later q

pub run_every : ℕ → ℕ → ℕ → ℕ → Option TimerQueue → Option TimerQueue
run_every address interval now later q =
    Option.map (add_timer address (now + interval) interval later) q
