-- ===== src/TimerQueue/Tests.antt =====
-- Runs of src/TimerQueue.cc.
use kama_webserver.Prelude.{
  ℕ, arith, ◌==◌, if◌then◌else◌, ◌≡◌, refl, true, false, List, [], ◌∷◌, map,
}
use kama_webserver.TimerQueue.{add_timer}
use kama_webserver.TimerQueue.Repeating
use kama_webserver.TimerQueue.Repeating.{Stays, add_timer-Stays}
use kama_webserver.TimerQueue.Arming.{IsArmed, starts, adds, fires, Run-IsArmed}
use kama_webserver.TimerQueue.{
  init, add_timer_in_loop, reset, insert, insert_entry, restart, reset_timerfd, Timer, TimerQueue,
  get_expired, handle_read,
}
use kama_webserver.TimerQueue.Ordered.{is_sorted, none_due}
use kama_webserver.TimerQueue.Expiring.{handle_read_stalls}

abbrev once : Timer
once = record { address = 1; expiration = 500; interval = 0; repeat = false }

abbrev often : Timer
often = record { address = 2; expiration = 900; interval = 400; repeat = true }

abbrev timers : List Timer
timers = once ∷ often ∷ []

abbrev queue : TimerQueue
queue = record {
  timers = timers;
  timerfd = (0, 500000);
  set_at = 0;
  armed = true;
  run = [];
  deleted = [];
}

-- The first timer's callback adds another one.
abbrev callbacks : ℕ → List (ℕ × Timer)
callbacks a =
    if a == 1
    then (955, record { address = 3; expiration = 970; interval = 0; repeat = false }) ∷ []
    else []

handle_read_stalls_example : handle_read callbacks 400 401 queue ≡ record queue { armed = false }
unfolding none_due
handle_read_stalls_example = handle_read_stalls callbacks 400 401 queue refl

abbrev soon : Timer
soon = record { address = 4; expiration = 2000; interval = 500; repeat = true }

-- A timer is added at 1000, and fires at 2050, late by 50.
abbrev rung : TimerQueue
rung = handle_read callbacks 2050 2060 (add_timer_in_loop 1000 soon init)

Run-IsArmed_example : IsArmed rung.timers rung × (is_sorted rung.timers ≡ true)
unfolding add_timer_in_loop init none_due insert insert_entry reset_timerfd
Run-IsArmed_example = Run-IsArmed (fires (adds starts 1000 soon) callbacks 2050 2060 refl)

rung_test : map (λ t. t.expiration) rung.timers ≡ 2560 ∷ []
unfolding handle_read add_timer_in_loop init get_expired reset insert insert_entry restart
    reset_timerfd
rung_test = refl

-- A timer that rings every 400 microseconds, after it has rung once.
abbrev every : TimerQueue
every = add_timer 5 1400 400 1001 init

add_timer-Stays_example : Stays 5 (handle_read (λ b. []) 1450 1460 every).timers
unfolding init
add_timer-Stays_example =
    add_timer-Stays 5 1400 400 1001 init (handle_read (λ b. []) 1450 1460 every) (omega arith) refl
      (Repeating.fires (Repeating.starts every) (λ b. []) 1450 1460 (λ b. tt))
