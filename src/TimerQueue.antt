-- ===== src/TimerQueue.antt =====
-- src/TimerQueue.cc and src/Timer.cc: the timers of a loop, ordered by their time, and the timerfd.
-- Times are microseconds since the epoch; an interval is given in microseconds, as `addTime` makes
-- it of its seconds. A timer is known by its address, which orders timers of the same time.
pub mod Ordered
pub mod Expiring
pub mod Arming
pub mod Repeating
mod Tests
use kama_webserver.Prelude.{
  ℕ, zero, suc, ◌+◌, ◌-◌, ◌*◌, ◌/◌, ◌%◌, Bool, true, false, not, ◌&&◌, ◌||◌, List, [], ◌∷◌, ◌++◌,
  ltb, leb, map, ◌==◌, if◌then◌else◌,
}

pub record Timer : Type 0 where
  pub address : ℕ
  pub expiration : ℕ
  pub interval : ℕ
  pub repeat : Bool

-- `interval > 0.0` decides once whether the timer repeats.
unfoldable pub init_timer : ℕ → ℕ → ℕ → Timer
init_timer address when interval = record {
  address = address;
  expiration = when;
  interval = interval;
  repeat = ltb 0 interval;
}

pub restart : ℕ → Timer → Timer
restart now t =
    if t.repeat then record t { expiration = now + t.interval } else record t { expiration = 0 }

-- The order of `std::pair<Timestamp, Timer*>`.
abbrev pub is_before : Timer → Timer → Bool
is_before s t =
    ltb s.expiration t.expiration || (s.expiration == t.expiration && ltb s.address t.address)

-- `std::set::insert`.
pub insert_entry : Timer → List Timer → List Timer
insert_entry t [] = t ∷ []
insert_entry t (s ∷ ts) =
    let rest = insert_entry t ts in
    if is_before t s then t ∷ s ∷ ts else if is_before s t then s ∷ rest else s ∷ ts

-- What the timerfd was set to last, seconds and nanoseconds from `set_at` on; it is armed until it is
-- read.
pub record TimerQueue : Type 0 where
  pub timers : List Timer
  pub timerfd : ℕ × ℕ
  pub set_at : ℕ
  pub armed : Bool
  pub run : List ℕ
  pub deleted : List ℕ

unfoldable pub init : TimerQueue
init = record { timers = []; timerfd = (0, 0); set_at = 0; armed = false; run = []; deleted = [] }

-- At least 100 microseconds, so that the timer is not turned off by 0.
pub reset_timerfd : ℕ → ℕ → TimerQueue → TimerQueue
reset_timerfd now expiration q =
    let difference = if ltb (expiration - now) 100 then 100 else expiration - now in
    record q {
      timerfd = (difference / 1000000, difference % 1000000 * 1000);
      set_at = now;
      armed = true;
    }

abbrev pub is_earliest : Timer → List Timer → Bool
is_earliest t [] = true
is_earliest t (s ∷ ts) = ltb t.expiration s.expiration

pub insert : Timer → TimerQueue → Bool × TimerQueue
unfolding insert_entry
insert t q = (is_earliest t q.timers, record q { timers = insert_entry t q.timers })

pub add_timer_in_loop : ℕ → Timer → TimerQueue → TimerQueue
unfolding insert reset_timerfd
add_timer_in_loop now t q =
    let (earliest_changed, inserted) = insert t q in
    if earliest_changed then reset_timerfd now t.expiration inserted else inserted

-- All entries before `(now, UINTPTR_MAX)`; no timer has that address.
pub get_expired : ℕ → List Timer → List Timer × List Timer
get_expired now [] = ([], [])
get_expired now (t ∷ ts) =
    let rest = get_expired now ts in
    if leb t.expiration now then (t ∷ rest.0, rest.1) else ([], t ∷ ts)

abbrev pub reset_earliest : ℕ → List Timer → TimerQueue → TimerQueue
reset_earliest now [] q = q
reset_earliest now (t ∷ ts) q = reset_timerfd now t.expiration q

abbrev pub renew : ℕ → Timer → TimerQueue → TimerQueue
renew now t q =
    if t.repeat
    then (insert (restart now t) q).1
    else record q { deleted = q.deleted ++ t.address ∷ [] }

-- `now` is what the clock shows in the loop.
pub reset : ℕ → List Timer → TimerQueue → TimerQueue
unfolding insert restart reset_timerfd
reset now [] q = q
reset now (t ∷ expired) q =
    let renewed = renew now t q in reset now expired (reset_earliest now renewed.timers renewed)

-- In the loop's own thread, `runInLoop` inserts at once; `address` is that of the new timer.
unfoldable pub add_timer : ℕ → ℕ → ℕ → ℕ → TimerQueue → TimerQueue
unfolding add_timer_in_loop init_timer
add_timer address when interval now q = add_timer_in_loop now (init_timer address when interval) q

-- What a callback adds, each timer with the clock at that time: in the loop's own thread, `addTimer`
-- inserts it at once.
abbrev pub add_all : List (ℕ × Timer) → TimerQueue → TimerQueue
add_all [] q = q
add_all ((now, t) ∷ added) q = add_all added (add_timer_in_loop now t q)

-- `callbacks` says what the callback of the timer at an address adds.
abbrev pub run_all : (ℕ → List (ℕ × Timer)) → List Timer → TimerQueue → TimerQueue
run_all callbacks [] q = q
run_all callbacks (t ∷ ts) q =
    run_all callbacks ts
      (add_all (callbacks t.address) (record q { run = q.run ++ t.address ∷ [] }))

pub handle_read : (ℕ → List (ℕ × Timer)) → ℕ → ℕ → TimerQueue → TimerQueue
unfolding get_expired reset add_timer_in_loop
handle_read callbacks now later q =
    let (expired, others) = get_expired now q.timers in
    reset later expired (run_all callbacks expired (record q { timers = others; armed = false }))

-- The destructor deletes all timers.
pub destroy : TimerQueue → TimerQueue
destroy q = record q { timers = []; deleted = q.deleted ++ map (λ t. t.address) q.timers }
