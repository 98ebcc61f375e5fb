-- ===== src/TimerQueue/Expiring.antt =====
-- src/TimerQueue.cc: what a wake-up of the timerfd does.
use kama_webserver.Prelude.{
  ℕ, ◌≡◌, refl, sym, ap, ◌∙◌, true, false, List, [], ◌∷◌, ◌++◌, map, arith,
}
use mathlib.Core.List.{append_assoc, append-nil}
use kama_webserver.TimerQueue.{
  Timer, TimerQueue, insert, get_expired, reset_timerfd, renew, restart, reset, reset_earliest,
  add_all, add_timer_in_loop, run_all, handle_read,
}
use kama_webserver.TimerQueue.Ordered.{
  is_sorted, sorted-insert, none_due, get_expired_lem, due, get_expired-due,
}

expired-none : (now : ℕ) (ts : List Timer) → none_due now ts ≡ true → get_expired now ts ≡ ([], ts)
unfolding get_expired none_due
expired-none now [] h = refl
expired-none now (t ∷ ts) h = ground (arith, h)

-- If no timer is due by the wall clock when the timerfd wakes the loop, then handleRead runs no timer
-- and changes nothing but that the timerfd, which it read, is no longer armed, though timers wait.
pub handle_read_stalls :
    (callbacks : ℕ → List (ℕ × Timer)) (now later : ℕ) (q : TimerQueue)
    → none_due now q.timers ≡ true
    → handle_read callbacks now later q ≡ record q { armed = false }
unfolding handle_read reset
handle_read_stalls callbacks now later q h = rw (expired-none now q.timers h) refl

renew-sorted :
    (now : ℕ) (t : Timer) (q : TimerQueue)
    → is_sorted q.timers ≡ true
    → is_sorted (renew now t q).timers ≡ true
unfolding insert
renew-sorted now t q h = ground (arith, h, sorted-insert (restart now t) q.timers h)

earliest-timers :
    (now : ℕ) (ts : List Timer) (q : TimerQueue) → (reset_earliest now ts q).timers ≡ q.timers
unfolding reset_timerfd
earliest-timers now [] q = refl
earliest-timers now (t ∷ ts) q = refl

earliest-run : (now : ℕ) (ts : List Timer) (q : TimerQueue) → (reset_earliest now ts q).run ≡ q.run
unfolding reset_timerfd
earliest-run now [] q = refl
earliest-run now (t ∷ ts) q = refl

reset-sorted :
    (now : ℕ) (expired : List Timer) (q : TimerQueue)
    → is_sorted q.timers ≡ true
    → is_sorted (reset now expired q).timers ≡ true
unfolding reset
reset-sorted now [] q h = h
reset-sorted now (t ∷ expired) q h = reset-sorted now expired _ (
    ap is_sorted (earliest-timers now (renew now t q).timers (renew now t q))
    ∙ renew-sorted now t q h)

renew-run : (now : ℕ) (t : Timer) (q : TimerQueue) → (renew now t q).run ≡ q.run
unfolding insert
renew-run now t q = ground arith

reset-run : (now : ℕ) (expired : List Timer) (q : TimerQueue) → (reset now expired q).run ≡ q.run
unfolding reset
reset-run now [] q = refl
reset-run now (t ∷ expired) q =
    reset-run now expired _
    ∙ earliest-run now (renew now t q).timers (renew now t q)
    ∙ renew-run now t q

-- What adding a timer keeps.
add-run : (now : ℕ) (t : Timer) (q : TimerQueue) → (add_timer_in_loop now t q).run ≡ q.run
unfolding add_timer_in_loop insert reset_timerfd
add-run now t q = ground arith

pub add-sorted :
    (now : ℕ) (t : Timer) (q : TimerQueue)
    → is_sorted q.timers ≡ true
    → is_sorted (add_timer_in_loop now t q).timers ≡ true
unfolding add_timer_in_loop insert reset_timerfd
add-sorted now t q h = ground (arith, sorted-insert t q.timers h)

add_all-run : (added : List (ℕ × Timer)) (q : TimerQueue) → (add_all added q).run ≡ q.run
add_all-run [] q = refl
add_all-run ((now, t) ∷ added) q = add_all-run added (add_timer_in_loop now t q) ∙ add-run now t q

add_all-sorted :
    (added : List (ℕ × Timer)) (q : TimerQueue)
    → is_sorted q.timers ≡ true
    → is_sorted (add_all added q).timers ≡ true
add_all-sorted [] q h = h
add_all-sorted ((now, t) ∷ added) q h =
    add_all-sorted added (add_timer_in_loop now t q) (add-sorted now t q h)

module _ (callbacks : ℕ → List (ℕ × Timer)) where
  run_all-run :
      (ts : List Timer) (q : TimerQueue)
      → (run_all callbacks ts q).run ≡ q.run ++ map (λ t. t.address) ts
  run_all-run [] q = sym (append-nil q.run)
  run_all-run (t ∷ ts) q =
      run_all-run ts _
      ∙ ap (λ r. r ++ map (λ t. t.address) ts) (add_all-run (callbacks t.address) _)
      ∙ append_assoc q.run (t.address ∷ []) (map (λ t. t.address) ts)

  run_all-sorted :
      (ts : List Timer) (q : TimerQueue)
      → is_sorted q.timers ≡ true
      → is_sorted (run_all callbacks ts q).timers ≡ true
  run_all-sorted [] q h = h
  run_all-sorted (t ∷ ts) q h = run_all-sorted ts _ (add_all-sorted (callbacks t.address) _ h)

  pub handle_read_lem :
      (now later : ℕ) (q : TimerQueue)
      → is_sorted q.timers ≡ true
      → ((handle_read callbacks now later q).run ≡ q.run ++ map (λ t. t.address) (due now q.timers))
        × (is_sorted (handle_read callbacks now later q).timers ≡ true)
  unfolding handle_read
  handle_read_lem now later q h =
      let (same, front, back, sorted) = get_expired_lem now q.timers h in
      let expired = (get_expired now q.timers).0 in
      let rest = record q { timers = (get_expired now q.timers).1; armed = false } in
      (
        reset-run later expired (run_all callbacks expired rest)
            ∙ run_all-run expired rest
            ∙ ap (λ ts. q.run ++ map (λ t. t.address) ts) (get_expired-due now q.timers h),
        reset-sorted later expired (run_all callbacks expired rest)
            (run_all-sorted expired rest sorted),
      )
