-- ===== src/TimerQueue/Repeating.antt =====
-- src/TimerQueue.cc: a repeating timer stays in the set.
use kama_webserver.Prelude.{
  ◌<◌, ℕ, ◌≡◌, refl, sym, ap, ◌∙◌, Bool, Bool-cases, inl, inr, true, false, not, ◌&&◌, ◌||◌, List,
  [], ◌∷◌, ◌==◌, if◌then◌else◌, arith,
}
use kama_webserver.TimerQueue.{
  add_timer, init_timer, Timer, TimerQueue, insert_entry, insert, add_timer_in_loop, add_all,
  reset_timerfd, reset_earliest, renew, restart, reset, get_expired, run_all, handle_read,
}

-- A timer with an address is there.
abbrev pub has : ℕ → List Timer → Bool
has a [] = false
has a (t ∷ ts) = t.address == a || has a ts

-- What has this address repeats.
abbrev pub repeats : ℕ → List Timer → Bool
repeats a [] = true
repeats a (t ∷ ts) = (not (t.address == a) || t.repeat) && repeats a ts

abbrev pub Stays : ℕ → List Timer → Type 0
Stays a ts = (has a ts ≡ true) × (repeats a ts ≡ true)

abbrev IsOther : ℕ → Timer → Type 0
IsOther a t = (not (t.address == a) || t.repeat) ≡ true

insert_entry-has :
    (a : ℕ) (t : Timer) (ts : List Timer) → has a ts ≡ true → has a (insert_entry t ts) ≡ true
unfolding insert_entry
insert_entry-has a t [] h = ground (arith, h)
insert_entry-has a t (s ∷ ts) h = ground (arith, h, insert_entry-has a t ts)

insert_entry-repeats :
    (a : ℕ) (t : Timer) (ts : List Timer)
    → IsOther a t
    → repeats a ts ≡ true
    → repeats a (insert_entry t ts) ≡ true
unfolding insert_entry
insert_entry-repeats a t [] k h = ground (arith, h, k)
insert_entry-repeats a t (s ∷ ts) k h = ground (arith, h, k, insert_entry-repeats a t ts k)

insert_entry-itself : (t : Timer) (ts : List Timer) → has t.address (insert_entry t ts) ≡ true
unfolding insert_entry
insert_entry-itself t [] = ground arith
insert_entry-itself t (s ∷ ts) = ground (arith, insert_entry-itself t ts)

add-timers :
    (now : ℕ) (t : Timer) (q : TimerQueue)
    → (add_timer_in_loop now t q).timers ≡ insert_entry t q.timers
unfolding add_timer_in_loop insert reset_timerfd
add-timers now t q = ground arith

get_expired-has :
    (a now : ℕ) (ts : List Timer)
    → (has a (get_expired now ts).0 || has a (get_expired now ts).1) ≡ has a ts
unfolding get_expired
get_expired-has a now [] = refl
get_expired-has a now (t ∷ ts) = ground (arith, get_expired-has a now ts)

get_expired-repeats :
    (a now : ℕ) (ts : List Timer)
    → (repeats a (get_expired now ts).0 && repeats a (get_expired now ts).1) ≡ repeats a ts
unfolding get_expired
get_expired-repeats a now [] = refl
get_expired-repeats a now (t ∷ ts) = ground (arith, get_expired-repeats a now ts)

-- Added timers with this address repeat.
abbrev pub AreOthers : ℕ → List (ℕ × Timer) → Type 0
AreOthers a [] = Unit {0}
AreOthers a ((now, t) ∷ added) = IsOther a t × AreOthers a added

add_all-has :
    (a : ℕ) (added : List (ℕ × Timer)) (q : TimerQueue)
    → has a q.timers ≡ true
    → has a (add_all added q).timers ≡ true
add_all-has a [] q h = h
add_all-has a ((now, t) ∷ added) q h =
    add_all-has a added (add_timer_in_loop now t q)
      (ap (has a) (add-timers now t q) ∙ insert_entry-has a t q.timers h)

add_all-repeats :
    (a : ℕ) (added : List (ℕ × Timer)) (q : TimerQueue)
    → AreOthers a added
    → repeats a q.timers ≡ true
    → repeats a (add_all added q).timers ≡ true
add_all-repeats a [] q k h = h
add_all-repeats a ((now, t) ∷ added) q (other, k) h =
    add_all-repeats a added (add_timer_in_loop now t q) k
      (ap (repeats a) (add-timers now t q) ∙ insert_entry-repeats a t q.timers other h)

module _ (a : ℕ) (callbacks : ℕ → List (ℕ × Timer)) where
  run_all-has :
      (ts : List Timer) (q : TimerQueue)
      → has a q.timers ≡ true
      → has a (run_all callbacks ts q).timers ≡ true
  run_all-has [] q h = h
  run_all-has (t ∷ ts) q h = run_all-has ts _ (add_all-has a (callbacks t.address) _ h)

  run_all-repeats :
      (ts : List Timer) (q : TimerQueue)
      → ((b : ℕ) → AreOthers a (callbacks b))
      → repeats a q.timers ≡ true
      → repeats a (run_all callbacks ts q).timers ≡ true
  run_all-repeats [] q k h = h
  run_all-repeats (t ∷ ts) q k h =
      run_all-repeats ts _ k (add_all-repeats a (callbacks t.address) _ (k t.address) h)

earliest-entries :
    (now : ℕ) (ts : List Timer) (q : TimerQueue) → (reset_earliest now ts q).timers ≡ q.timers
unfolding reset_timerfd
earliest-entries now [] q = refl
earliest-entries now (t ∷ ts) q = refl

renew-has :
    (a now : ℕ) (t : Timer) (q : TimerQueue)
    → has a q.timers ≡ true
    → has a (renew now t q).timers ≡ true
unfolding insert
renew-has a now t q h = ground (arith, h, insert_entry-has a (restart now t) q.timers h)

restart-address : (now : ℕ) (t : Timer) → (restart now t).address ≡ t.address
unfolding restart
restart-address now t = ground arith

restart-repeat : (now : ℕ) (t : Timer) → (restart now t).repeat ≡ t.repeat
unfolding restart
restart-repeat now t = ground arith

renew-timers :
    (now : ℕ) (t : Timer) (q : TimerQueue)
    → (renew now t q).timers
      ≡ (if t.repeat then insert_entry (restart now t) q.timers else q.timers)
unfolding insert
renew-timers now t q = ground arith

renew-itself :
    (a now : ℕ) (t : Timer) (q : TimerQueue)
    → (t.address == a) ≡ true
    → t.repeat ≡ true
    → has a (renew now t q).timers ≡ true
renew-itself a now t q mine h =
    let same : (restart now t).address ≡ a = restart-address now t ∙ ground (arith, mine) in
    ap (has a) (renew-timers now t q)
    ∙ ap (λ b. has a (if b then insert_entry (restart now t) q.timers else q.timers)) h
    ∙ ap (λ b. has b (insert_entry (restart now t) q.timers)) (sym same)
    ∙ insert_entry-itself (restart now t) q.timers

renew-repeats :
    (a now : ℕ) (t : Timer) (q : TimerQueue)
    → repeats a q.timers ≡ true
    → repeats a (renew now t q).timers ≡ true
renew-repeats a now t q h = ap (repeats a) (renew-timers now t q) ∙ elim (Bool-cases t.repeat) [
  | inl again ↦ ground (
    arith,
    again,
    insert_entry-repeats a (restart now t) q.timers (ground (arith, again, restart-repeat now t)) h,
  )
  | inr once ↦ ground (arith, once, h)
]

reset-has_kept :
    (a now : ℕ) (expired : List Timer) (q : TimerQueue)
    → has a q.timers ≡ true
    → has a (reset now expired q).timers ≡ true
unfolding reset
reset-has_kept a now [] q h = h
reset-has_kept a now (t ∷ expired) q h = reset-has_kept a now expired _ (
    ap (has a) (earliest-entries now (renew now t q).timers (renew now t q))
    ∙ renew-has a now t q h)

reset-repeats :
    (a now : ℕ) (expired : List Timer) (q : TimerQueue)
    → repeats a q.timers ≡ true
    → repeats a (reset now expired q).timers ≡ true
unfolding reset
reset-repeats a now [] q h = h
reset-repeats a now (t ∷ expired) q h = reset-repeats a now expired _ (
    ap (repeats a) (earliest-entries now (renew now t q).timers (renew now t q))
    ∙ renew-repeats a now t q h)

-- An expired timer comes back.
reset-has :
    (a now : ℕ) (expired : List Timer) (q : TimerQueue)
    → has a expired ≡ true
    → repeats a expired ≡ true
    → has a (reset now expired q).timers ≡ true
unfolding reset
reset-has a now [] q h k = absurd (ground (arith, h))
reset-has a now (t ∷ expired) q h k = elim (Bool-cases (t.address == a)) [
  | inl mine ↦ reset-has_kept a now expired _ (
      ap (has a) (earliest-entries now (renew now t q).timers (renew now t q))
      ∙ renew-itself a now t q mine (ground (arith, k, mine)))
  | inr other ↦ reset-has a now expired _ (ground (arith, h, other)) (ground (arith, k))
]

handle_read-Stays :
    (a : ℕ) (callbacks : ℕ → List (ℕ × Timer)) (now later : ℕ) (q : TimerQueue)
    → ((b : ℕ) → AreOthers a (callbacks b))
    → Stays a q.timers
    → Stays a (handle_read callbacks now later q).timers
unfolding handle_read
handle_read-Stays a callbacks now later q others (there, again) =
    let split = get_expired now q.timers in
    let left : TimerQueue = record q { timers = split.1; armed = false } in
    let both = get_expired-repeats a now q.timers ∙ again in
    (
      elim (Bool-cases (has a split.0)) [
        | inl expired ↦
            reset-has a later split.0 (run_all callbacks split.0 left) expired
              (ground (arith, both))
        | inr waits ↦ reset-has_kept a later split.0 (run_all callbacks split.0 left) (
            run_all-has a callbacks split.0 left
              (ground (arith, waits, get_expired-has a now q.timers, there)))
      ],
      reset-repeats a later split.0 (run_all callbacks split.0 left)
          (run_all-repeats a callbacks split.0 left others (ground (arith, both))),
    )

-- What happens to the timers of a loop, when other timers have other addresses or repeat.
pub data Steps : ℕ → TimerQueue → TimerQueue → Type 0 where
  starts : {a : ℕ} (q : TimerQueue) → Steps a q q
  adds :
      {a : ℕ} {q r : TimerQueue}
      → Steps a q r
      → (now : ℕ) (t : Timer) → IsOther a t
      → Steps a q (add_timer_in_loop now t r)
  fires :
      {a : ℕ} {q r : TimerQueue}
      → Steps a q r
      → (callbacks : ℕ → List (ℕ × Timer)) (now later : ℕ) → ((b : ℕ) → AreOthers a (callbacks b))
      → Steps a q (handle_read callbacks now later r)

Steps-Stays : {a : ℕ} {q r : TimerQueue} → Steps a q r → Stays a q.timers → Stays a r.timers
Steps-Stays {a} (starts q) h = h
Steps-Stays {a} (adds {q = q} {r = r} s now t other) h =
    let (there, again) = Steps-Stays s h in
    (
      ap (has a) (add-timers now t r) ∙ insert_entry-has a t r.timers there,
      ap (repeats a) (add-timers now t r) ∙ insert_entry-repeats a t r.timers other again,
    )
Steps-Stays {a} (fires {q = q} {r = r} s callbacks now later others) h =
    handle_read-Stays a callbacks now later r others (Steps-Stays s h)

fresh-repeats : (a : ℕ) (ts : List Timer) → has a ts ≡ false → repeats a ts ≡ true
fresh-repeats a [] h = refl
fresh-repeats a (t ∷ ts) h = ground (arith, h, fresh-repeats a ts)

add-Stays :
    (now : ℕ) (t : Timer) (q : TimerQueue)
    → has t.address q.timers ≡ false
    → t.repeat ≡ true
    → Stays t.address (add_timer_in_loop now t q).timers
add-Stays now t q fresh again = (
  ap (has t.address) (add-timers now t q) ∙ insert_entry-itself t q.timers,
  ap (repeats t.address) (add-timers now t q)
      ∙ insert_entry-repeats t.address t q.timers (ground (arith, again))
          (fresh-repeats t.address q.timers fresh),
)

-- A timer that addTimer made with a positive interval, at an address that no timer had, is in the set in
-- every later state: it comes back whenever it has run. Timers are added in the thread of the loop and
-- the timerfd fires at any times, while what is added at its address repeats.
pub add_timer-Stays :
    (address when interval now : ℕ) (q r : TimerQueue)
    → 0 < interval
    → has address q.timers ≡ false
    → Steps address (add_timer address when interval now q) r
    → Stays address r.timers
unfolding add_timer init_timer
add_timer-Stays address when interval now q r positive fresh s =
    Steps-Stays s
      (add-Stays now (init_timer address when interval) q fresh (ground (arith, positive)))
