-- ===== src/TimerQueue/Arming.antt =====
-- src/TimerQueue.cc: the timerfd is set for the first timer, until a wake-up finds none due.
use kama_webserver.Prelude.{
  leb, Bool, ap, not, ◌&&◌, ℕ, ◌+◌, ◌-◌, ◌*◌, ◌/◌, ◌≤◌, ◌≡◌, ◌⊎◌, inl, inr, refl, sym, ◌∙◌,
  Bool-cases, true, false, List, [], ◌∷◌, ltb, if◌then◌else◌, arith,
}
use mathlib.Core.Path.{subst}
use kama_webserver.TimerQueue.{
  Timer, TimerQueue, init, is_before, is_earliest, insert_entry, insert, add_timer_in_loop,
  reset_timerfd, reset_earliest, renew, reset, get_expired, run_all, handle_read,
}
use kama_webserver.TimerQueue.Ordered.{is_sorted, none_due, later-none_due}
use kama_webserver.TimerQueue.Expiring.{add-sorted, handle_read_lem, handle_read_stalls}

-- When the timerfd, as it was set last, becomes readable, in microseconds.
abbrev pub deadline : TimerQueue → ℕ
deadline q = q.set_at + (q.timerfd.0 * 1000000 + q.timerfd.1 / 1000)

-- Not before the first timer is due, and no later than that or 100 microseconds behind the setting.
abbrev pub IsSetFor : Timer → TimerQueue → Type 0
IsSetFor t q =
    (q.armed ≡ true)
    × (t.expiration ≤ deadline q)
    × ((deadline q ≡ t.expiration) ⊎ (deadline q ≡ q.set_at + 100))

abbrev pub IsArmed : List Timer → TimerQueue → Type 0
IsArmed [] q = Unit {0}
IsArmed (t ∷ ts) q = IsSetFor t q

reset_timerfd-deadline :
    (now expiration : ℕ) (q : TimerQueue)
    → deadline (reset_timerfd now expiration q)
      ≡ now + (if ltb (expiration - now) 100 then 100 else expiration - now)
unfolding reset_timerfd
reset_timerfd-deadline now expiration q = ground arith

reset_timerfd-IsSetFor :
    (now : ℕ) (t : Timer) (q : TimerQueue) → IsSetFor t (reset_timerfd now t.expiration q)
unfolding reset_timerfd
reset_timerfd-IsSetFor now t q =
    let same = reset_timerfd-deadline now t.expiration q in
    (
      refl,
      ground (arith, same),
      elim (Bool-cases (ltb (t.expiration - now) 100)) [
        | inl short ↦ inr (ground (arith, same, short))
        | inr long ↦ inl (ground (arith, same, long))
      ],
    )

IsSetFor-same :
    (s t : Timer) (q : TimerQueue) → s.expiration ≡ t.expiration → IsSetFor s q → IsSetFor t q
IsSetFor-same s t q same (armed, early, late) = (
  armed,
  ground (arith, same, early),
  elim late [ inl exact ↦ inl (exact ∙ same) | inr soon ↦ inr soon ],
)

insert_entry-IsArmed_early :
    (t : Timer) (ts : List Timer) (q : TimerQueue)
    → is_earliest t ts ≡ true
    → IsSetFor t q
    → IsArmed (insert_entry t ts) q
unfolding insert_entry
insert_entry-IsArmed_early t [] q h k = k
insert_entry-IsArmed_early t (s ∷ ts) q h k =
    let before : is_before t s ≡ true = ground (arith, h) in rw (before) k

insert_entry-IsArmed_late :
    (t : Timer) (ts : List Timer) (q : TimerQueue)
    → is_earliest t ts ≡ false
    → IsArmed ts q
    → IsArmed (insert_entry t ts) q
unfolding insert_entry
insert_entry-IsArmed_late t [] q h k = absurd (ground (arith, h))
insert_entry-IsArmed_late t (s ∷ ts) q h k = elim (Bool-cases (is_before t s)) [
  | inl before ↦ rw (before) (IsSetFor-same s t q (ground (arith, h, before)) k)
  | inr behind ↦ elim (Bool-cases (is_before s t)) [
    | inl after ↦ rw (behind, after) k
    | inr same ↦ rw (behind, same) k
  ]
]

add-early :
    (now : ℕ) (t : Timer) (q : TimerQueue)
    → is_earliest t q.timers ≡ true
    → add_timer_in_loop now t q
      ≡ reset_timerfd now t.expiration (record q { timers = insert_entry t q.timers })
unfolding add_timer_in_loop insert
add-early now t q h = ground (arith, h)

add-late :
    (now : ℕ) (t : Timer) (q : TimerQueue)
    → is_earliest t q.timers ≡ false
    → add_timer_in_loop now t q ≡ record q { timers = insert_entry t q.timers }
unfolding add_timer_in_loop insert
add-late now t q h = ground (arith, h)

-- The entries themselves do not matter.
IsArmed-entries :
    (ts us : List Timer) (q : TimerQueue) → IsArmed ts q → IsArmed ts (record q { timers = us })
IsArmed-entries [] us q h = h
IsArmed-entries (t ∷ ts) us q h = h

add-IsArmed_early :
    (now : ℕ) (t : Timer) (q : TimerQueue)
    → is_earliest t q.timers ≡ true
    → IsArmed (add_timer_in_loop now t q).timers (add_timer_in_loop now t q)
unfolding reset_timerfd
add-IsArmed_early now t q early =
    let kept = record q { timers = insert_entry t q.timers } in
    subst (λ r. IsArmed r.timers r) (sym (add-early now t q early))
      (insert_entry-IsArmed_early t q.timers (reset_timerfd now t.expiration kept) early
        (reset_timerfd-IsSetFor now t kept))

add-IsArmed :
    (now : ℕ) (t : Timer) (q : TimerQueue)
    → IsArmed q.timers q
    → IsArmed (add_timer_in_loop now t q).timers (add_timer_in_loop now t q)
unfolding reset_timerfd
add-IsArmed now t q h = elim (Bool-cases (is_earliest t q.timers)) [
  | inl early ↦ add-IsArmed_early now t q early
  | inr late ↦
      subst (λ r. IsArmed r.timers r) (sym (add-late now t q late))
        (insert_entry-IsArmed_late t q.timers (record q { timers = insert_entry t q.timers }) late
          (IsArmed-entries q.timers (insert_entry t q.timers) q h))
]

-- The last setting of `reset`.
reset_earliest-IsArmed :
    (now : ℕ) (ts : List Timer) (q : TimerQueue) → IsArmed ts (reset_earliest now ts q)
reset_earliest-IsArmed now [] q = tt
reset_earliest-IsArmed now (t ∷ ts) q = reset_timerfd-IsSetFor now t q

reset_earliest-timers :
    (now : ℕ) (ts : List Timer) (q : TimerQueue) → (reset_earliest now ts q).timers ≡ q.timers
unfolding reset_timerfd
reset_earliest-timers now [] q = refl
reset_earliest-timers now (t ∷ ts) q = refl

reset-IsArmed :
    (now : ℕ) (t : Timer) (expired : List Timer) (q : TimerQueue)
    → IsArmed (reset now (t ∷ expired) q).timers (reset now (t ∷ expired) q)
unfolding reset
reset-IsArmed now t [] q =
    let renewed = renew now t q in
    subst (λ ts. IsArmed ts (reset_earliest now renewed.timers renewed))
      (sym (reset_earliest-timers now renewed.timers renewed))
      (reset_earliest-IsArmed now renewed.timers renewed)
reset-IsArmed now t (u ∷ expired) q = reset-IsArmed now u expired _

-- With a timer due, the first one expires.
due-get_expired :
    (now : ℕ) (ts : List Timer)
    → is_sorted ts ≡ true
    → none_due now ts ≡ false
    → (get_expired now ts).0 ≡ []
    → (get_expired now ts).1 ≡ []
unfolding get_expired
due-get_expired now [] sorted some_due none_left = refl
due-get_expired now (t ∷ ts) sorted some_due none_left = elim (Bool-cases (leb t.expiration now)) [
  | inl ready ↦ absurd (ground (arith, ready, none_left))
  | inr later ↦ absurd (ground (arith, some_due, later-none_due now t ts sorted later))
]

module _ (callbacks : ℕ → List (ℕ × Timer)) (later : ℕ) (q : TimerQueue) where
  -- What `handleRead` does behind `getExpired`.
  after_split : List Timer × List Timer → TimerQueue
  after_split (expired, others) =
      reset later expired (run_all callbacks expired (record q { timers = others; armed = false }))

  split-IsArmed :
      (r : List Timer × List Timer)
      → (r.0 ≡ [] → r.1 ≡ [])
      → IsArmed (after_split r).timers (after_split r)
  unfolding after_split reset
  split-IsArmed ([], others) h =
      subst (λ ts. IsArmed ts (record q { timers = ts; armed = false })) (sym (h refl)) tt
  split-IsArmed (t ∷ expired, others) h =
      reset-IsArmed later t expired
        (run_all callbacks (t ∷ expired) (record q { timers = others; armed = false }))

  handle_read-IsArmed :
      (now : ℕ)
      → is_sorted q.timers ≡ true
      → none_due now q.timers ≡ false
      → IsArmed (handle_read callbacks now later q).timers (handle_read callbacks now later q)
  unfolding handle_read after_split
  handle_read-IsArmed now sorted some_due =
      split-IsArmed (get_expired now q.timers) (due-get_expired now q.timers sorted some_due)

-- Whether the queue has stalled says what the timerfd is to be.
abbrev pub Stands : Bool → TimerQueue → Type 0
Stands false q = IsArmed q.timers q
Stands true q = q.armed ≡ false

-- Timers are added in the thread of the loop, and a timerfd that is armed fires, whatever the wall clock
-- shows then, since it counts by another clock. The queue stalls with a wake-up at which no timer is due
-- by the wall clock, until a timer is added that is the earliest.
pub data Run : Bool → TimerQueue → Type 0 where
  starts : Run false init
  adds :
      {stalled : Bool} {q : TimerQueue}
      → Run stalled q
      → (now : ℕ) (t : Timer)
      → Run (stalled && not (is_earliest t q.timers)) (add_timer_in_loop now t q)
  fires :
      {stalled : Bool} {q : TimerQueue}
      → Run stalled q
      → (callbacks : ℕ → List (ℕ × Timer)) (now later : ℕ) → q.armed ≡ true
      → Run (none_due now q.timers) (handle_read callbacks now later q)

add-Stands :
    (stalled : Bool) (now : ℕ) (t : Timer) (q : TimerQueue)
    → Stands stalled q
    → Stands (stalled && not (is_earliest t q.timers)) (add_timer_in_loop now t q)
add-Stands false now t q h = add-IsArmed now t q h
add-Stands true now t q h = elim (Bool-cases (is_earliest t q.timers)) [
  | inl early ↦
      subst (λ b. Stands (not b) (add_timer_in_loop now t q)) (sym early)
        (add-IsArmed_early now t q early)
  | inr late ↦
      subst (λ b. Stands (not b) (add_timer_in_loop now t q)) (sym late)
        (ap (λ r. r.armed) (add-late now t q late) ∙ h)
]

handle_read-Stands :
    (callbacks : ℕ → List (ℕ × Timer)) (now later : ℕ) (q : TimerQueue)
    → is_sorted q.timers ≡ true
    → Stands (none_due now q.timers) (handle_read callbacks now later q)
handle_read-Stands callbacks now later q sorted = elim (Bool-cases (none_due now q.timers)) [
  | inl none_left ↦
      subst (λ b. Stands b (handle_read callbacks now later q)) (sym none_left)
        (ap (λ r. r.armed) (handle_read_stalls callbacks now later q none_left))
  | inr some_due ↦
      subst (λ b. Stands b (handle_read callbacks now later q)) (sym some_due)
        (handle_read-IsArmed callbacks later q now sorted some_due)
]

-- In every reachable state the entries are ordered. Unless the queue has stalled, by a wake-up at which no
-- timer was due by the wall clock, the timerfd is armed for the first entry if there is one: by the clock
-- at its setting not before that is due, but when it is due or 100 microseconds behind the setting. As
-- long as it has stalled, the timerfd is not armed. Timers are added in the thread of the loop.
pub Run-IsArmed :
    {stalled : Bool} {q : TimerQueue}
    → Run stalled q
    → Stands stalled q × (is_sorted q.timers ≡ true)
unfolding init is_sorted
Run-IsArmed starts = (tt, refl)
Run-IsArmed (adds {stalled = b} {q = q} r now t) =
    let (stands, sorted) = Run-IsArmed r in (add-Stands b now t q stands, add-sorted now t q sorted)
Run-IsArmed (fires {q = q} r callbacks now later armed) =
    let (stands, sorted) = Run-IsArmed r in
    (
      handle_read-Stands callbacks now later q sorted,
      (handle_read_lem callbacks now later q sorted).1,
    )
