-- ===== src/EventLoopThread/Starting.antt =====
-- src/EventLoopThread.cc and src/Thread.cc: `startLoop` ends, whatever the order of the steps.
use kama_webserver.Prelude.{
  ℕ, ◌+◌, ◌≤◌, ◌<◌, ◌≡◌, refl, dec_lt, ◌⊎◌, inl, inr, Bool, false, Option, none, some, arith,
}
use kama_webserver.EventLoopThread.{
  EventLoopThread, Owner, Worker, idle, starting, waiting, asleep, returned, destroying, joining,
  destroyed, absent, created, identified, posted, constructed, initialised, published, looping,
  left, ended, init, start, pass_sem, seen, test_loop, chosen, destroy, quit_and_join, join,
  set_tid, post_sem, construct_loop, call_back, woken, publish, enter_loop, leave_loop, clear_loop,
}
use kama_webserver.EventLoopThread.System.{
  Step, Steps, stays, steps, starts, passes, tests, destroys, quits, joins, identifies, posts,
  constructs, calls, publishes, enters, leaves, ends,
}
use kama_webserver.EventLoopThread.Handshake.{
  owner_rank, worker_rank, woken_lem, HasReturned, IsHandshake, init-IsHandshake, step-IsHandshake,
}

-- The most steps that are left.
unfoldable pub owner_left : Owner → ℕ
owner_left idle = 7
owner_left starting = 6
owner_left waiting = 5
owner_left asleep = 4
owner_left (returned p) = 3
owner_left destroying = 2
owner_left joining = 1
owner_left destroyed = 0

unfoldable pub worker_left : Worker → ℕ
worker_left absent = 10
worker_left created = 9
worker_left identified = 8
worker_left posted = 7
worker_left constructed = 6
worker_left initialised = 5
worker_left published = 3
worker_left looping = 2
worker_left left = 1
worker_left ended = 0

unfoldable pub steps_left : EventLoopThread → ℕ
steps_left s = owner_left s.owner + worker_left s.worker

seen-left : (l : Option ℕ) → owner_left (seen l) ≤ 4
unfolding seen owner_left
seen-left none = omega arith
seen-left (some p) = omega arith

chosen-left : (l : Option ℕ) → owner_left (chosen l) ≤ 2
unfolding chosen owner_left
chosen-left none = omega arith
chosen-left (some p) = omega arith

woken-left : (o : Owner) → owner_left (woken o) ≤ owner_left o + 1
unfolding woken owner_left
woken-left idle = omega arith
woken-left starting = omega arith
woken-left waiting = omega arith
woken-left asleep = omega arith
woken-left (returned p) = omega arith
woken-left destroying = omega arith
woken-left joining = omega arith
woken-left destroyed = omega arith

absent-left : (w : Worker) → worker_rank w ≡ 0 → worker_left w ≡ 10
unfolding worker_left worker_rank
absent-left absent e = refl
absent-left created e = absurd (omega arith)
absent-left identified e = absurd (omega arith)
absent-left posted e = absurd (omega arith)
absent-left constructed e = absurd (omega arith)
absent-left initialised e = absurd (omega arith)
absent-left published e = absurd (omega arith)
absent-left looping e = absurd (omega arith)
absent-left left e = absurd (omega arith)
absent-left ended e = absurd (omega arith)

step-left :
    {tid address : ℕ} {s t : EventLoopThread}
    → IsHandshake tid address s
    → Step tid address s t
    → steps_left t < steps_left s
unfolding steps_left owner_left worker_left owner_rank start pass_sem test_loop destroy
    quit_and_join join set_tid post_sem construct_loop call_back publish enter_loop leave_loop
    clear_loop
step-left v (starts s at) = ground (arith, at, absent-left s.worker (v.alone (ground (arith, at))))
step-left v (passes s n at e) = ground (arith, at)
step-left v (tests s at) = ground (arith, at, seen-left s.loop)
step-left v (destroys s p at) = ground (arith, at, chosen-left s.loop)
step-left v (quits s at e) = ground (arith, at)
step-left v (joins s at e) = ground (arith, at)
step-left v (identifies s at) = ground (arith, at)
step-left v (posts s at) = ground (arith, at)
step-left v (constructs s at) = ground (arith, at)
step-left v (calls s at) = ground (arith, at)
step-left v (publishes s at) = ground (arith, at, woken-left s.owner)
step-left v (enters s at) = ground (arith, at)
step-left v (leaves s at e) = ground (arith, at)
step-left v (ends s at) = ground (arith, at)

pub Steps-left :
    {tid address n : ℕ} {s t : EventLoopThread}
    → IsHandshake tid address s
    → Steps tid address n s t
    → IsHandshake tid address t × (n + steps_left t ≤ steps_left s)
Steps-left v (stays s) = (v, omega arith)
Steps-left v (steps r step) =
    let (w, fewer) = Steps-left v r in
    (step-IsHandshake _ _ step w, omega (arith, fewer, step-left w step))

-- The thread moves on until its loop runs.
worker_moves :
    (tid address : ℕ) (s : EventLoopThread) (w : Worker)
    → s.worker ≡ w
    → 1 ≤ worker_rank w
    → worker_rank w ≤ 6
    → (t : EventLoopThread) × Step tid address s t
unfolding worker_rank
worker_moves tid address s absent at lo hi = absurd (omega arith)
worker_moves tid address s created at lo hi = (set_tid tid s, identifies s at)
worker_moves tid address s identified at lo hi = (post_sem s, posts s at)
worker_moves tid address s posted at lo hi = (construct_loop s, constructs s at)
worker_moves tid address s constructed at lo hi = (call_back address s, calls s at)
worker_moves tid address s initialised at lo hi = (publish address s, publishes s at)
worker_moves tid address s published at lo hi = (enter_loop s, enters s at)
worker_moves tid address s looping at lo hi = absurd (omega arith)
worker_moves tid address s left at lo hi = absurd (omega arith)
worker_moves tid address s ended at lo hi = absurd (omega arith)

-- While the owner has not called `quit`, the loop goes on.
record IsUnquit (s : EventLoopThread) : Type 0 where
  pub clear : owner_rank s.owner ≤ 5 → s.quit ≡ false
  pub before : owner_rank s.owner ≤ 5 → worker_rank s.worker ≤ 7

seen-rank : (l : Option ℕ) → owner_rank (seen l) ≤ 5
unfolding seen owner_rank
seen-rank none = omega arith
seen-rank (some p) = omega arith

woken-rank : (o : Owner) → owner_rank (woken o) ≤ 5 → owner_rank o ≤ 5
unfolding woken owner_rank
woken-rank o h = elim (woken_lem o) [
  | inl (e, w) ↦ ground (arith, e)
  | inr (n, w) ↦ ground (arith, w, h)
]

step-IsUnquit :
    {tid address : ℕ} {s t : EventLoopThread} → Step tid address s t → IsUnquit s → IsUnquit t
unfolding owner_rank worker_rank start pass_sem test_loop destroy quit_and_join join set_tid
    post_sem construct_loop call_back publish enter_loop leave_loop clear_loop
step-IsUnquit (starts s at) q = ground (arith, at, q.clear)
step-IsUnquit (passes s n at e) q = ground (arith, at, q.clear, q.before)
step-IsUnquit (tests s at) q = ground (arith, at, q.clear, q.before)
step-IsUnquit (destroys s p at) q = ground (arith, at, q.clear, q.before)
step-IsUnquit (quits s at e) q = ground (arith, at, q.clear, q.before)
step-IsUnquit (joins s at e) q = ground (arith, at, q.clear, q.before)
step-IsUnquit (identifies s at) q = ground (arith, at, q.clear, q.before)
step-IsUnquit (posts s at) q = ground (arith, at, q.clear, q.before)
step-IsUnquit (constructs s at) q = ground (arith, at, q.clear, q.before)
step-IsUnquit (calls s at) q = ground (arith, at, q.clear, q.before)
step-IsUnquit (publishes s at) q = record {
  clear = λ h. q.clear (woken-rank s.owner h);
  before = λ h. omega arith;
}
step-IsUnquit (enters s at) q = ground (arith, at, q.clear, q.before)
step-IsUnquit (leaves s at e) q = ground (arith, at, e, q.clear, q.before)
step-IsUnquit (ends s at) q = ground (arith, at, q.clear, q.before)

Steps-IsUnquit :
    {tid address n : ℕ} {s t : EventLoopThread} → Steps tid address n s t → IsUnquit s → IsUnquit t
Steps-IsUnquit (stays s) q = q
Steps-IsUnquit (steps r step) q = step-IsUnquit step (Steps-IsUnquit r q)

init-IsUnquit : (callback : Bool) → IsUnquit (init callback)
unfolding init worker_rank
init-IsUnquit callback = record { clear = λ h. refl; before = λ h. omega arith }

-- Before the return of `startLoop`, one of the two can move.
moves :
    (tid address : ℕ) (s : EventLoopThread) (o : Owner)
    → s.owner ≡ o
    → owner_rank o < 4
    → IsHandshake tid address s
    → IsUnquit s
    → (t : EventLoopThread) × Step tid address s t
unfolding owner_rank
moves tid address s idle at h v q = (start s, starts s at)
moves tid address s waiting at h v q = (test_loop s, tests s at)
moves tid address s starting at h v q = elim (dec_lt (worker_rank s.worker) 3) [
  | yes before ↦
      worker_moves tid address s s.worker refl (v.begun (ground (arith, at)))
        (omega (arith, before))
  | no behind ↦ (pass_sem 0 s, passes s 0 at (ground (arith, at, v.sem)))
]
moves tid address s asleep at h v q =
    worker_moves tid address s s.worker refl (v.begun (ground (arith, at)))
      (ground (arith, at, v.sleeps, q.before))
moves tid address s (returned p) at h v q = absurd (omega arith)
moves tid address s destroying at h v q = absurd (omega arith)
moves tid address s joining at h v q = absurd (omega arith)
moves tid address s destroyed at h v q = absurd (omega arith)

-- While no functor quits the loop, the owner and the thread take at most 17 steps from the construction
-- on, in whichever order. Until `startLoop` has returned, one of them can take another; and what it
-- returned is the address of the thread's loop.
pub start_loop_ends :
    (tid address n : ℕ) (callback : Bool) (s : EventLoopThread)
    → Steps tid address n (init callback) s
    → (n ≤ 17)
      × HasReturned address s.owner
      × ((4 ≤ owner_rank s.owner) ⊎ ((t : EventLoopThread) × Step tid address s t))
unfolding init steps_left owner_left worker_left
start_loop_ends tid address n callback s r =
    let (v, fewer) = Steps-left (init-IsHandshake tid address callback) r in
    let q = Steps-IsUnquit r (init-IsUnquit callback) in
    (
      omega (arith, fewer),
      v.result,
      elim (dec_lt (owner_rank s.owner) 4) [
        | yes before ↦ inr (moves tid address s s.owner refl before v q)
        | no behind ↦ inl (omega (arith, behind))
      ],
    )
