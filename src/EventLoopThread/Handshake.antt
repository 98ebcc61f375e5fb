-- ===== src/EventLoopThread/Handshake.antt =====
-- src/EventLoopThread.cc and src/Thread.cc: what `startLoop` returns.
use kama_webserver.Prelude.{
  ℕ, suc, ◌≤◌, ◌<◌, ◌≡◌, refl, ◌⊎◌, inl, inr, Bool, true, ◌&&◌, Option, none, some, [], ◌∷◌, ltb,
  leb, if◌then◌else◌, arith,
}
use kama_webserver.EventLoopThread.{
  EventLoopThread, Owner, Worker, idle, starting, waiting, asleep, returned, destroying, joining,
  destroyed, absent, created, identified, posted, constructed, initialised, published, looping,
  left, ended, init, start, pass_sem, seen, test_loop, chosen, destroy, quit_and_join, join,
  set_tid, post_sem, construct_loop, call_back, woken, publish, enter_loop, quit_itself, leave_loop,
  clear_loop,
}
use kama_webserver.EventLoopThread.System.{
  Step, Run, starts, passes, tests, destroys, quits, joins, identifies, posts, constructs, calls,
  publishes, enters, leaves, ends, creates, runs, functor_quits,
}

-- How far each has come.
unfoldable pub owner_rank : Owner → ℕ
owner_rank idle = 0
owner_rank starting = 1
owner_rank waiting = 2
owner_rank asleep = 3
owner_rank (returned p) = 4
owner_rank destroying = 5
owner_rank joining = 6
owner_rank destroyed = 7

unfoldable pub worker_rank : Worker → ℕ
worker_rank absent = 0
worker_rank created = 1
worker_rank identified = 2
worker_rank posted = 3
worker_rank constructed = 4
worker_rank initialised = 5
worker_rank published = 6
worker_rank looping = 7
worker_rank left = 8
worker_rank ended = 9

-- What `startLoop` may have returned.
unfoldable pub HasReturned : ℕ → Owner → Type 0
HasReturned address idle = Unit
HasReturned address starting = Unit
HasReturned address waiting = Unit
HasReturned address asleep = Unit
HasReturned address (returned p) = p ≡ address
HasReturned address destroying = Unit
HasReturned address joining = Unit
HasReturned address destroyed = Unit

unfoldable pub loop_at : ℕ → ℕ → Option ℕ
loop_at address rank = if ltb rank 6 then none else if ltb rank 9 then some address else none

pub record IsHandshake (tid address : ℕ) (s : EventLoopThread) : Type 0 where
  pub named : 2 ≤ worker_rank s.worker → s.tid ≡ tid
  pub alone : owner_rank s.owner ≡ 0 → worker_rank s.worker ≡ 0
  pub begun : 1 ≤ owner_rank s.owner → 1 ≤ worker_rank s.worker
  pub sem : owner_rank s.owner ≤ 1 → s.sem ≡ (if ltb (worker_rank s.worker) 3 then 0 else 1)
  pub passed : 2 ≤ owner_rank s.owner → 3 ≤ worker_rank s.worker
  pub pointer : s.loop ≡ loop_at address (worker_rank s.worker)
  pub called : s.called ≡ (if s.callback && leb 5 (worker_rank s.worker) then address ∷ [] else [])
  pub sleeps : owner_rank s.owner ≡ 3 → (worker_rank s.worker < 6) ⊎ (worker_rank s.worker ≡ 9)
  pub behind : 4 ≤ owner_rank s.owner → 6 ≤ worker_rank s.worker
  pub result : HasReturned address s.owner

pub init-IsHandshake : (tid address : ℕ) (callback : Bool) → IsHandshake tid address (init callback)
unfolding init owner_rank worker_rank HasReturned loop_at
init-IsHandshake tid address callback = record {
  named = λ h. absurd (omega arith);
  alone = λ h. refl;
  begun = λ h. absurd (omega arith);
  sem = λ h. refl;
  passed = λ h. absurd (omega arith);
  pointer = refl;
  called = ground arith;
  sleeps = λ h. absurd (omega arith);
  behind = λ h. absurd (omega arith);
  result = tt;
}

module _ (tid address : ℕ) (s : EventLoopThread) (a : IsHandshake tid address s) where
  start-IsHandshake : s.owner ≡ idle → IsHandshake tid address (start s)
  unfolding start owner_rank worker_rank HasReturned loop_at
  start-IsHandshake at = ground (
    arith, at, a.named, a.alone, a.begun, a.sem, a.passed, a.pointer, a.called, a.sleeps, a.behind,
    a.result,
  )

  pass-IsHandshake :
      (n : ℕ) → s.owner ≡ starting → s.sem ≡ suc n → IsHandshake tid address (pass_sem n s)
  unfolding pass_sem owner_rank worker_rank HasReturned loop_at
  pass-IsHandshake n at e = ground (
    arith, at, e, a.named, a.alone, a.begun, a.sem, a.passed, a.pointer, a.called, a.sleeps,
    a.behind, a.result,
  )

  test-IsHandshake : s.owner ≡ waiting → IsHandshake tid address (test_loop s)
  unfolding test_loop owner_rank worker_rank HasReturned loop_at seen
  test-IsHandshake at = ground (
    arith, at, a.named, a.alone, a.begun, a.sem, a.passed, a.pointer, a.called, a.sleeps, a.behind,
    a.result,
  )

  destroy-IsHandshake : (p : ℕ) → s.owner ≡ returned p → IsHandshake tid address (destroy s)
  unfolding destroy owner_rank worker_rank HasReturned loop_at chosen
  destroy-IsHandshake p at = ground (
    arith, at, a.named, a.alone, a.begun, a.sem, a.passed, a.pointer, a.called, a.sleeps, a.behind,
    a.result,
  )

  quit-IsHandshake : s.owner ≡ destroying → IsHandshake tid address (quit_and_join s)
  unfolding quit_and_join owner_rank worker_rank HasReturned loop_at
  quit-IsHandshake at = ground (
    arith, at, a.named, a.alone, a.begun, a.sem, a.passed, a.pointer, a.called, a.sleeps, a.behind,
    a.result,
  )

  join-IsHandshake : s.owner ≡ joining → s.worker ≡ ended → IsHandshake tid address (join s)
  unfolding join owner_rank worker_rank HasReturned loop_at
  join-IsHandshake at e = ground (
    arith, at, e, a.named, a.alone, a.begun, a.sem, a.passed, a.pointer, a.called, a.sleeps,
    a.behind, a.result,
  )

  set_tid-IsHandshake : s.worker ≡ created → IsHandshake tid address (set_tid tid s)
  unfolding set_tid owner_rank worker_rank HasReturned loop_at
  set_tid-IsHandshake at = ground (
    arith, at, a.named, a.alone, a.begun, a.sem, a.passed, a.pointer, a.called, a.sleeps, a.behind,
    a.result,
  )

  post-IsHandshake : s.worker ≡ identified → IsHandshake tid address (post_sem s)
  unfolding post_sem owner_rank worker_rank HasReturned loop_at
  post-IsHandshake at = ground (
    arith, at, a.named, a.alone, a.begun, a.sem, a.passed, a.pointer, a.called, a.sleeps, a.behind,
    a.result,
  )

  construct-IsHandshake : s.worker ≡ posted → IsHandshake tid address (construct_loop s)
  unfolding construct_loop owner_rank worker_rank HasReturned loop_at
  construct-IsHandshake at = ground (
    arith, at, a.named, a.alone, a.begun, a.sem, a.passed, a.pointer, a.called, a.sleeps, a.behind,
    a.result,
  )

  call_back-IsHandshake : s.worker ≡ constructed → IsHandshake tid address (call_back address s)
  unfolding call_back owner_rank worker_rank HasReturned loop_at
  call_back-IsHandshake at = ground (
    arith, at, a.named, a.alone, a.begun, a.sem, a.passed, a.pointer, a.called, a.sleeps, a.behind,
    a.result,
  )

  enter-IsHandshake : s.worker ≡ published → IsHandshake tid address (enter_loop s)
  unfolding enter_loop owner_rank worker_rank HasReturned loop_at
  enter-IsHandshake at = ground (
    arith, at, a.named, a.alone, a.begun, a.sem, a.passed, a.pointer, a.called, a.sleeps, a.behind,
    a.result,
  )

  quit_itself-IsHandshake : s.worker ≡ looping → IsHandshake tid address (quit_itself s)
  unfolding quit_itself owner_rank worker_rank HasReturned loop_at
  quit_itself-IsHandshake at = ground (
    arith, at, a.named, a.alone, a.begun, a.sem, a.passed, a.pointer, a.called, a.sleeps, a.behind,
    a.result,
  )

  leave-IsHandshake : s.worker ≡ looping → s.quit ≡ true → IsHandshake tid address (leave_loop s)
  unfolding leave_loop owner_rank worker_rank HasReturned loop_at
  leave-IsHandshake at e = ground (
    arith, at, e, a.named, a.alone, a.begun, a.sem, a.passed, a.pointer, a.called, a.sleeps,
    a.behind, a.result,
  )

  clear-IsHandshake : s.worker ≡ left → IsHandshake tid address (clear_loop s)
  unfolding clear_loop owner_rank worker_rank HasReturned loop_at
  clear-IsHandshake at = ground (
    arith, at, a.named, a.alone, a.begun, a.sem, a.passed, a.pointer, a.called, a.sleeps, a.behind,
    a.result,
  )

-- A sleeper is woken, and no other owner changes.
pub woken_lem :
    (o : Owner) → ((o ≡ asleep) × (woken o ≡ waiting)) ⊎ ((owner_rank o ≡ 3 → ⊥) × (woken o ≡ o))
unfolding woken owner_rank
woken_lem idle = inr (λ h. omega arith, refl)
woken_lem starting = inr (λ h. omega arith, refl)
woken_lem waiting = inr (λ h. omega arith, refl)
woken_lem asleep = inl (refl, refl)
woken_lem (returned p) = inr (λ h. omega arith, refl)
woken_lem destroying = inr (λ h. omega arith, refl)
woken_lem joining = inr (λ h. omega arith, refl)
woken_lem destroyed = inr (λ h. omega arith, refl)

publish-IsHandshake :
    (tid address : ℕ) (s : EventLoopThread)
    → s.worker ≡ initialised
    → IsHandshake tid address s
    → IsHandshake tid address (publish address s)
unfolding publish owner_rank worker_rank HasReturned loop_at
publish-IsHandshake tid address s at a = elim (woken_lem s.owner) [
  | inl (slept, wakes) ↦
      ground (arith, at, slept, wakes, a.named, a.called, a.begun, a.passed, a.sem)
  | inr (awake, same) ↦ record {
    named = λ h. ground (arith, at, a.named);
    alone = λ h. ground (arith, at, same, a.alone);
    begun = λ h. omega arith;
    sem = λ h. ground (arith, at, same, a.sem);
    passed = λ h. omega arith;
    pointer = refl;
    called = ground (arith, at, a.called);
    sleeps = λ h. absurd (awake (ground (arith, same)));
    behind = λ h. omega arith;
    result = rw same a.result;
  }
]

-- Every step keeps it.
pub step-IsHandshake :
    (tid address : ℕ) {s t : EventLoopThread}
    → Step tid address s t
    → IsHandshake tid address s
    → IsHandshake tid address t
step-IsHandshake tid address (starts s at) v = start-IsHandshake tid address s v at
step-IsHandshake tid address (passes s n at e) v = pass-IsHandshake tid address s v n at e
step-IsHandshake tid address (tests s at) v = test-IsHandshake tid address s v at
step-IsHandshake tid address (destroys s p at) v = destroy-IsHandshake tid address s v p at
step-IsHandshake tid address (quits s at e) v = quit-IsHandshake tid address s v at
step-IsHandshake tid address (joins s at e) v = join-IsHandshake tid address s v at e
step-IsHandshake tid address (identifies s at) v = set_tid-IsHandshake tid address s v at
step-IsHandshake tid address (posts s at) v = post-IsHandshake tid address s v at
step-IsHandshake tid address (constructs s at) v = construct-IsHandshake tid address s v at
step-IsHandshake tid address (calls s at) v = call_back-IsHandshake tid address s v at
step-IsHandshake tid address (enters s at) v = enter-IsHandshake tid address s v at
step-IsHandshake tid address (leaves s at e) v = leave-IsHandshake tid address s v at e
step-IsHandshake tid address (ends s at) v = clear-IsHandshake tid address s v at
step-IsHandshake tid address (publishes s at) v = publish-IsHandshake tid address s at v

-- In every state that can come about, `startLoop` has returned only the address of the thread's loop,
-- behind its publishing and so behind the callback, which ran once with that address if there is one;
-- behind `Thread::start` the id is that of the thread; and the owner is asleep only before the loop is
-- published or when it has ended.
pub Run-IsHandshake :
    (tid address : ℕ) {s : EventLoopThread} → Run tid address s → IsHandshake tid address s
Run-IsHandshake tid address (creates callback) = init-IsHandshake tid address callback
Run-IsHandshake tid address (functor_quits {s} r at) =
    quit_itself-IsHandshake tid address s (Run-IsHandshake tid address r) at
Run-IsHandshake tid address (runs r step) =
    step-IsHandshake tid address step (Run-IsHandshake tid address r)
