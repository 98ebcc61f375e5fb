-- ===== src/EventLoopThread/Stopping.antt =====
-- src/EventLoopThread.cc, src/Thread.cc and `loop` and `quit` of src/EventLoop.cc: the destructor ends once
-- the loop runs, and does not end when it comes before.
use mathlib.Core.Path.{subst}
use kama_webserver.Prelude.{ℕ, ◌≤◌, ◌≡◌, refl, ap, ◌∙◌, some, ◌⊎◌, inl, inr, true, false, arith}
use kama_webserver.EventLoopThread.{
  EventLoopThread, Owner, Worker, idle, starting, waiting, asleep, returned, destroying, joining,
  destroyed, absent, created, identified, posted, constructed, initialised, published, looping,
  left, ended, chosen, destroy, quit_and_join, quit_loop, join, enter_loop, leave_loop, clear_loop,
}
use kama_webserver.EventLoopThread.System.{
  Step, Steps, stays, steps, Run, starts, passes, tests, destroys, quits, joins, identifies, posts,
  constructs, calls, publishes, enters, leaves, ends,
}
use kama_webserver.EventLoopThread.Handshake.{
  owner_rank, worker_rank, loop_at, Run-IsHandshake, step-IsHandshake,
}
use kama_webserver.EventLoopThread.Starting.{owner_left, worker_left, steps_left, Steps-left}

-- The owner has called `quit` with the loop running.
record IsStopping (s : EventLoopThread) : Type 0 where
  pub called_quit : 6 ≤ owner_rank s.owner
  pub running : 7 ≤ worker_rank s.worker
  pub seen : s.quit ≡ true

step-IsStopping :
    {tid address : ℕ} {s t : EventLoopThread} → Step tid address s t → IsStopping s → IsStopping t
unfolding owner_rank worker_rank join leave_loop clear_loop
step-IsStopping (starts s at) q = absurd (ground (arith, at, q.called_quit))
step-IsStopping (passes s n at e) q = absurd (ground (arith, at, q.called_quit))
step-IsStopping (tests s at) q = absurd (ground (arith, at, q.called_quit))
step-IsStopping (destroys s p at) q = absurd (ground (arith, at, q.called_quit))
step-IsStopping (quits s at e) q = absurd (ground (arith, at, q.called_quit))
step-IsStopping (joins s at e) q = ground (arith, at, q.called_quit, q.running, q.seen)
step-IsStopping (identifies s at) q = absurd (ground (arith, at, q.running))
step-IsStopping (posts s at) q = absurd (ground (arith, at, q.running))
step-IsStopping (constructs s at) q = absurd (ground (arith, at, q.running))
step-IsStopping (calls s at) q = absurd (ground (arith, at, q.running))
step-IsStopping (publishes s at) q = absurd (ground (arith, at, q.running))
step-IsStopping (enters s at) q = absurd (ground (arith, at, q.running))
step-IsStopping (leaves s at e) q = ground (arith, at, q.called_quit, q.running, q.seen)
step-IsStopping (ends s at) q = ground (arith, at, q.called_quit, q.running, q.seen)

Steps-IsStopping :
    {tid address n : ℕ} {s t : EventLoopThread}
    → Steps tid address n s t
    → IsStopping s
    → IsStopping t
Steps-IsStopping (stays s) q = q
Steps-IsStopping (steps r step) q = step-IsStopping step (Steps-IsStopping r q)

-- With the owner in `join`, the thread moves on until the owner can.
join_moves :
    (tid address : ℕ) (s : EventLoopThread) (w : Worker)
    → s.worker ≡ w
    → s.owner ≡ joining
    → 7 ≤ worker_rank w
    → s.quit ≡ true
    → (t : EventLoopThread) × Step tid address s t
unfolding worker_rank
join_moves tid address s absent at o h e = absurd (omega arith)
join_moves tid address s created at o h e = absurd (omega arith)
join_moves tid address s identified at o h e = absurd (omega arith)
join_moves tid address s posted at o h e = absurd (omega arith)
join_moves tid address s constructed at o h e = absurd (omega arith)
join_moves tid address s initialised at o h e = absurd (omega arith)
join_moves tid address s published at o h e = absurd (omega arith)
join_moves tid address s looping at o h e = (leave_loop s, leaves s at e)
join_moves tid address s left at o h e = (clear_loop s, ends s at)
join_moves tid address s ended at o h e = (join s, joins s o at)

stopping_moves :
    (tid address : ℕ) (s : EventLoopThread) (o : Owner)
    → s.owner ≡ o
    → IsStopping s
    → (o ≡ destroyed) ⊎ ((t : EventLoopThread) × Step tid address s t)
unfolding owner_rank
stopping_moves tid address s idle at q = absurd (ground (arith, at, q.called_quit))
stopping_moves tid address s starting at q = absurd (ground (arith, at, q.called_quit))
stopping_moves tid address s waiting at q = absurd (ground (arith, at, q.called_quit))
stopping_moves tid address s asleep at q = absurd (ground (arith, at, q.called_quit))
stopping_moves tid address s (returned p) at q = absurd (ground (arith, at, q.called_quit))
stopping_moves tid address s destroying at q = absurd (ground (arith, at, q.called_quit))
stopping_moves tid address s joining at q =
    inr (join_moves tid address s s.worker refl at q.running q.seen)
stopping_moves tid address s destroyed at q = inl refl

looping-left : (w : Worker) → 7 ≤ worker_rank w → worker_left w ≤ 2
unfolding worker_rank worker_left
looping-left absent h = absurd (omega arith)
looping-left created h = absurd (omega arith)
looping-left identified h = absurd (omega arith)
looping-left posted h = absurd (omega arith)
looping-left constructed h = absurd (omega arith)
looping-left initialised h = absurd (omega arith)
looping-left published h = absurd (omega arith)
looping-left looping h = omega arith
looping-left left h = omega arith
looping-left ended h = omega arith

quit_loop-some : (s r : EventLoopThread) → quit_loop s ≡ some r → r ≡ quit_and_join s
unfolding quit_loop
quit_loop-some s r called = ground (arith, called)

-- If the destructor of a reachable state finds `loop_` set when it reads it again for `quit`, and the
-- thread has entered its loop, then owner and thread take at most three steps after the call, in
-- whichever order, and until the destructor has joined the thread, one of them can take another.
pub quit_loop_ends :
    (tid address n : ℕ) (s r t : EventLoopThread)
    → Run tid address s
    → s.owner ≡ destroying
    → quit_loop s ≡ some r
    → 7 ≤ worker_rank s.worker
    → Steps tid address n r t
    → (n ≤ 3) × ((t.owner ≡ destroyed) ⊎ ((u : EventLoopThread) × Step tid address t u))
unfolding quit_and_join steps_left owner_left owner_rank
quit_loop_ends tid address n s r t reached at called looped after =
    let same = quit_loop-some s r called in
    let set = called ∙ ap some same in
    let run = subst (λ x. Steps tid address n x t) same after in
    let v = step-IsHandshake tid address (quits s at set) (Run-IsHandshake tid address reached) in
    let (w, fewer) = Steps-left v run in
    let q =
      Steps-IsStopping run (record { called_quit = omega arith; running = looped; seen = refl }) in
    (
      omega (arith, fewer, looping-left s.worker looped),
      stopping_moves tid address t t.owner refl q,
    )

-- With a published loop the call goes through.
set_loop-quit :
    (s : EventLoopThread) (address : ℕ)
    → s.loop ≡ loop_at address (worker_rank s.worker)
    → s.worker ≡ published
    → quit_loop s ≡ some (quit_and_join s)
unfolding quit_loop loop_at worker_rank
set_loop-quit s address pointer w = ground (arith, pointer, w)

-- A destructor that waits for a loop whose `quit_` is clear waits on.
waits_on :
    {tid address : ℕ} {s t : EventLoopThread}
    → s.owner ≡ joining
    → s.worker ≡ looping
    → s.quit ≡ false
    → Step tid address s t
    → ⊥
unfolding owner_rank worker_rank
waits_on o w q (starts s at) = ground (arith, o, w, q, at)
waits_on o w q (passes s n at e) = ground (arith, o, w, q, at)
waits_on o w q (tests s at) = ground (arith, o, w, q, at)
waits_on o w q (destroys s p at) = ground (arith, o, w, q, at)
waits_on o w q (quits s at e) = ground (arith, o, w, q, at)
waits_on o w q (joins s at e) = ground (arith, o, w, q, at, e)
waits_on o w q (identifies s at) = ground (arith, o, w, q, at)
waits_on o w q (posts s at) = ground (arith, o, w, q, at)
waits_on o w q (constructs s at) = ground (arith, o, w, q, at)
waits_on o w q (calls s at) = ground (arith, o, w, q, at)
waits_on o w q (publishes s at) = ground (arith, o, w, q, at)
waits_on o w q (enters s at) = ground (arith, o, w, q, at)
waits_on o w q (leaves s at e) = ground (arith, o, w, q, at, e)
waits_on o w q (ends s at) = ground (arith, o, w, q, at)

-- If `startLoop` of a reachable state has returned and the thread has published its loop but not
-- entered it, then the destructor can test `loop_` and call `quit` first. The loop then clears `quit_`,
-- the destructor is in `join`, and neither of the two ever takes a step again.
pub quit_lost :
    (tid address p : ℕ) (s : EventLoopThread)
    → Run tid address s
    → s.owner ≡ returned p
    → s.worker ≡ published
    → (t : EventLoopThread) × Steps tid address 3 s t
      × (t.owner ≡ joining)
      × (t.worker ≡ looping)
      × ((u : EventLoopThread) → Step tid address t u → ⊥)
unfolding destroy chosen quit_and_join enter_loop loop_at worker_rank
quit_lost tid address p s reached at w =
    let v = Run-IsHandshake tid address reached in
    let testing : (destroy s).owner ≡ destroying = ground (arith, v.pointer, w) in
    (
      enter_loop (quit_and_join (destroy s)),
      steps
          (steps (steps (stays s) (destroys s p at))
            (quits (destroy s) testing (set_loop-quit (destroy s) address v.pointer w)))
          (enters (quit_and_join (destroy s)) w),
      refl,
      refl,
      λ u step. waits_on refl refl refl step,
    )
