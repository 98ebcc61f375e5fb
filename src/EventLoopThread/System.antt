-- ===== src/EventLoopThread/System.antt =====
-- src/EventLoopThread.cc and src/Thread.cc: the steps of the owner and of the thread, in any order.
use kama_webserver.Prelude.{ℕ, suc, ◌≡◌, Bool, true, some}
use kama_webserver.EventLoopThread.{
  EventLoopThread, idle, starting, waiting, returned, destroying, joining, created, identified,
  posted, constructed, initialised, published, looping, left, ended, init, start, pass_sem,
  test_loop, destroy, quit_and_join, quit_loop, join, set_tid, post_sem, construct_loop, call_back,
  publish, enter_loop, quit_itself, leave_loop, clear_loop,
}

-- The thread's id is `tid`, and its loop stands at `address`.
pub data Step (tid address : ℕ) : EventLoopThread → EventLoopThread → Type 0 where
  starts : (s : EventLoopThread) → s.owner ≡ idle → Step tid address s (start s)
  passes :
      (s : EventLoopThread) (n : ℕ)
      → s.owner ≡ starting
      → s.sem ≡ suc n
      → Step tid address s (pass_sem n s)
  tests : (s : EventLoopThread) → s.owner ≡ waiting → Step tid address s (test_loop s)
  destroys : (s : EventLoopThread) (p : ℕ) → s.owner ≡ returned p → Step tid address s (destroy s)
  quits :
      (s : EventLoopThread)
      → s.owner ≡ destroying
      → quit_loop s ≡ some (quit_and_join s)
      → Step tid address s (quit_and_join s)
  joins : (s : EventLoopThread) → s.owner ≡ joining → s.worker ≡ ended → Step tid address s (join s)
  identifies : (s : EventLoopThread) → s.worker ≡ created → Step tid address s (set_tid tid s)
  posts : (s : EventLoopThread) → s.worker ≡ identified → Step tid address s (post_sem s)
  constructs : (s : EventLoopThread) → s.worker ≡ posted → Step tid address s (construct_loop s)
  calls : (s : EventLoopThread) → s.worker ≡ constructed → Step tid address s (call_back address s)
  publishes :
      (s : EventLoopThread) → s.worker ≡ initialised → Step tid address s (publish address s)
  enters : (s : EventLoopThread) → s.worker ≡ published → Step tid address s (enter_loop s)
  leaves :
      (s : EventLoopThread) → s.worker ≡ looping → s.quit ≡ true → Step tid address s (leave_loop s)
  ends : (s : EventLoopThread) → s.worker ≡ left → Step tid address s (clear_loop s)

-- Steps of the two, in which no functor quits the loop.
pub data Steps (tid address : ℕ) : ℕ → EventLoopThread → EventLoopThread → Type 0 where
  stays : (s : EventLoopThread) → Steps tid address 0 s s
  steps :
      {n : ℕ} {s t u : EventLoopThread}
      → Steps tid address n s t
      → Step tid address t u
      → Steps tid address (suc n) s u

-- The states that can come about; here functors may quit the loop too.
pub data Run (tid address : ℕ) : EventLoopThread → Type 0 where
  creates : (callback : Bool) → Run tid address (init callback)
  runs : {s t : EventLoopThread} → Run tid address s → Step tid address s t → Run tid address t
  functor_quits :
      {s : EventLoopThread}
      → Run tid address s
      → s.worker ≡ looping
      → Run tid address (quit_itself s)
