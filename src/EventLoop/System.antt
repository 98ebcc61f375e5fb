-- ===== src/EventLoop/System.antt =====
-- src/EventLoop.cc: the steps of the loop's thread and of the others, in any order.
use kama_webserver.Prelude.{ℕ, suc, ◌≡◌, true, false, List, [], ◌∷◌}
use kama_webserver.EventLoop.{
  EventLoop, waiting, handling, running, loop, wakeup, queue_in_loop, quit, handle_read,
  swap_pending, run_functor, finish_round,
}

pub data Step : EventLoop → EventLoop → Type 0 where
  queues : (l : EventLoop) (cb : ℕ) → Step l (queue_in_loop false cb l)
  quits : (l : EventLoop) → Step l (quit false l)
  wakes : (l : EventLoop) (n : ℕ) → l.wakers ≡ suc n → Step l (wakeup (record l { wakers = n }))
  polls : (l : EventLoop) → l.phase ≡ waiting → Step l (record l { phase = handling })
  reads : (l : EventLoop) → l.phase ≡ handling → Step l (handle_read l)
  handler_queues : (l : EventLoop) (cb : ℕ) → l.phase ≡ handling → Step l (queue_in_loop true cb l)
  handler_quits : (l : EventLoop) → l.phase ≡ handling → Step l (quit true l)
  swaps : (l : EventLoop) → l.phase ≡ handling → Step l (swap_pending l)
  runs :
      (l : EventLoop) (cb : ℕ) (functors : List ℕ)
      → l.phase ≡ running (cb ∷ functors)
      → Step l (run_functor cb functors l)
  functor_queues :
      (l : EventLoop) (cb : ℕ) (functors : List ℕ)
      → l.phase ≡ running functors
      → Step l (queue_in_loop true cb l)
  functor_quits :
      (l : EventLoop) (functors : List ℕ) → l.phase ≡ running functors → Step l (quit true l)
  finishes : (l : EventLoop) → l.phase ≡ running [] → Step l (finish_round l)

pub data Run : EventLoop → Type 0 where
  starts : Run loop
  steps : {l m : EventLoop} → Run l → Step l m → Run m
