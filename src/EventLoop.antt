-- ===== src/EventLoop.antt =====
-- src/EventLoop.cc: the loop of a thread, its queue of functors and the eventfd that wakes it.
-- A functor is a number. Of the poller, only the return of `poll` is seen.
pub mod System
pub mod Waking
pub mod Timers
mod Tests
use kama_webserver.Prelude.{
  ℕ, zero, suc, ◌+◌, Bool, true, false, not, ◌||◌, Option, none, some, List, [], ◌∷◌, ◌++◌,
  if◌then◌else◌,
}

-- Where the loop's thread stands: in `poll`, in the handlers of the active channels, or in
-- `doPendingFunctors` with the functors left to run.
pub data Phase : Type 0 where
  waiting : Phase
  handling : Phase
  running : List ℕ → Phase
  stopped : Phase

-- `wakeups` is the counter of the eventfd, `wakers` counts the threads that still have to write it.
-- `queued` and `executed` are all functors so far, in order.
pub record EventLoop : Type 0 where
  pub phase : Phase
  pub quit : Bool
  pub calling_pending_functors : Bool
  pub pending_functors : List ℕ
  pub wakeups : ℕ
  pub wakers : ℕ
  pub queued : List ℕ
  pub executed : List ℕ

-- `loop()` at its first `poll`, with an empty queue.
pub loop : EventLoop
loop = record {
  phase = waiting;
  quit = false;
  calling_pending_functors = false;
  pending_functors = [];
  wakeups = 0;
  wakers = 0;
  queued = [];
  executed = [];
}

abbrev pub push : ℕ → EventLoop → EventLoop
push cb l = record l {
  pending_functors = l.pending_functors ++ cb ∷ [];
  queued = l.queued ++ cb ∷ [];
}

-- The thread itself writes the eventfd at once; for another thread that is a step of its own.
pub wakeup : EventLoop → EventLoop
wakeup l = record l { wakeups = l.wakeups + 1 }

abbrev pub will_wake : EventLoop → EventLoop
will_wake l = record l { wakers = l.wakers + 1 }

pub queue_in_loop : Bool → ℕ → EventLoop → EventLoop
unfolding wakeup
queue_in_loop is_in_loop_thread cb l =
    if is_in_loop_thread
    then if l.calling_pending_functors then wakeup (push cb l) else push cb l
    else will_wake (push cb l)

pub quit : Bool → EventLoop → EventLoop
quit is_in_loop_thread l =
    if is_in_loop_thread then record l { quit = true } else will_wake (record l { quit = true })

-- A read of the eventfd sets its counter to 0.
pub handle_read : EventLoop → EventLoop
handle_read l = record l { wakeups = 0 }

pub swap_pending : EventLoop → EventLoop
swap_pending l = record l {
  phase = running l.pending_functors;
  pending_functors = [];
  calling_pending_functors = true;
}

pub run_functor : ℕ → List ℕ → EventLoop → EventLoop
run_functor cb functors l = record l { phase = running functors; executed = l.executed ++ cb ∷ [] }

-- The end of `doPendingFunctors` and the test of the loop.
pub finish_round : EventLoop → EventLoop
finish_round l = record l {
  calling_pending_functors = false;
  phase = if l.quit then stopped else waiting;
}
