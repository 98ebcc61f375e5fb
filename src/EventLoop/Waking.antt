-- ===== src/EventLoop/Waking.antt =====
-- src/EventLoop.cc: no functor is lost, reordered or left waiting.
use mathlib.Core.List.{append_assoc, append-nil}
use kama_webserver.Prelude.{
  ℕ, suc, ◌+◌, ◌<◌, ◌≡◌, refl, sym, ap, ◌∙◌, Bool, true, false, List, [], ◌∷◌, ◌++◌, length, arith,
}
use kama_webserver.EventLoop.{
  EventLoop, Phase, waiting, handling, running, stopped, loop, wakeup, queue_in_loop, quit,
  handle_read, swap_pending, run_functor, finish_round,
}
use kama_webserver.EventLoop.System.{
  Step, Run, queues, quits, wakes, polls, reads, handler_queues, handler_quits, swaps, runs,
  functor_queues, functor_quits, finishes, starts, steps,
}

-- The functors that the thread has taken out and not run.
pub left : Phase → List ℕ
left waiting = []
left handling = []
left (running functors) = functors
left stopped = []

pub is_running : Phase → Bool
is_running waiting = false
is_running handling = false
is_running (running functors) = true
is_running stopped = false

pub is_handling : Phase → Bool
is_handling waiting = false
is_handling handling = true
is_handling (running functors) = false
is_handling stopped = false

pub is_waiting : Phase → Bool
is_waiting waiting = true
is_waiting handling = false
is_waiting (running functors) = false
is_waiting stopped = false

pub record IsAwake (l : EventLoop) : Type 0 where
  pub in_order : (l.executed ++ left l.phase) ++ l.pending_functors ≡ l.queued
  pub calling : l.calling_pending_functors ≡ is_running l.phase
  pub woken : is_handling l.phase ≡ false → 0 < length l.pending_functors → 0 < l.wakeups + l.wakers
  pub quitting : is_waiting l.phase ≡ true → l.quit ≡ true → 0 < l.wakeups + l.wakers

pushed-in_order :
    (l : EventLoop) (cb : ℕ)
    → IsAwake l
    → (l.executed ++ left l.phase) ++ (l.pending_functors ++ cb ∷ []) ≡ l.queued ++ cb ∷ []
pushed-in_order l cb a =
    sym (append_assoc (l.executed ++ left l.phase) l.pending_functors (cb ∷ []))
    ∙ ap (λ q. q ++ cb ∷ []) a.in_order

queue-IsAwake :
    (b : Bool) (cb : ℕ) (l : EventLoop)
    → (b ≡ true → is_waiting l.phase ≡ false)
    → (b ≡ true → is_handling l.phase ≡ false → is_running l.phase ≡ true)
    → IsAwake l
    → IsAwake (queue_in_loop b cb l)
unfolding queue_in_loop wakeup
queue-IsAwake true cb l here busy a = record {
  in_order = ground (arith, pushed-in_order l cb a);
  calling = ground (arith, a.calling);
  woken = λ h some_left. ground (arith, h, busy refl, a.calling);
  quitting = λ h q. absurd (ground (arith, here refl, h));
}
queue-IsAwake false cb l here busy a = record {
  in_order = pushed-in_order l cb a;
  calling = a.calling;
  woken = λ h some_left. omega arith;
  quitting = λ h q. omega arith;
}

quit-IsAwake :
    (b : Bool) (l : EventLoop)
    → (b ≡ true → is_waiting l.phase ≡ false)
    → IsAwake l
    → IsAwake (quit b l)
unfolding quit
quit-IsAwake true l here a = record {
  in_order = a.in_order;
  calling = a.calling;
  woken = a.woken;
  quitting = λ h q. absurd (ground (arith, here refl, h));
}
quit-IsAwake false l here a = record {
  in_order = a.in_order;
  calling = a.calling;
  woken = λ h some_left. omega arith;
  quitting = λ h q. omega arith;
}

swap-IsAwake : (l : EventLoop) → l.phase ≡ handling → IsAwake l → IsAwake (swap_pending l)
unfolding swap_pending left is_running is_waiting
swap-IsAwake l at a = record {
  in_order =
      append-nil _
      ∙ ap (λ q. q ++ l.pending_functors)
          (sym (append-nil l.executed) ∙ ap (λ p. l.executed ++ left p) (sym at))
      ∙ a.in_order;
  calling = refl;
  woken = λ h some_left. absurd (omega arith);
  quitting = λ h q. absurd (ground (arith, h));
}

run-IsAwake :
    (l : EventLoop) (cb : ℕ) (functors : List ℕ)
    → l.phase ≡ running (cb ∷ functors)
    → IsAwake l
    → IsAwake (run_functor cb functors l)
unfolding run_functor left is_running is_waiting is_handling
run-IsAwake l cb functors at a = record {
  in_order =
      ap (λ q. q ++ l.pending_functors)
        (append_assoc l.executed (cb ∷ []) functors ∙ ap (λ p. l.executed ++ left p) (sym at))
      ∙ a.in_order;
  calling = a.calling ∙ ap is_running at;
  woken = λ h. a.woken (ap is_handling at);
  quitting = λ h q. absurd (ground (arith, h));
}

finish-IsAwake : (l : EventLoop) → l.phase ≡ running [] → IsAwake l → IsAwake (finish_round l)
unfolding finish_round left is_running is_waiting is_handling
finish-IsAwake l at a = record {
  in_order = ground (arith, a.in_order, at);
  calling = ground arith;
  woken = λ h. a.woken (ap is_handling at);
  quitting = λ h q. absurd (ground (arith, h, q));
}

poll-IsAwake :
    (l : EventLoop) → l.phase ≡ waiting → IsAwake l → IsAwake (record l { phase = handling })
unfolding left is_running is_waiting is_handling
poll-IsAwake l at a = record {
  in_order = ap (λ p. (l.executed ++ left p) ++ l.pending_functors) (sym at) ∙ a.in_order;
  calling = a.calling ∙ ap is_running at;
  woken = λ h some_left. absurd (ground (arith, h));
  quitting = λ h q. absurd (ground (arith, h));
}

read-IsAwake : (l : EventLoop) → l.phase ≡ handling → IsAwake l → IsAwake (handle_read l)
unfolding handle_read is_waiting is_handling
read-IsAwake l at a = record {
  in_order = a.in_order;
  calling = a.calling;
  woken = λ h some_left. absurd (ground (arith, h, at));
  quitting = λ h q. absurd (ground (arith, h, at));
}

wake-IsAwake :
    (l : EventLoop) (n : ℕ)
    → l.wakers ≡ suc n
    → IsAwake l
    → IsAwake (wakeup (record l { wakers = n }))
unfolding wakeup
wake-IsAwake l n eq a = record {
  in_order = a.in_order;
  calling = a.calling;
  woken = λ h some_left. omega arith;
  quitting = λ h q. omega arith;
}

Step-IsAwake : {l m : EventLoop} → IsAwake l → Step l m → IsAwake m
unfolding is_waiting is_handling is_running
Step-IsAwake a (queues l cb) =
    queue-IsAwake false cb l (λ h. absurd (ground (arith, h))) (λ h. absurd (ground (arith, h))) a
Step-IsAwake a (quits l) = quit-IsAwake false l (λ h. absurd (ground (arith, h))) a
Step-IsAwake a (wakes l n eq) = wake-IsAwake l n eq a
Step-IsAwake a (polls l at) = poll-IsAwake l at a
Step-IsAwake a (reads l at) = read-IsAwake l at a
Step-IsAwake a (handler_queues l cb at) =
    queue-IsAwake true cb l (λ h. ap is_waiting at) (λ h k. absurd (ground (arith, k, at))) a
Step-IsAwake a (handler_quits l at) = quit-IsAwake true l (λ h. ap is_waiting at) a
Step-IsAwake a (swaps l at) = swap-IsAwake l at a
Step-IsAwake a (runs l cb functors at) = run-IsAwake l cb functors at a
Step-IsAwake a (functor_queues l cb functors at) =
    queue-IsAwake true cb l (λ h. ap is_waiting at) (λ h k. ap is_running at) a
Step-IsAwake a (functor_quits l functors at) = quit-IsAwake true l (λ h. ap is_waiting at) a
Step-IsAwake a (finishes l at) = finish-IsAwake l at a

loop-IsAwake : IsAwake loop
unfolding loop left is_running is_handling is_waiting
loop-IsAwake = record {
  in_order = refl;
  calling = refl;
  woken = λ h some_left. absurd (omega arith);
  quitting = λ h q. absurd (ground (arith, q));
}

-- In every interleaving of a loop that starts with an empty queue: the functors run, those taken
-- out and those pending are all functors queued, in order; outside the handlers, where the queue is
-- looked at anyway, pending functors mean that the eventfd is written or a thread is about to write
-- it; and so does a quit that the loop has not seen when it waits in poll.
pub Run-IsAwake : {l : EventLoop} → Run l → IsAwake l
Run-IsAwake starts = loop-IsAwake
Run-IsAwake (steps run step) = Step-IsAwake (Run-IsAwake run) step
