-- ===== src/EventLoopThread.antt =====
-- src/EventLoopThread.cc and src/Thread.cc: the thread of a loop, which its owner starts by
-- `startLoop` and ends by the destructor. A mutex or a semaphore makes what it guards one step. Of the
-- loop of the thread, only its flag `quit_` is seen; pointers and thread ids are numbers.
pub mod System
pub mod Handshake
pub mod Starting
pub mod Stopping
mod Tests
use kama_webserver.Prelude.{
  ℕ, zero, suc, ◌+◌, Bool, true, false, Option, none, some, List, [], ◌∷◌, ◌++◌, if◌then◌else◌,
}

-- Where the owner stands: before `startLoop`, in `sem_wait`, before the test of `cond_.wait`, asleep in
-- it, behind the return, in the destructor behind the test of `loop_`, in `join`, behind the destructor.
pub data Owner : Type 0 where
  idle : Owner
  starting : Owner
  waiting : Owner
  asleep : Owner
  returned : ℕ → Owner
  destroying : Owner
  joining : Owner
  destroyed : Owner

-- Where the thread stands: not there, before each of its actions, and behind the last one.
pub data Worker : Type 0 where
  absent : Worker
  created : Worker
  identified : Worker
  posted : Worker
  constructed : Worker
  initialised : Worker
  published : Worker
  looping : Worker
  left : Worker
  ended : Worker

-- `callback` says whether there is a callback, `called` what it was called with.
pub record EventLoopThread : Type 0 where
  pub owner : Owner
  pub worker : Worker
  pub started : Bool
  pub joined : Bool
  pub tid : ℕ
  pub sem : ℕ
  pub loop : Option ℕ
  pub exiting : Bool
  pub callback : Bool
  pub called : List ℕ
  pub quit : Bool

pub init : Bool → EventLoopThread
init callback = record {
  owner = idle;
  worker = absent;
  started = false;
  joined = false;
  tid = 0;
  sem = 0;
  loop = none;
  exiting = false;
  callback = callback;
  called = [];
  quit = false;
}

-- `Thread::start` up to its `sem_wait`.
pub start : EventLoopThread → EventLoopThread
start s = record s { owner = starting; worker = created; started = true; sem = 0 }

pub pass_sem : ℕ → EventLoopThread → EventLoopThread
pass_sem n s = record s { owner = waiting; sem = n }

-- The predicate of `cond_.wait`; the mutex is given back only with the owner asleep.
pub seen : Option ℕ → Owner
seen none = asleep
seen (some p) = returned p

pub test_loop : EventLoopThread → EventLoopThread
unfolding seen
test_loop s = record s { owner = seen s.loop }

-- The destructor up to its test, in which a thread that runs no loop is not joined.
pub chosen : Option ℕ → Owner
chosen none = destroyed
chosen (some p) = destroying

pub destroy : EventLoopThread → EventLoopThread
unfolding chosen
destroy s = record s { exiting = true; owner = chosen s.loop }

-- `loop_->quit()` and the start of `thread_.join()`.
pub quit_and_join : EventLoopThread → EventLoopThread
quit_and_join s = record s { quit = true; joined = true; owner = joining }

-- The destructor reads `loop_` again, without the mutex: `none` is a call through null, behind the end
-- of the thread. That read and the call are one step.
pub quit_loop : EventLoopThread → Option EventLoopThread
unfolding quit_and_join
quit_loop s = elim s.loop [ none ↦ none | some p ↦ some (quit_and_join s) ]

pub join : EventLoopThread → EventLoopThread
join s = record s { owner = destroyed }

-- The function that `Thread::start` gives to the new thread.
pub set_tid : ℕ → EventLoopThread → EventLoopThread
set_tid tid s = record s { tid = tid; worker = identified }

pub post_sem : EventLoopThread → EventLoopThread
post_sem s = record s { sem = s.sem + 1; worker = posted }

-- `threadFunc`, with the loop at `address`.
pub construct_loop : EventLoopThread → EventLoopThread
construct_loop s = record s { quit = false; worker = constructed }

pub call_back : ℕ → EventLoopThread → EventLoopThread
call_back address s = record s {
  called = if s.callback then s.called ++ address ∷ [] else s.called;
  worker = initialised;
}

-- `notify_one`.
pub woken : Owner → Owner
woken idle = idle
woken starting = starting
woken waiting = waiting
woken asleep = waiting
woken (returned p) = returned p
woken destroying = destroying
woken joining = joining
woken destroyed = destroyed

pub publish : ℕ → EventLoopThread → EventLoopThread
unfolding woken
publish address s = record s { loop = some address; owner = woken s.owner; worker = published }

-- `EventLoop::loop` clears `quit_` before its first test.
pub enter_loop : EventLoopThread → EventLoopThread
enter_loop s = record s { quit = false; worker = looping }

-- A functor of the loop calls `quit`.
pub quit_itself : EventLoopThread → EventLoopThread
quit_itself s = record s { quit = true }

pub leave_loop : EventLoopThread → EventLoopThread
leave_loop s = record s { worker = left }

pub clear_loop : EventLoopThread → EventLoopThread
clear_loop s = record s { loop = none; worker = ended }
