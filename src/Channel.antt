-- ===== src/Channel.antt =====
-- include/Channel.h and src/Channel.cc: the events a descriptor waits for, and which callbacks an
-- answer of epoll runs. An event mask is a record with a field for each bit that the code uses.
pub mod Dispatch
mod Tests
use kama_webserver.Prelude.{
  ℕ, Bool, true, false, not, ◌&&◌, ◌||◌, List, [], ◌∷◌, ◌++◌, if◌then◌else◌,
}

pub record Events : Type 0 where
  pub epollin : Bool
  pub epollpri : Bool
  pub epollout : Bool
  pub epollerr : Bool
  pub epollhup : Bool
  pub epollet : Bool

abbrev pub none_event : Events
none_event = record {
  epollin = false;
  epollpri = false;
  epollout = false;
  epollerr = false;
  epollhup = false;
  epollet = false;
}

abbrev pub enable_et : Events → Events
enable_et e = record e { epollet = true }

abbrev pub enable_reading : Events → Events
enable_reading e = record e { epollin = true; epollpri = true }

abbrev pub disable_reading : Events → Events
disable_reading e = record e { epollin = false; epollpri = false }

abbrev pub enable_writing : Events → Events
enable_writing e = record e { epollout = true }

abbrev pub disable_writing : Events → Events
disable_writing e = record e { epollout = false }

abbrev pub is_none_event : Events → Bool
is_none_event e =
    not (e.epollin || e.epollpri || e.epollout || e.epollerr || e.epollhup || e.epollet)

abbrev pub is_writing : Events → Bool
is_writing e = e.epollout

pub is_reading : Events → Bool
is_reading e = e.epollin || e.epollpri

-- `kNew`, `kAdded`, `kDeleted`.
pub data Index : Type 0 where
  new : Index
  added : Index
  deleted : Index

-- `tied_`, and which of the four callbacks are set.
pub record Channel : Type 0 where
  pub fd : ℕ
  pub events : Events
  pub revents : Events
  pub index : Index
  pub tied : Bool
  pub read_callback : Bool
  pub write_callback : Bool
  pub close_callback : Bool
  pub error_callback : Bool

abbrev pub init : ℕ → Channel
init fd = record {
  fd = fd;
  events = none_event;
  revents = none_event;
  index = new;
  tied = false;
  read_callback = false;
  write_callback = false;
  close_callback = false;
  error_callback = false;
}

pub tie : Channel → Channel
tie c = record c { tied = true }

pub data Callback : Type 0 where
  close : Callback
  error : Callback
  read : Callback
  write : Callback

abbrev pub run_if : Bool → Callback → List Callback
run_if b callback = if b then callback ∷ [] else []

-- The callbacks run, in order. They leave `revents_` as the poller set it.
pub handle_event_with_guard : Channel → List Callback
handle_event_with_guard c =
    run_if (c.revents.epollhup && not c.revents.epollin && c.close_callback) close
    ++ run_if (c.revents.epollerr && c.error_callback) error
    ++ run_if ((c.revents.epollin || c.revents.epollpri) && c.read_callback) read
    ++ run_if (c.revents.epollout && c.write_callback) write

-- `alive`: `tie_.lock()` gives the object.
pub handle_event : Bool → Channel → List Callback
handle_event alive c =
    if c.tied then if alive then handle_event_with_guard c else [] else handle_event_with_guard c
