-- ===== src/Log/LogFile.antt =====
-- include/LogFile.h and log/LogFile.cc: the log file with its rolling. Times are seconds; `now` is what
-- the first call of `time` shows and `later` what the second one does, in `getLogFileName`. `name_of` is
-- what localtime_r and strftime make of a second, a number for each name; where the local time is set
-- back, two seconds can have one name. The mutex makes an append one step.
pub mod Rolling
mod Tests
use mathlib.Core.Option
use kama_webserver.Prelude.{
  ℕ, ◌+◌, ◌-◌, ◌*◌, ◌/◌, Bool, true, false, Option, none, some, List, [], ◌∷◌, ◌++◌, ltb, leb, ◌==◌,
  if◌then◌else◌,
}
use kama_webserver.Log.FileUtil
use kama_webserver.Log.FileUtil.{FileUtil, Taken, open_file}

abbrev pub roll_per_seconds : ℕ
roll_per_seconds = 86400

-- `closed` are the files that were closed, the last one first.
pub record LogFile : Type 0 where
  pub rollsize : ℕ
  pub flush_interval : ℕ
  pub check_every_n : ℕ
  pub count : ℕ
  pub start_of_period : ℕ
  pub last_roll : ℕ
  pub last_flush : ℕ
  pub file : FileUtil
  pub closed : List FileUtil

abbrev pub period_of : ℕ → ℕ
period_of now = now / roll_per_seconds * roll_per_seconds

-- Closing a file flushes it.
pub roll_file : (ℕ → ℕ) → ℕ → LogFile → Bool × LogFile
roll_file name_of later l =
    if ltb l.last_roll later
    then (
      true,
      record l {
        last_flush = later;
        last_roll = later;
        start_of_period = period_of later;
        file = open_file (name_of later);
        closed = FileUtil.flush l.file ∷ l.closed;
      },
    )
    else (false, l)

-- The constructor leaves `count_` unset: it is what the memory held. The clock shows a second after the
-- epoch, so that the first roll opens a file.
pub init : (ℕ → ℕ) → ℕ → ℕ → ℕ → ℕ → ℕ → LogFile
init name_of rollsize flush_interval check_every_n memory later = record {
  rollsize = rollsize;
  flush_interval = flush_interval;
  check_every_n = check_every_n;
  count = memory;
  start_of_period = period_of later;
  last_roll = later;
  last_flush = later;
  file = open_file (name_of later);
  closed = [];
}

abbrev pub flush : LogFile → LogFile
flush l = record l { file = FileUtil.flush l.file }

-- The part behind the write.
pub check_roll : (ℕ → ℕ) → ℕ → ℕ → LogFile → LogFile
unfolding roll_file
check_roll name_of now later l =
    let counted = record l { count = l.count + 1 } in
    if ltb l.rollsize l.file.written_bytes
    then (roll_file name_of later counted).1
    else if leb l.check_every_n (l.count + 1)
    then if period_of now == l.start_of_period
      then record l { count = 0 }
      else (roll_file name_of later (record l { count = 0 })).1
    else counted

pub check_flush : ℕ → LogFile → LogFile
check_flush now l =
    if ltb l.flush_interval (now - l.last_flush) then flush (record l { last_flush = now }) else l

pub append_in_lock : (ℕ → ℕ) → ℕ → (ℕ → ℕ → Taken) → ℕ → ℕ → List ℕ → LogFile → Option LogFile
unfolding check_roll check_flush
append_in_lock name_of fuel fwrite now later bytes l =
    Option.map (λ f. check_flush now (check_roll name_of now later (record l { file = f })))
      (FileUtil.append fuel fwrite bytes l.file)
