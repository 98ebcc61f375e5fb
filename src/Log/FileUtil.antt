-- ===== src/Log/FileUtil.antt =====
-- include/FileUtil.h and log/FileUtil.cc: a log file. `fwrite_unlocked` is an argument: how many bytes
-- one call took, and what `ferror` says then. `contents` is what the calls took so far, `flushed` how
-- much of it was flushed.
pub mod Appending
use kama_webserver.Prelude.{
  ℕ, zero, suc, ◌+◌, ◌-◌, Bool, true, false, not, ◌&&◌, Option, none, some, List, [], ◌∷◌, ◌++◌,
  length, take, drop, ◌==◌, if◌then◌else◌,
}

-- Names are numbers. `contents` is what was written through this object: a file that was there keeps what
-- it held, since `fopen` appends.
pub record FileUtil : Type 0 where
  pub name : ℕ
  pub written_bytes : ℕ
  pub contents : List ℕ
  pub flushed : ℕ

pub record Taken : Type 0 where
  pub count : ℕ
  pub error : ℕ

abbrev pub open_file : ℕ → FileUtil
open_file name = record { name = name; written_bytes = 0; contents = []; flushed = 0 }

-- One call of `write`.
abbrev pub take_bytes : ℕ → List ℕ → FileUtil → FileUtil
take_bytes n bytes f = record f { contents = f.contents ++ take n bytes }

abbrev pub count_bytes : ℕ → FileUtil → FileUtil
count_bytes n f = record f { written_bytes = f.written_bytes + n }

-- The loop of `append`, with the bytes to come; `none` if the fuel runs out.
pub append_loop : ℕ → ℕ → (ℕ → ℕ → Taken) → ℕ → List ℕ → FileUtil → Option FileUtil
append_loop fuel k fwrite writen [] f = some (count_bytes writen f)
append_loop zero k fwrite writen (b ∷ bs) f = none
append_loop (suc fuel) k fwrite writen (b ∷ bs) f =
    let remain = length (b ∷ bs) in
    let taken = fwrite k remain in
    let next = take_bytes taken.count (b ∷ bs) f in
    let rest =
      append_loop fuel (suc k) fwrite (writen + taken.count) (drop taken.count (b ∷ bs)) next in
    if not (taken.count == remain) && not (taken.error == 0)
    then some (count_bytes writen next)
    else rest

pub append : ℕ → (ℕ → ℕ → Taken) → List ℕ → FileUtil → Option FileUtil
unfolding append_loop
append fuel fwrite bytes f = append_loop fuel 0 fwrite 0 bytes f

abbrev pub flush : FileUtil → FileUtil
flush f = record f { flushed = length f.contents }
