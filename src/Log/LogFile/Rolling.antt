-- ===== src/Log/LogFile/Rolling.antt =====
-- log/LogFile.cc: an append loses nothing over a roll, each file is named by a later second, and a file
-- that is too large is closed.
use mathlib.Core.List.{append_assoc, append-nil}
use mathlib.Core.Path.{subst, subst₂}
use kama_webserver.Log.FileUtil
use kama_webserver.Prelude.{
  ℕ, ◌+◌, ◌-◌, leb, Bool-cases, ◌≤◌, ◌<◌, ◌≡◌, refl, sym, ap, ◌∙◌, ◌⊎◌, inl, inr, Bool, true, false,
  Option, some, List, [], ◌∷◌, ◌++◌, length, ltb, ◌==◌, if◌then◌else◌, arith,
}
use kama_webserver.Log.FileUtil.{FileUtil, Taken, open_file}
use kama_webserver.Log.FileUtil.Appending.{IsProgressing, append-IsAppended}
use kama_webserver.Log.LogFile.{
  LogFile, period_of, roll_file, check_roll, check_flush, append_in_lock, init,
}

-- The bytes of the files, the last file first.
unfoldable pub collected : List FileUtil → List ℕ
collected [] = []
collected (f ∷ fs) = collected fs ++ f.contents

abbrev pub all_bytes : LogFile → List ℕ
all_bytes l = collected (l.file ∷ l.closed)

-- Closed files, the last one first, were opened at earlier and earlier seconds, and named by them.
abbrev pub AreDated : (ℕ → ℕ) → ℕ → List FileUtil → Type 0
AreDated name_of second [] = Unit {0}
AreDated name_of second (f ∷ fs) =
    (earlier : ℕ) × (earlier < second) × (f.name ≡ name_of earlier) × AreDated name_of earlier fs

unfoldable pub are_flushed : List FileUtil → Bool
are_flushed [] = true
are_flushed (f ∷ fs) =
    let rest = are_flushed fs in if f.flushed == length f.contents then rest else false

pub record IsRolled (name_of : ℕ → ℕ) (l : LogFile) : Type 0 where
  pub named : l.file.name ≡ name_of l.last_roll
  pub dated : AreDated name_of l.last_roll l.closed
  pub saved : are_flushed l.closed ≡ true

module _ (name_of : ℕ → ℕ) (now later : ℕ) (l : LogFile) where
  roll-all_bytes : all_bytes (roll_file name_of later l).1 ≡ all_bytes l
  unfolding roll_file collected
  roll-all_bytes = ground (arith, append-nil (collected l.closed ++ l.file.contents))

  roll-kept : ltb l.last_roll later ≡ false → (roll_file name_of later l).1 ≡ l
  unfolding roll_file
  roll-kept same = ground (arith, same)

  roll-new :
      ltb l.last_roll later ≡ true
      → ((roll_file name_of later l).1.file.name ≡ name_of (roll_file name_of later l).1.last_roll)
        × ((roll_file name_of later l).1.last_roll ≡ later)
        × ((roll_file name_of later l).1.closed ≡ FileUtil.flush l.file ∷ l.closed)
  unfolding roll_file
  roll-new fresh = (ground (arith, fresh), ground (arith, fresh), ground (arith, fresh))

  roll-IsRolled : IsRolled name_of l → IsRolled name_of (roll_file name_of later l).1
  unfolding are_flushed
  roll-IsRolled r = elim (Bool-cases (ltb l.last_roll later)) [
    | inr same ↦ subst (IsRolled name_of) (sym (roll-kept same)) r
    | inl fresh ↦
        let (named, at, closed) = roll-new fresh in
        record {
          named = named;
          dated =
              subst₂ (AreDated name_of) (sym at) (sym closed)
                (l.last_roll, ground (arith, fresh), r.named, r.dated);
          saved = ap are_flushed closed ∙ ground (arith, r.saved);
        }
  ]

  -- Too large a file is gone, unless the name of the new one would be no other.
  roll-small :
      (later ≤ l.last_roll) ⊎ ((roll_file name_of later l).1.file ≡ open_file (name_of later))
  unfolding roll_file
  roll-small = ground arith

  check_flush-all_bytes : all_bytes (check_flush now l) ≡ all_bytes l
  unfolding check_flush collected
  check_flush-all_bytes = ground (arith)

  check_flush-IsRolled : IsRolled name_of l → IsRolled name_of (check_flush now l)
  unfolding check_flush
  check_flush-IsRolled r = elim (Bool-cases (ltb l.flush_interval (now - l.last_flush))) [
    | inl late ↦ rw (late) (record { named = r.named; dated = r.dated; saved = r.saved })
    | inr soon ↦ rw (soon) r
  ]

  check_flush-written :
      ((check_flush now l).file.written_bytes ≡ l.file.written_bytes)
      × ((check_flush now l).last_roll ≡ l.last_roll)
      × ((check_flush now l).rollsize ≡ l.rollsize)
  unfolding check_flush
  check_flush-written = ground (arith)

module _ (name_of : ℕ → ℕ) (now later : ℕ) (l : LogFile) where
  check_roll-all_bytes : all_bytes (check_roll name_of now later l) ≡ all_bytes l
  unfolding check_roll roll_file collected
  check_roll-all_bytes = ground (arith, append-nil (collected l.closed ++ l.file.contents))

  counted-IsRolled :
      (count : ℕ) → IsRolled name_of l → IsRolled name_of (record l { count = count })
  counted-IsRolled count r = record { named = r.named; dated = r.dated; saved = r.saved }

  check_roll-IsRolled : IsRolled name_of l → IsRolled name_of (check_roll name_of now later l)
  unfolding check_roll
  check_roll-IsRolled r =
      let reset = record l { count = 0 } in
      let counted = record l { count = l.count + 1 } in
      elim (Bool-cases (ltb l.rollsize l.file.written_bytes)) [
        | inl large ↦
            rw (large) (roll-IsRolled name_of now later counted (counted-IsRolled (l.count + 1) r))
        | inr small ↦ elim (Bool-cases (leb l.check_every_n (l.count + 1))) [
          | inr few ↦ rw (small, few) (counted-IsRolled (l.count + 1) r)
          | inl many ↦ elim (Bool-cases (period_of now == l.start_of_period)) [
            | inl same ↦ rw (small, many, same) (counted-IsRolled 0 r)
            | inr next ↦
                rw (small, many, next)
                  (roll-IsRolled name_of now later reset (counted-IsRolled 0 r))
          ]
        ]
      ]

  check_roll-small :
      ((check_roll name_of now later l).file.written_bytes ≤ l.rollsize) ⊎ (later ≤ l.last_roll)
  unfolding check_roll roll_file
  check_roll-small = ground arith

  check_roll-rollsize : (check_roll name_of now later l).rollsize ≡ l.rollsize
  unfolding check_roll roll_file
  check_roll-rollsize = ground arith

file-all_bytes :
    (l : LogFile) (f : FileUtil) (front : List ℕ)
    → f.contents ≡ l.file.contents ++ front
    → all_bytes (record l { file = f }) ≡ all_bytes l ++ front
unfolding collected
file-all_bytes l f front e =
    ap (◌++◌ (collected l.closed)) e ∙ sym (append_assoc (collected l.closed) l.file.contents front)

-- The outcome of an append.
pub record IsLogged (name_of : ℕ → ℕ) (fwrite : ℕ → ℕ → Taken) (later : ℕ) (bytes : List ℕ)
    (l : LogFile) (r : Option LogFile) : Type 0 where
  pub after : LogFile
  pub result : r ≡ some after
  pub front : List ℕ
  pub back : List ℕ
  pub split : front ++ back ≡ bytes
  pub kept : all_bytes after ≡ all_bytes l ++ front
  pub complete : (back ≡ []) ⊎ ((i : ℕ) × (m : ℕ) × (0 < (fwrite i m).error))
  pub rolled : IsRolled name_of l → IsRolled name_of after
  pub small : (after.file.written_bytes ≤ l.rollsize) ⊎ (later ≤ l.last_roll)

-- If fwrite takes no more than it is offered and takes nothing only with an error, and the fuel is as
-- large as the number of bytes, then an append to the log file ends. All files together hold what they
-- held followed by the bytes, or a front part of them if a call told of an error. If each file was named
-- by the second of its opening, behind those of the files closed before it, and the closed ones were
-- flushed, that is still so. The current file has no more bytes counted than the roll size allows,
-- unless no second has passed since it was opened.
pub append_in_lock-IsLogged :
    (name_of : ℕ → ℕ) (fuel : ℕ) (fwrite : ℕ → ℕ → Taken) (now later : ℕ) (bytes : List ℕ)
    (l : LogFile)
    → IsProgressing fwrite
    → length bytes ≤ fuel
    → IsLogged name_of fwrite later bytes l (append_in_lock name_of fuel fwrite now later bytes l)
unfolding append_in_lock
append_in_lock-IsLogged name_of fuel fwrite now later bytes l p enough =
    let a = append-IsAppended fuel fwrite bytes l.file p enough in
    let written = record l { file = a.after } in
    let checked = check_roll name_of now later written in
    record {
      after = check_flush now checked;
      result = rw a.result refl;
      front = a.front;
      back = a.back;
      split = a.split;
      kept =
          check_flush-all_bytes name_of now later checked
          ∙ check_roll-all_bytes name_of now later written
          ∙ file-all_bytes l a.after a.front a.contents;
      complete = elim a.counted [
        | inl (e, w) ↦ inl e
        | inr (i, m, failed, lo, hi) ↦ inr (i, m, failed)
      ];
      rolled = λ r. check_flush-IsRolled name_of now later checked (
          check_roll-IsRolled name_of now later written
            (record { named = a.name ∙ r.named; dated = r.dated; saved = r.saved }));
      small =
          let (same, _, _) = check_flush-written name_of now later checked in
          rw same (check_roll-small name_of now later written);
    }

-- A new log file has one file, named by its second.
pub init-IsRolled :
    (name_of : ℕ → ℕ) (rollsize flush_interval check_every_n memory later : ℕ)
    → IsRolled name_of (init name_of rollsize flush_interval check_every_n memory later)
unfolding init are_flushed
init-IsRolled name_of rollsize flush_interval check_every_n memory later = record {
  named = refl;
  dated = tt;
  saved = refl;
}
