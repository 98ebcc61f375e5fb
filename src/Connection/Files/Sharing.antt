-- ===== src/Connection/Files/Sharing.antt =====
-- src/TcpConnection.cc: several files that are sent at once take turns.
use kama_webserver.Prelude.{
  ℕ, zero, suc, ◌+◌, ◌-◌, ◌≤◌, ◌<◌, ◌^◌, ◌≡◌, ◌⊎◌, inl, inr, refl, sym, ap, ◌∙◌, Bool, true, false,
  Bool-cases, some, List, [], ◌∷◌, ◌++◌, ◌==◌, arith,
}
use mathlib.Core.Path.{subst}
use mathlib.Core.List.{append-nil}
use kama_webserver.Buffer.{Written, wrote, write_error}
use kama_webserver.Connection.{TcpConnection, Effect}
use kama_webserver.Connection.Files.{Task, run_calls}
use kama_webserver.Connection.Files.Calls.{
  run_calls-step, IsIdle, Obeys, effects, extend, extend-extend, extend-nil, calls_of,
  calls_of-append, sent_to, sent_to-append, rest_of, sent_to-other, sent_by, sent_to-mine,
}

-- A file stands at `m` and ends at `end`: its only call is the next piece, or it is done.
Left : ℕ → ℕ → ℕ → List Task → Type 0
Left d m end q =
    ((calls_of d q ≡ []) × (m ≡ end))
    ⊎ ((t : Task) × (calls_of d q ≡ t ∷ []) × (t.offset ≡ m) × (t.offset + t.count ≡ end))

rest_of-mine :
    (d : ℕ) (t : Task) (answer : Written)
    → (t.descriptor == d) ≡ true
    → Obeys t.count answer
    → Left d (t.offset + sent_by answer) (t.offset + t.count) (rest_of t answer)
unfolding Left rest_of calls_of
rest_of-mine d t (wrote n) mine ok = elim (Bool-cases (t.count - n == 0)) [
  | inl done ↦ rw (done) (inl (refl, ground (arith, done, ok)))
  | inr more ↦
      rw (more, mine)
        (inr (
          record { descriptor = t.descriptor; offset = t.offset + n; count = t.count - n },
          refl,
          refl,
          omega (arith, ok),
        ))
]
rest_of-mine d t (write_error e) mine ok = elim (Bool-cases (t.count == 0)) [
  | inl done ↦ rw (done) (inl (refl, ground (arith, done)))
  | inr more ↦ rw (more, mine) (inr (t, refl, ground arith, refl))
]

rest_of-other :
    (d : ℕ) (t : Task) (answer : Written)
    → (t.descriptor == d) ≡ false
    → calls_of d (rest_of t answer) ≡ []
unfolding rest_of calls_of
rest_of-other d t (wrote n) other = ground (arith, other)
rest_of-other d t (write_error e) other = ground (arith, other)

Left-same :
    (d m end : ℕ) (q q' : List Task)
    → calls_of d q' ≡ calls_of d q
    → Left d m end q
    → Left d m end q'
unfolding Left
Left-same d m end q q' same (inl (none_left, done)) = inl (same ∙ none_left, done)
Left-same d m end q q' same (inr (t, only, stands, ends)) = inr (t, same ∙ only, stands, ends)

calls_of-mine :
    (d : ℕ) (t : Task) (ts : List Task)
    → (t.descriptor == d) ≡ true
    → calls_of d (t ∷ ts) ≡ t ∷ calls_of d ts
unfolding calls_of
calls_of-mine d t ts mine = rw (mine) refl

calls_of-other :
    (d : ℕ) (t : Task) (ts : List Task)
    → (t.descriptor == d) ≡ false
    → calls_of d (t ∷ ts) ≡ calls_of d ts
unfolding calls_of
calls_of-other d t ts other = rw (other) refl

-- The only call for a file is the first of the queue.
Left-mine :
    (d m end : ℕ) (t : Task) (ts : List Task)
    → (t.descriptor == d) ≡ true
    → Left d m end (t ∷ ts)
    → (calls_of d ts ≡ []) × (t.offset ≡ m) × (t.offset + t.count ≡ end)
unfolding Left
Left-mine d m end t ts mine (inl (none_left, done)) =
    absurd (ground (arith, sym (calls_of-mine d t ts mine) ∙ none_left))
Left-mine d m end t ts mine (inr (t', only, stands, ends)) =
    let heads : t ∷ calls_of d ts ≡ t' ∷ [] = sym (calls_of-mine d t ts mine) ∙ only in
    let same : t ≡ t' = ground (arith, heads) in
    (
      ground (arith, heads),
      ap (λ u. u.offset) same ∙ stands,
      ap (λ u. u.offset + u.count) same ∙ ends,
    )

-- One call, for every file.
Left-step :
    (d m end : ℕ) (t : Task) (ts : List Task) (b : Bool) (answer : Written)
    → Obeys t.count answer
    → Left d m end (t ∷ ts)
    → (m' : ℕ) × (sent_to d m (effects t b answer) ≡ some m')
      × Left d m' end (ts ++ rest_of t answer)
Left-step d m end t ts b answer ok left = elim (Bool-cases (t.descriptor == d)) [
  | inl mine ↦
      let (alone, stands, ends) = Left-mine d m end t ts mine left in
      let moved_on =
        subst (λ e. Left d (t.offset + sent_by answer) e (rest_of t answer)) ends
          (rest_of-mine d t answer mine ok) in
      (
        t.offset + sent_by answer,
        ap (λ p. sent_to d p (effects t b answer)) (sym stands) ∙ sent_to-mine d t b answer mine,
        Left-same d (t.offset + sent_by answer) end (rest_of t answer) (ts ++ rest_of t answer)
            (calls_of-append d ts (rest_of t answer)
              ∙ ap (λ l. l ++ calls_of d (rest_of t answer)) alone)
            moved_on,
      )
  | inr other ↦ (
    m,
    sent_to-other d m t b answer other,
    Left-same d m end (t ∷ ts) (ts ++ rest_of t answer)
        (calls_of-append d ts (rest_of t answer)
          ∙ ap (λ l. calls_of d ts ++ l) (rest_of-other d t answer other)
          ∙ append-nil (calls_of d ts)
          ∙ sym (calls_of-other d t ts other))
        left,
  )
]

-- The sizes fit in a `size_t`.
abbrev pub Fits : List Task → Type 0
Fits [] = Unit {0}
Fits (t ∷ ts) = (t.count < 2 ^ 64) × Fits ts

Fits-append : (ts us : List Task) → Fits ts → Fits us → Fits (ts ++ us)
Fits-append [] us f g = g
Fits-append (t ∷ ts) us (bound, f) g = (bound, Fits-append ts us f g)

rest_of-Fits : (t : Task) (answer : Written) → t.count < 2 ^ 64 → Fits (rest_of t answer)
unfolding rest_of
rest_of-Fits t (wrote n) bound = elim (Bool-cases (t.count - n == 0)) [
  | inl done ↦ rw (done) tt
  | inr more ↦ rw (more) ((omega (arith, bound)), tt)
]
rest_of-Fits t (write_error e) bound = elim (Bool-cases (t.count == 0)) [
  | inl done ↦ rw (done) tt
  | inr more ↦ rw (more) (bound, tt)
]

-- What is left to send, and one step for each call.
abbrev pub work : List Task → ℕ
work [] = 0
work (t ∷ ts) = suc t.count + work ts

work-append : (ts us : List Task) → work (ts ++ us) ≡ work ts + work us
work-append [] us = omega arith
work-append (t ∷ ts) us = omega (arith, work-append ts us)

-- A byte is sent if there is one.
abbrev pub Advances : ℕ → Written → Type 0
Advances count answer = (n : ℕ) × (answer ≡ wrote n) × (0 < count → 0 < n)

work-rest_of :
    (t : Task) (answer : Written) → Obeys t.count answer → work (rest_of t answer) ≤ suc t.count
unfolding rest_of
work-rest_of t (wrote n) ok = ground (arith, ok)
work-rest_of t (write_error e) ok = ground arith

work-Advances :
    (t : Task) (answer : Written)
    → Obeys t.count answer
    → Advances t.count answer
    → work (rest_of t answer) < suc t.count
unfolding rest_of
work-Advances t (wrote n) ok (n', same, advance) = ground (arith, ok, advance, same)
work-Advances t (write_error e) ok (n', same, advance) = absurd (ground (arith, same))

step-enough :
    (fuel k busy count w total left : ℕ)
    → (busy - k) + (suc count + w) ≤ suc fuel
    → total ≡ w + left
    → left ≤ suc count
    → (busy ≤ k → left < suc count)
    → (busy - suc k) + total ≤ fuel
step-enough fuel k busy count w total left enough same bound strict =
    ground (arith, enough, same, bound, strict)

Left-nil : (d m end : ℕ) → Left d m end [] → sent_to d m [] ≡ some end
unfolding Left calls_of sent_to
Left-nil d m end (inl (none_left, done)) = ap some done
Left-nil d m end (inr (t, only, stands, ends)) = absurd (ground (arith, only))

run_calls_lem :
    (fuel k busy : ℕ) (sendfile : ℕ → ℕ → Written) (q : List Task) (c : TcpConnection)
    → IsIdle c
    → Fits q
    → ((i count : ℕ) → Obeys count (sendfile i count))
    → ((i count : ℕ) → busy ≤ i → Advances count (sendfile i count))
    → (busy - k) + work q ≤ fuel
    → (es : List Effect) × (run_calls fuel k sendfile q c ≡ some (extend c es))
      × ((d m end : ℕ) → Left d m end q → sent_to d m es ≡ some end)
unfolding run_calls
run_calls_lem fuel k busy sendfile [] c idle fits obeys advances enough =
    ([], ap some (extend-nil c), Left-nil)
run_calls_lem zero k busy sendfile (t ∷ ts) c idle fits obeys advances enough =
    absurd (omega (arith, enough))
run_calls_lem (suc fuel) k busy sendfile (t ∷ ts) c idle (bound, fits) obeys advances enough =
    let answer = sendfile k t.count in
    let es = effects t c.write_complete_callback answer in
    let (fs, runs, sent) =
      run_calls_lem fuel (suc k) busy sendfile (ts ++ rest_of t answer) (extend c es) idle
        (Fits-append ts (rest_of t answer) fits (rest_of-Fits t answer bound)) obeys advances
        (step-enough fuel k busy t.count (work ts) (work (ts ++ rest_of t answer))
          (work (rest_of t answer)) enough (work-append ts (rest_of t answer))
          (work-rest_of t answer (obeys k t.count))
          (λ h. work-Advances t answer (obeys k t.count) (advances k t.count h))) in
    (
      es ++ fs,
      run_calls-step fuel k sendfile t ts c answer idle bound refl (obeys k t.count)
          ∙ runs
          ∙ ap some (extend-extend c es fs),
      λ d m end left.
          let (m', step, left') =
            Left-step d m end t ts c.write_complete_callback answer (obeys k t.count) left in
          sent_to-append d m m' es fs step ∙ sent d m' end left',
    )

-- Files are sent at once, their calls queued at the loop, on a connection that is not in kDisconnecting
-- and on which nothing waits to be written, with sizes below 2 ^ 64. If `sendfile` takes no more than it
-- is asked to, does not fail with EPIPE or ECONNRESET, and advances from its `busy`-th call on, then
-- as many calls as there are bytes and files, and `busy` more, are enough for the queue to run empty, and
-- a file with one call in the queue is sent to its last byte, its pieces in order and without a gap.
pub run_calls-sent_to :
    (fuel busy : ℕ) (sendfile : ℕ → ℕ → Written) (q : List Task) (c : TcpConnection) (t : Task)
    → IsIdle c
    → Fits q
    → ((i count : ℕ) → Obeys count (sendfile i count))
    → ((i count : ℕ) → busy ≤ i → Advances count (sendfile i count))
    → busy + work q ≤ fuel
    → calls_of t.descriptor q ≡ t ∷ []
    → (es : List Effect) × (run_calls fuel 0 sendfile q c
        ≡ some (record c { trace = c.trace ++ es }))
      × (sent_to t.descriptor t.offset es ≡ some (t.offset + t.count))
unfolding Left
run_calls-sent_to fuel busy sendfile q c t idle fits obeys advances enough only =
    let (es, runs, sent) =
      run_calls_lem fuel 0 busy sendfile q c idle fits obeys advances (omega (arith, enough)) in
    (es, runs, sent t.descriptor t.offset (t.offset + t.count) (inr (t, only, refl, refl)))
