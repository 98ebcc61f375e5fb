-- ===== src/TimerQueue/Ordered.antt =====
-- src/TimerQueue.cc: the set stays ordered, and its due part is its front.
use mathlib.Core.List.{append-nil}
use mathlib.Core.Path.{subst}
use kama_webserver.Prelude.{
  ℕ, ◌≡◌, refl, sym, ap, ap₂, ◌∙◌, Bool, Bool-cases, inl, inr, true, false, List, [], ◌∷◌, ◌++◌,
  leb, if◌then◌else◌, arith,
}
use kama_webserver.TimerQueue.{Timer, is_before, insert_entry, get_expired}

abbrev pub is_above : Timer → List Timer → Bool
is_above t [] = true
is_above t (s ∷ ts) = is_before t s

unfoldable pub is_sorted : List Timer → Bool
is_sorted [] = true
is_sorted (t ∷ ts) = let rest = is_sorted ts in if is_above t ts then rest else false

above-insert :
    (u t : Timer) (ts : List Timer)
    → is_before u t ≡ true
    → is_above u ts ≡ true
    → is_above u (insert_entry t ts) ≡ true
unfolding insert_entry
above-insert u t [] h k = h
above-insert u t (s ∷ ts) h k = ground (arith, h, k)

pub sorted-insert :
    (t : Timer) (ts : List Timer) → is_sorted ts ≡ true → is_sorted (insert_entry t ts) ≡ true
unfolding insert_entry is_sorted
sorted-insert t [] h = refl
sorted-insert t (s ∷ ts) h = ground (arith, h, sorted-insert t ts, above-insert s t ts)

pub are_due : ℕ → List Timer → Bool
are_due now [] = true
are_due now (t ∷ ts) = let rest = are_due now ts in if leb t.expiration now then rest else false

unfoldable pub none_due : ℕ → List Timer → Bool
none_due now [] = true
none_due now (t ∷ ts) = let rest = none_due now ts in if leb t.expiration now then false else rest

pub later-none_due :
    (now : ℕ) (t : Timer) (ts : List Timer)
    → is_sorted (t ∷ ts) ≡ true
    → leb t.expiration now ≡ false
    → none_due now (t ∷ ts) ≡ true
unfolding is_sorted none_due
later-none_due now t [] h k = ground (arith, k)
later-none_due now t (s ∷ ts) h k = ground (arith, h, k, later-none_due now s ts)

tail-sorted : (t : Timer) (ts : List Timer) → is_sorted (t ∷ ts) ≡ true → is_sorted ts ≡ true
unfolding is_sorted
tail-sorted t ts h = ground (arith, h)

-- The due front of the entries, and the others behind it.
abbrev pub IsSplit : ℕ → List Timer → List Timer × List Timer → Type 0
IsSplit now ts r =
    (r.0 ++ r.1 ≡ ts)
    × (are_due now r.0 ≡ true)
    × (none_due now r.1 ≡ true)
    × (is_sorted r.1 ≡ true)

-- The timers whose time has come, wherever they stand.
unfoldable pub due : ℕ → List Timer → List Timer
due now [] = []
due now (t ∷ ts) = let rest = due now ts in if leb t.expiration now then t ∷ rest else rest

module _ (now : ℕ) (t : Timer) (ts : List Timer) where
  due-split :
      leb t.expiration now ≡ true
      → get_expired now (t ∷ ts) ≡ (t ∷ (get_expired now ts).0, (get_expired now ts).1)
  unfolding get_expired
  due-split due = ground (arith, due)

  later-split : leb t.expiration now ≡ false → get_expired now (t ∷ ts) ≡ ([], t ∷ ts)
  unfolding get_expired
  later-split later = ground (arith, later)

  due-are_due :
      (front : List Timer)
      → leb t.expiration now ≡ true
      → are_due now front ≡ true
      → are_due now (t ∷ front) ≡ true
  unfolding are_due
  due-are_due front due h = ground (arith, due, h)

-- If the entries are ordered, then getExpired splits them: in front all that are due now, behind
-- them those that are not, which are ordered again; none is lost or moved.
pub get_expired_lem :
    (now : ℕ) (ts : List Timer) → is_sorted ts ≡ true → IsSplit now ts (get_expired now ts)
unfolding get_expired are_due none_due is_sorted
get_expired_lem now [] h = (refl, refl, refl, refl)
get_expired_lem now (t ∷ ts) h = elim (Bool-cases (leb t.expiration now)) [
  | inl due ↦
      let (same, front, back, sorted) = get_expired_lem now ts (tail-sorted t ts h) in
      subst (IsSplit now (t ∷ ts)) (sym (due-split now t ts due))
        (ap (◌∷◌ t) same, due-are_due now t ts (get_expired now ts).0 due front, back, sorted)
  | inr later ↦
      subst (IsSplit now (t ∷ ts)) (sym (later-split now t ts later))
        (refl, refl, later-none_due now t ts h later, h)
]

due-append : (now : ℕ) (ts us : List Timer) → due now (ts ++ us) ≡ due now ts ++ due now us
unfolding due
due-append now [] us = refl
due-append now (t ∷ ts) us = ground (arith, due-append now ts us)

all-due : (now : ℕ) (ts : List Timer) → are_due now ts ≡ true → due now ts ≡ ts
unfolding due are_due
all-due now [] h = refl
all-due now (t ∷ ts) h = ground (arith, h, all-due now ts)

none-due : (now : ℕ) (ts : List Timer) → none_due now ts ≡ true → due now ts ≡ []
unfolding due none_due
none-due now [] h = refl
none-due now (t ∷ ts) h = ground (arith, h, none-due now ts)

-- If the entries are ordered, then getExpired takes out exactly the timers whose time has come.
pub get_expired-due :
    (now : ℕ) (ts : List Timer) → is_sorted ts ≡ true → (get_expired now ts).0 ≡ due now ts
get_expired-due now ts h =
    let (same, front, back, sorted) = get_expired_lem now ts h in
    let (out, left) = get_expired now ts in
    sym (
      ap (due now) (sym same)
      ∙ due-append now out left
      ∙ ap₂ (λ a b. a ++ b) (all-due now out front) (none-due now left back)
      ∙ append-nil out)
