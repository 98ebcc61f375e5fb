-- ===== src/Memory/Slots.antt =====
-- Address ranges of one length that do not overlap.
use mathlib.Core.Path.{subst}
use kama_webserver.Prelude.{
  ℕ, ◌<◌, ◌≢◌, sym, Bool-cases, ==_iff, ◌+◌, ◌≤◌, ◌≡◌, ◌⊎◌, inl, inr, Bool, true, false, ◌||◌, List,
  [], ◌∷◌, ◌==◌, arith, if◌then◌else◌,
}

-- The `n` bytes at `a` and those at `b` have none in common.
abbrev pub Apart : ℕ → ℕ → ℕ → Type 0
Apart n a b = (a + n ≤ b) ⊎ (b + n ≤ a)

abbrev pub AllApart : ℕ → ℕ → List ℕ → Type 0
AllApart n a [] = Unit
AllApart n a (b ∷ bs) = Apart n a b × AllApart n a bs

abbrev pub Separate : ℕ → List ℕ → Type 0
Separate n [] = Unit
Separate n (a ∷ as') = AllApart n a as' × Separate n as'

-- Each of the first is apart from each of the second.
abbrev pub CrossApart : ℕ → List ℕ → List ℕ → Type 0
CrossApart n [] bs = Unit
CrossApart n (a ∷ as') bs = AllApart n a bs × CrossApart n as' bs

abbrev pub All : (ℕ → Type 0) → List ℕ → Type 0
All P [] = Unit
All P (a ∷ as') = P a × All P as'

abbrev pub has : ℕ → List ℕ → Bool
has a [] = false
has a (b ∷ bs) = (a == b) || has a bs

-- Drops the first entry `a`.
abbrev pub remove : ℕ → List ℕ → List ℕ
remove a [] = []
remove a (b ∷ bs) = if a == b then bs else b ∷ remove a bs

pub All-has : (P : ℕ → Type 0) (a : ℕ) (xs : List ℕ) → All P xs → has a xs ≡ true → P a
All-has P a [] h i = absurd (cc)
All-has P a (x ∷ xs) h i = elim (Bool-cases (a == x)) [
  | inl e ↦ subst P (sym ((==_iff a x).0 e)) h.0
  | inr e ↦ All-has P a xs h.1 (rw e at i)
]

pub AllApart-has : (n a b : ℕ) (bs : List ℕ) → AllApart n a bs → has b bs ≡ true → Apart n a b
AllApart-has n a b [] h i = absurd (cc)
AllApart-has n a b (x ∷ bs) h i = ground (arith, AllApart-has n a b bs)

pub AllApart-remove : (n a b : ℕ) (bs : List ℕ) → AllApart n a bs → AllApart n a (remove b bs)
AllApart-remove n a b [] h = tt
AllApart-remove n a b (x ∷ bs) h = ground (arith, AllApart-remove n a b bs)

pub Separate-has :
    (n a : ℕ) (xs : List ℕ) → Separate n xs → has a xs ≡ true → AllApart n a (remove a xs)
Separate-has n a [] s i = tt
Separate-has n a (x ∷ xs) s i = ground (arith, AllApart-has n x a xs, Separate-has n a xs)

pub Separate-remove : (n a : ℕ) (xs : List ℕ) → Separate n xs → Separate n (remove a xs)
Separate-remove n a [] s = tt
Separate-remove n a (x ∷ xs) s = ground (arith, Separate-remove n a xs, AllApart-remove n x a xs)

pub CrossApart-cons :
    (n b : ℕ) (xs bs : List ℕ) → CrossApart n xs bs → AllApart n b xs → CrossApart n xs (b ∷ bs)
CrossApart-cons n b [] bs c h = tt
CrossApart-cons n b (x ∷ xs) bs c h = ((ground arith, c.0), CrossApart-cons n b xs bs c.1 h.1)

pub CrossApart-remove :
    (n b : ℕ) (xs bs : List ℕ) → CrossApart n xs bs → CrossApart n xs (remove b bs)
CrossApart-remove n b [] bs c = tt
CrossApart-remove n b (x ∷ xs) bs c =
    (AllApart-remove n x b bs c.0, CrossApart-remove n b xs bs c.1)

pub CrossApart-has :
    (n b : ℕ) (xs bs : List ℕ) → CrossApart n xs bs → has b bs ≡ true → AllApart n b xs
CrossApart-has n b [] bs c i = tt
CrossApart-has n b (x ∷ xs) bs c i =
    (ground (arith, AllApart-has n x b bs), CrossApart-has n b xs bs c.1 i)

pub All-remove : (P : ℕ → Type 0) (a : ℕ) (xs : List ℕ) → All P xs → All P (remove a xs)
All-remove P a [] h = tt
All-remove P a (x ∷ xs) h = elim (Bool-cases (a == x)) [
  | inl e ↦ rw e h.1
  | inr e ↦ rw e (h.0, All-remove P a xs h.1)
]

pub All-mono : (P Q : ℕ → Type 0) (xs : List ℕ) → ((a : ℕ) → P a → Q a) → All P xs → All Q xs
All-mono P Q [] f h = tt
All-mono P Q (x ∷ xs) f h = (f x h.0, All-mono P Q xs f h.1)

pub ne-AllApart : (n a : ℕ) (xs : List ℕ) → 0 < n → AllApart n a xs → All (λ x. x ≢ a) xs
ne-AllApart n a [] h s = tt
ne-AllApart n a (x ∷ xs) h s = ((λ e. ground arith), ne-AllApart n a xs h s.1)
