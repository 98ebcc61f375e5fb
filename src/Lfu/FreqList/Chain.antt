-- ===== src/Lfu/FreqList/Chain.antt =====
-- include/LFU.h: the nodes that hang between two addresses, with both pointers right.
use kama_webserver.Prelude.{
  ℕ, ◌≡◌, sym, ◌∙◌, Bool, Bool-cases, inl, inr, true, false, ◌||◌, some, List, [], ◌∷◌, ◌++◌, ◌==◌,
  if◌then◌else◌, arith,
}
use kama_webserver.Lfu.FreqList.{Store}
use mathlib.Core.Path.{subst}

abbrev pub has : ℕ → List ℕ → Bool
has a [] = false
has a (x ∷ xs) = (a == x) || has a xs

abbrev pub erase : ℕ → List ℕ → List ℕ
erase a [] = []
erase a (x ∷ xs) = let rest = erase a xs in if x == a then xs else x ∷ rest

pub erase-here : (a x : ℕ) (xs : List ℕ) → (x == a) ≡ true → erase a (x ∷ xs) ≡ xs
erase-here a x xs h = ground (arith, h)

pub erase-later : (a x : ℕ) (xs : List ℕ) → (x == a) ≡ false → erase a (x ∷ xs) ≡ x ∷ erase a xs
erase-later a x xs h = ground (arith, h)

-- From `p` the pointers lead through the nodes to `t` and back.
abbrev pub Chain : Store → ℕ → List ℕ → ℕ → Type 0
Chain s p [] t = ((s p).next ≡ some t) × ((s t).pre ≡ some p)
Chain s p (a ∷ xs) t = ((s p).next ≡ some a) × ((s a).pre ≡ some p) × Chain s a xs t

-- All of them are different.
abbrev pub Distinct : ℕ → List ℕ → ℕ → Type 0
Distinct p [] t = (p == t) ≡ false
Distinct p (a ∷ xs) t = (has p (t ∷ a ∷ xs) ≡ false) × Distinct a xs t

abbrev pub last_of : ℕ → List ℕ → ℕ
last_of p [] = p
last_of p (a ∷ xs) = last_of a xs

pub Chain-last :
    (s : Store) (p : ℕ) (xs : List ℕ) (t : ℕ) → Chain s p xs t → (s t).pre ≡ some (last_of p xs)
Chain-last s p [] t c = c.1
Chain-last s p (a ∷ xs) t c = Chain-last s a xs t c.2

pub has-last : (p : ℕ) (xs : List ℕ) → has (last_of p xs) (p ∷ xs) ≡ true
has-last p [] = ground arith
has-last p (a ∷ xs) = ground (arith, has-last a xs)

pub has-other : (xs : List ℕ) (a b : ℕ) → has b xs ≡ true → has a xs ≡ false → (b == a) ≡ false
has-other [] a b h k = absurd (ground (arith, h))
has-other (x ∷ xs) a b h k = elim (Bool-cases (b == x)) [
  | inl here ↦ ground (arith, here, k)
  | inr later ↦ has-other xs a b (ground (arith, later, h)) (ground (arith, k))
]

pub Distinct-has : (p : ℕ) (xs : List ℕ) (t : ℕ) → Distinct p xs t → has p (t ∷ xs) ≡ false
Distinct-has p [] t d = ground (arith, d)
Distinct-has p (x ∷ xs) t d = d.0

pub Distinct-tail : (p : ℕ) (xs : List ℕ) (t : ℕ) → Distinct p xs t → has t (p ∷ xs) ≡ false
Distinct-tail p [] t d = ground (arith, d)
Distinct-tail p (x ∷ xs) t (apart, d) = ground (arith, apart, Distinct-tail x xs t d)

-- A chain survives what spares its pointers.
pub frame :
    (s s' : Store) (p : ℕ) (xs : List ℕ) (t : ℕ)
    → Chain s p xs t
    → ((b : ℕ) → has b (p ∷ xs) ≡ true → (s' b).next ≡ (s b).next)
    → ((b : ℕ) → has b (t ∷ xs) ≡ true → (s' b).pre ≡ (s b).pre)
    → Chain s' p xs t
frame s s' p [] t (n, e) nexts pres = (nexts p (ground arith) ∙ n, pres t (ground arith) ∙ e)
frame s s' p (a ∷ xs) t (n, e, c) nexts pres = (
  nexts p (ground arith) ∙ n,
  pres a (ground arith) ∙ e,
  frame s s' a xs t c (λ b h. nexts b (ground (arith, h))) (λ b h. pres b (ground (arith, h))),
)

-- The neighbours of a node of the chain.
pub has-pre :
    (s : Store) (p : ℕ) (xs : List ℕ) (t a u : ℕ)
    → Chain s p xs t
    → has a xs ≡ true
    → (s a).pre ≡ some u
    → has u (p ∷ xs) ≡ true
has-pre s p [] t a u c h eq = absurd (ground (arith, h))
has-pre s p (x ∷ xs) t a u (n, e, c) h eq = elim (Bool-cases (a == x)) [
  | inl here ↦ ground (arith, here, eq, e)
  | inr later ↦ ground (arith, has-pre s x xs t a u c (ground (arith, later, h)) eq)
]

pub has-next :
    (s : Store) (p : ℕ) (xs : List ℕ) (t a v : ℕ)
    → Chain s p xs t
    → has a xs ≡ true
    → (s a).next ≡ some v
    → has v (t ∷ xs) ≡ true
has-next s p [] t a v c h eq = absurd (ground (arith, h))
has-next s p (x ∷ []) t a v (n, e, c) h eq = ground (arith, h, eq, c)
has-next s p (x ∷ y ∷ ys) t a v (n, e, c) h eq = elim (Bool-cases (a == x)) [
  | inl here ↦ ground (arith, here, eq, c)
  | inr later ↦ ground (arith, has-next s x (y ∷ ys) t a v c (ground (arith, later, h)) eq)
]

-- A new last node.
pub snoc :
    (s s' : Store) (p : ℕ) (xs : List ℕ) (t a : ℕ)
    → Chain s p xs t
    → Distinct p xs t
    → (s' (last_of p xs)).next ≡ some a
    → (s' a).pre ≡ some (last_of p xs)
    → (s' a).next ≡ some t
    → (s' t).pre ≡ some a
    → ((b : ℕ) → has b (p ∷ xs) ≡ true → (b == last_of p xs) ≡ false → (s' b).next ≡ (s b).next)
    → ((b : ℕ) → has b xs ≡ true → (s' b).pre ≡ (s b).pre)
    → Chain s' p (xs ++ a ∷ []) t
snoc s s' p [] t a c d h1 h2 h3 h4 nexts pres = (h1, h2, (h3, h4))
snoc s s' p (x ∷ xs) t a (n, e, c) (apart, d) h1 h2 h3 h4 nexts pres = (
  nexts p (ground arith) (ground (arith, apart, has-last x xs)) ∙ n,
  pres x (ground arith) ∙ e,
  snoc s s' x xs t a c d h1 h2 h3 h4 (λ b h. nexts b (ground (arith, h)))
      (λ b h. pres b (ground (arith, h))),
)

-- A node is taken out, between its neighbours `u` and `v`.
pub cut :
    (s s' : Store) (p : ℕ) (xs : List ℕ) (t a u v : ℕ)
    → Chain s p xs t
    → Distinct p xs t
    → has a xs ≡ true
    → (s a).pre ≡ some u
    → (s a).next ≡ some v
    → (s' u).next ≡ some v
    → (s' v).pre ≡ some u
    → ((b : ℕ) → (b == u) ≡ false → (b == a) ≡ false → (s' b).next ≡ (s b).next)
    → ((b : ℕ) → (b == v) ≡ false → (b == a) ≡ false → (s' b).pre ≡ (s b).pre)
    → Chain s' p (erase a xs) t
cut s s' p [] t a u v c d h pre next h1 h2 nexts pres = absurd (ground (arith, h))
cut s s' p (x ∷ []) t a u v (n, e, c) (apart, d) h pre next h1 h2 nexts pres =
    ground (arith, h, pre, next, e, c, h1, h2)
cut s s' p (x ∷ y ∷ ys) t a u v (n, e, c) (apart, d) h pre next h1 h2 nexts pres =
    elim (Bool-cases (x == a)) [
      | inl here ↦
          let first : u ≡ p = ground (arith, here, pre, e) in
          let second : v ≡ y = ground (arith, here, next, c.0) in
          let same : x ≡ a = ground (arith, here) in
          let rest : Chain s' p (y ∷ ys) t = (
            ground (arith, first, second, h1),
            ground (arith, first, second, h2),
            frame s s' y ys t c.2
                (λ b k.
                  nexts b (ground (arith, first, has-other (y ∷ ys) p b k (ground (arith, apart))))
                    (ground (arith, same, has-other (y ∷ ys) x b k (ground (arith, d.0)))))
                (λ b k.
                  pres b
                    (ground (arith, second, has-other (t ∷ ys) y b k (Distinct-has y ys t d.1)))
                    (ground (arith, same, has-other (t ∷ ys) x b k (ground (arith, d.0))))),
          ) in
          subst (λ l. Chain s' p l t) (sym (erase-here a x (y ∷ ys) here)) rest
      | inr later ↦
          let member : has a (y ∷ ys) ≡ true = ground (arith, later, h) in
          let behind = has-pre s x (y ∷ ys) t a u c member pre in
          let ahead = has-next s x (y ∷ ys) t a v c member next in
          let rest : Chain s' p (x ∷ erase a (y ∷ ys)) t = (
            nexts p (ground (arith, has-other (x ∷ y ∷ ys) p u behind (ground (arith, apart))))
                  (ground (arith, has-other (y ∷ ys) p a member (ground (arith, apart))))
                ∙ n,
            pres x (ground (arith, has-other (t ∷ y ∷ ys) x v ahead d.0)) later ∙ e,
            cut s s' x (y ∷ ys) t a u v c d member pre next h1 h2 nexts pres,
          ) in
          subst (λ l. Chain s' p l t) (sym (erase-later a x (y ∷ ys) later)) rest
    ]

pub has-snoc :
    (b a : ℕ) (xs : List ℕ) → has b xs ≡ false → (b == a) ≡ false → has b (xs ++ a ∷ []) ≡ false
has-snoc b a [] h k = ground (arith, k)
has-snoc b a (x ∷ xs) h k = ground (arith, h, has-snoc b a xs (ground (arith, h)) k)

has-erase : (b a : ℕ) (xs : List ℕ) → has b xs ≡ false → has b (erase a xs) ≡ false
has-erase b a [] h = h
has-erase b a (x ∷ xs) h = ground (arith, h, has-erase b a xs (ground (arith, h)))

pub Distinct-snoc :
    (p : ℕ) (xs : List ℕ) (t a : ℕ)
    → Distinct p xs t
    → has a (p ∷ t ∷ xs) ≡ false
    → Distinct p (xs ++ a ∷ []) t
Distinct-snoc p [] t a d h = (ground (arith, d, h), ground (arith, h))
Distinct-snoc p (x ∷ xs) t a (apart, d) h = (
  ground (arith, apart, has-snoc p a (x ∷ xs) (ground (arith, apart)) (ground (arith, h))),
  Distinct-snoc x xs t a d (ground (arith, h)),
)

-- The first node of a list is as far from a node as the list.
Distinct-first :
    (p x : ℕ) (xs : List ℕ) (t : ℕ) → Distinct x xs t → has p (t ∷ x ∷ xs) ≡ false → Distinct p xs t
Distinct-first p x [] t d h = ground (arith, h)
Distinct-first p x (y ∷ ys) t (apart, d) h = (ground (arith, h), d)

pub Distinct-erase : (a p : ℕ) (xs : List ℕ) (t : ℕ) → Distinct p xs t → Distinct p (erase a xs) t
Distinct-erase a p [] t d = d
Distinct-erase a p (x ∷ xs) t (apart, d) = elim (Bool-cases (x == a)) [
  | inl here ↦
      subst (λ l. Distinct p l t) (sym (erase-here a x xs here)) (Distinct-first p x xs t d apart)
  | inr later ↦
      subst (λ l. Distinct p l t) (sym (erase-later a x xs later))
        (
          ground (
            arith,
            apart,
            has-erase p a (t ∷ x ∷ xs) apart,
            has-erase p a xs (ground (arith, apart)),
          ),
          Distinct-erase a x xs t d,
        )
]
