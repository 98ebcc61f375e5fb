-- ===== src/Lfu/FreqList/Runs.antt =====
-- include/LFU.h: any calls of addNode and removeNode on a new list, against the list of keys that the
-- cache is modelled with.
use kama_webserver.Prelude.{
  ℕ, ◌≡◌, refl, sym, ap, ◌∙◌, Bool-cases, inl, inr, true, false, Option, none, some, List, [], ◌∷◌,
  ◌++◌, ◌==◌, if◌then◌else◌, arith,
}
use mathlib.Core.Path.{subst}
use kama_webserver.Lfu
use kama_webserver.Lfu.FreqList.{
  Store, FreqList, set_pre, set_next, init, is_empty, get_first_node, points_to, add_node,
  remove_node,
}
use kama_webserver.Lfu.FreqList.Chain.{
  has, erase, erase-here, erase-later, has-snoc, has-other, Distinct-tail,
}
use kama_webserver.Lfu.FreqList.Linking.{
  IsList, SameData, SameData-trans, add_node_lem, remove_node_lem,
}

pub data Call : Type 0 where
  adds : ℕ → Call
  removes : ℕ → Call

unfoldable pub call : FreqList → Call → Store → Option Store
call l (adds a) s = add_node l (some a) s
call l (removes a) s = remove_node l (some a) s

unfoldable pub run : FreqList → List Call → Store → Option Store
run l [] s = some s
run l (c ∷ cs) s = elim (call l c s) [ none ↦ none | some s' ↦ run l cs s' ]

abbrev pub keys : Store → List ℕ → List ℕ
keys s [] = []
keys s (a ∷ xs) = (s a).key ∷ keys s xs

-- The same calls on a list of keys.
pub call_keys : Store → Call → List ℕ → List ℕ
call_keys s (adds a) ks = Lfu.add_node (s a).key ks
call_keys s (removes a) ks = Lfu.remove_node (s a).key ks

abbrev pub run_keys : Store → List Call → List ℕ → List ℕ
run_keys s [] ks = ks
run_keys s (c ∷ cs) ks = run_keys s cs (call_keys s c ks)

-- A node that is added is new, and so is its key; a node that is removed is in the list.
abbrev pub IsLegal : Store → FreqList → List Call → List ℕ → Type 0
IsLegal s l [] xs = Unit
IsLegal s l (adds a ∷ cs) xs =
    (has a (l.head ∷ l.tail ∷ xs) ≡ false)
    × (has (s a).key (keys s xs) ≡ false)
    × IsLegal s l cs (xs ++ a ∷ [])
IsLegal s l (removes a ∷ cs) xs = (has a xs ≡ true) × IsLegal s l cs (erase a xs)

Unique : List ℕ → Type 0
Unique [] = Unit
Unique (k ∷ ks) = (has k ks ≡ false) × Unique ks

Unique-nil : Unique []
unfolding Unique
Unique-nil = tt

Unique-snoc : (a : ℕ) (ks : List ℕ) → Unique ks → has a ks ≡ false → Unique (ks ++ a ∷ [])
unfolding Unique
Unique-snoc a [] u h = (refl, tt)
Unique-snoc a (k ∷ ks) (new, u) h =
    (has-snoc k a ks new (ground (arith, h)), Unique-snoc a ks u (ground (arith, h)))

keys-snoc :
    (s : Store) (xs : List ℕ) (a : ℕ) → keys s (xs ++ a ∷ []) ≡ Lfu.add_node (s a).key (keys s xs)
keys-snoc s [] a = refl
keys-snoc s (x ∷ xs) a = ap (λ ks. (s x).key ∷ ks) (keys-snoc s xs a)

has-keys : (s : Store) (a : ℕ) (xs : List ℕ) → has a xs ≡ true → has (s a).key (keys s xs) ≡ true
has-keys s a [] h = h
has-keys s a (x ∷ xs) h = elim (Bool-cases (a == x)) [
  | inl here ↦ let same : a ≡ x = ground (arith, here) in ground (arith, ap (λ b. (s b).key) same)
  | inr later ↦ ground (arith, has-keys s a xs (ground (arith, later, h)))
]

keys-erase :
    (s : Store) (a : ℕ) (xs : List ℕ)
    → Unique (keys s xs)
    → has a xs ≡ true
    → keys s (erase a xs) ≡ Lfu.remove_node (s a).key (keys s xs)
unfolding Unique Lfu.remove_node
keys-erase s a [] u h = absurd (ground (arith, h))
keys-erase s a (x ∷ xs) (new, u) h = elim (Bool-cases (x == a)) [
  | inl here ↦
      let same : x ≡ a = ground (arith, here) in
      ap (keys s) (erase-here a x xs here) ∙ ground (arith, ap (λ b. (s b).key) same)
  | inr later ↦
      let apart =
        has-other (keys s xs) (s x).key (s a).key (has-keys s a xs (ground (arith, later, h)))
          new in
      ap (keys s) (erase-later a x xs later)
      ∙ ground (arith, apart, keys-erase s a xs u (ground (arith, later, h)))
]

-- Removing keeps the keys different.
has-erased :
    (s : Store) (k a : ℕ) (xs : List ℕ)
    → has k (keys s xs) ≡ false
    → has k (keys s (erase a xs)) ≡ false
has-erased s k a [] h = h
has-erased s k a (x ∷ xs) h = elim (Bool-cases (x == a)) [
  | inl here ↦ ap (λ l. has k (keys s l)) (erase-here a x xs here) ∙ ground (arith, h)
  | inr later ↦
      ap (λ l. has k (keys s l)) (erase-later a x xs later)
      ∙ ground (arith, h, has-erased s k a xs (ground (arith, h)))
]

Unique-erase : (s : Store) (a : ℕ) (xs : List ℕ) → Unique (keys s xs) → Unique (keys s (erase a xs))
unfolding Unique
Unique-erase s a [] u = u
Unique-erase s a (x ∷ xs) (new, u) = elim (Bool-cases (x == a)) [
  | inl here ↦ subst (λ l. Unique (keys s l)) (sym (erase-here a x xs here)) u
  | inr later ↦
      subst (λ l. Unique (keys s l)) (sym (erase-later a x xs later))
        (has-erased s (s x).key a xs new, Unique-erase s a xs u)
]

-- What a run leaves: the list of the nodes `xs`, whose keys are those in `s0`.
abbrev IsLinked : Store → FreqList → List ℕ → Store → Type 0
IsLinked s0 l xs s = IsList l xs s × SameData s0 s × Unique (keys s0 xs)

call_lem :
    (s0 : Store) (l : FreqList) (c : Call) (cs : List Call) (xs : List ℕ) (s : Store)
    → IsLinked s0 l xs s
    → IsLegal s0 l (c ∷ cs) xs
    → (s' : Store) × (xs' : List ℕ) × (call l c s ≡ some s')
      × IsLinked s0 l xs' s'
      × (keys s0 xs' ≡ call_keys s0 c (keys s0 xs))
      × IsLegal s0 l cs xs'
unfolding call call_keys
call_lem s0 l (adds a) cs xs s (list, kept, u) (new, new_key, legal) =
    let (s', eq, list', kept') = add_node_lem l xs a s list new in
    (
      s',
      xs ++ a ∷ [],
      eq,
      (
        list',
        SameData-trans s0 s s' kept kept',
        subst Unique (sym (keys-snoc s0 xs a)) (Unique-snoc (s0 a).key (keys s0 xs) u new_key),
      ),
      keys-snoc s0 xs a,
      legal,
    )
call_lem s0 l (removes a) cs xs s (list, kept, u) (member, legal) =
    let (s', eq, list', kept', no_pre, no_next) = remove_node_lem l xs a s list member in
    (
      s',
      erase a xs,
      eq,
      (list', SameData-trans s0 s s' kept kept', Unique-erase s0 a xs u),
      keys-erase s0 a xs u member,
      legal,
    )

run_lem :
    (s0 : Store) (l : FreqList) (cs : List Call) (xs : List ℕ) (s : Store)
    → IsLinked s0 l xs s
    → IsLegal s0 l cs xs
    → (s' : Store) × (xs' : List ℕ) × (run l cs s ≡ some s')
      × IsLinked s0 l xs' s'
      × (keys s0 xs' ≡ run_keys s0 cs (keys s0 xs))
unfolding run
run_lem s0 l [] xs s linked legal = (s, xs, refl, linked, refl)
run_lem s0 l (c ∷ cs) xs s linked legal =
    let (s1, xs1, eq, linked1, keys1, legal1) = call_lem s0 l c cs xs s linked legal in
    let (s2, xs2, eq2, linked2, keys2) = run_lem s0 l cs xs1 s1 linked1 legal1 in
    (s2, xs2, (rw (run, eq) eq2), linked2, keys2 ∙ ap (run_keys s0 cs) keys1)

keys-same : (s s' : Store) → SameData s s' → (xs : List ℕ) → keys s' xs ≡ keys s xs
keys-same s s' kept [] = refl
keys-same s s' kept (x ∷ xs) = grind (arith, kept x, keys-same s s' kept xs)

init-IsList :
    (freq head tail : ℕ) (s : Store)
    → (head == tail) ≡ false
    → IsList (init freq head tail s).0 [] (init freq head tail s).1
unfolding init set_pre set_next
init-IsList freq head tail s apart = (apart, (ground (arith, apart), ground (arith, apart)))

-- The key of the first node, when the list has one.
unfoldable pub front : FreqList → Store → Option ℕ
front l s = elim (get_first_node l s) [
  | none ↦ none
  | some a ↦ if is_empty l s then none else some (s a).key
]

pub first : List ℕ → Option ℕ
first [] = none
first (k ∷ ks) = some k

front_lem :
    (l : FreqList) (xs : List ℕ) (s : Store)
    → IsList l xs s
    → (front l s ≡ first (keys s xs)) × (is_empty l s ≡ Lfu.is_empty (keys s xs))
unfolding front first is_empty get_first_node points_to
front_lem l [] s (d, c) = (
  rw (front, is_empty, get_first_node, points_to, c.0) ground arith,
  rw (is_empty, c.0) ground arith,
)
front_lem l (x ∷ xs) s (d, c) = (
  rw (front, is_empty, get_first_node, points_to, c.0) ground
      (arith, Distinct-tail l.head (x ∷ xs) l.tail d),
  rw (is_empty, c.0) ground (arith, Distinct-tail l.head (x ∷ xs) l.tail d),
)

-- Any calls of addNode and removeNode on a new list whose dummy nodes differ succeed, when an added node
-- is neither linked nor a dummy and has a new key, and a removed node is linked: then the pointers lead
-- in both directions through nodes with the keys that the same calls give on a list of keys, isEmpty and
-- getFirstNode answer as on that list, and no node lost its key, its value or its frequency.
pub run-init-IsLinked :
    (freq head tail : ℕ) (s : Store) (cs : List Call)
    → (head == tail) ≡ false
    → IsLegal (init freq head tail s).1 (init freq head tail s).0 cs []
    → (s' : Store) × (xs : List ℕ) × (run (init freq head tail s).0 cs (init freq head tail s).1
        ≡ some s')
      × IsList (init freq head tail s).0 xs s'
      × SameData (init freq head tail s).1 s'
      × (keys s' xs ≡ run_keys (init freq head tail s).1 cs [])
      × (front (init freq head tail s).0 s' ≡ first (run_keys (init freq head tail s).1 cs []))
      × (is_empty (init freq head tail s).0 s'
          ≡ Lfu.is_empty (run_keys (init freq head tail s).1 cs []))
run-init-IsLinked freq head tail s cs apart legal =
    let l = (init freq head tail s).0 in
    let s0 = (init freq head tail s).1 in
    let (s', xs, eq, (list, kept, u), same) =
      run_lem s0 l cs [] s0
        (init-IsList freq head tail s apart, (λ b. (refl, refl, refl)), Unique-nil) legal in
    let same' = keys-same s0 s' kept xs ∙ same in
    let (at_front, at_end) = front_lem l xs s' list in
    (s', xs, eq, list, kept, same', at_front ∙ ap first same', at_end ∙ ap Lfu.is_empty same')
