-- ===== src/Lfu/FreqList/Linking.antt =====
-- include/LFU.h: addNode and removeNode against an append and an erasure.
use kama_webserver.Prelude.{
  ℕ, ◌≡◌, refl, ap, ◌∙◌, Bool-cases, inl, inr, true, false, Option, none, some, List, [], ◌∷◌, ◌++◌,
  ◌==◌, if◌then◌else◌, arith,
}
use mathlib.Core.Path.{subst}
use kama_webserver.Lfu.FreqList.{
  Store, FreqList, set_pre, set_next, store_next, store_pre, link_last, add_node, unlink, is_null,
  remove_node,
}
use kama_webserver.Lfu.FreqList.Chain.{
  has, erase, Chain, Distinct, last_of, Chain-last, has-last, snoc, cut, Distinct-tail, has-other,
  Distinct-snoc, Distinct-erase,
}

abbrev pub IsList : FreqList → List ℕ → Store → Type 0
IsList l xs s = Distinct l.head xs l.tail × Chain s l.head xs l.tail

-- What a node keeps while it is linked.
abbrev pub SameData : Store → Store → Type 0
SameData s s' =
    (b : ℕ) → ((s' b).freq ≡ (s b).freq) × ((s' b).key ≡ (s b).key) × ((s' b).value ≡ (s b).value)

set_pre-pre :
    (a : ℕ) (p : Option ℕ) (s : Store) (b : ℕ)
    → (set_pre a p s b).pre ≡ (if a == b then p else (s b).pre)
unfolding set_pre
set_pre-pre a p s b = ground arith

set_pre-next : (a : ℕ) (p : Option ℕ) (s : Store) (b : ℕ) → (set_pre a p s b).next ≡ (s b).next
unfolding set_pre
set_pre-next a p s b = ground arith

set_next-next :
    (a : ℕ) (n : Option ℕ) (s : Store) (b : ℕ)
    → (set_next a n s b).next ≡ (if a == b then n else (s b).next)
unfolding set_next
set_next-next a n s b = ground arith

set_next-pre : (a : ℕ) (n : Option ℕ) (s : Store) (b : ℕ) → (set_next a n s b).pre ≡ (s b).pre
unfolding set_next
set_next-pre a n s b = ground arith

set_pre-SameData :
    (a : ℕ) (p : Option ℕ) (s0 s : Store) → SameData s0 s → SameData s0 (set_pre a p s)
unfolding set_pre
set_pre-SameData a p s0 s d b = (ground (arith, d b), ground (arith, d b), ground (arith, d b))

set_next-SameData :
    (a : ℕ) (n : Option ℕ) (s0 s : Store) → SameData s0 s → SameData s0 (set_next a n s)
unfolding set_next
set_next-SameData a n s0 s d b = (ground (arith, d b), ground (arith, d b), ground (arith, d b))

-- The store after `addNode` behind the last node `p`.
linked : Store → ℕ → ℕ → ℕ → Store
linked s p t a =
    set_pre t (some a) (set_next p (some a) (set_next a (some t) (set_pre a (some p) s)))

linked-next :
    (s : Store) (p t a b : ℕ)
    → (linked s p t a b).next ≡ (if p == b then some a else if a == b then some t else (s b).next)
unfolding linked
linked-next s p t a b = grind (arith, set_pre-next, set_next-next)

linked-pre :
    (s : Store) (p t a b : ℕ)
    → (linked s p t a b).pre ≡ (if t == b then some a else if a == b then some p else (s b).pre)
unfolding linked
linked-pre s p t a b = grind (arith, set_pre-pre, set_next-pre)

link_last-some :
    (l : FreqList) (a p : ℕ) (s : Store)
    → (s l.tail).pre ≡ some p
    → link_last l a s ≡ some (set_pre l.tail (some a) (set_next p (some a) s))
unfolding link_last store_next
link_last-some l a p s last = rw (link_last, last) refl

add_node-linked :
    (l : FreqList) (a p : ℕ) (s : Store)
    → (s l.tail).pre ≡ some p
    → (a == l.tail) ≡ false
    → add_node l (some a) s ≡ some (linked s p l.tail a)
unfolding add_node linked
add_node-linked l a p s last apart =
    let s1 = set_next a (some l.tail) (set_pre a (s l.tail).pre s) in
    let kept : (s1 l.tail).pre ≡ some p = ground (
      arith,
      apart,
      last,
      set_next-pre a (some l.tail) (set_pre a (s l.tail).pre s) l.tail,
      set_pre-pre a (s l.tail).pre s l.tail,
    ) in
    link_last-some l a p s1 kept
    ∙ ap
        (λ v. some (
          set_pre l.tail (some a) (set_next p (some a) (set_next a (some l.tail) (set_pre a v s)))))
        last

linked-Chain :
    (s : Store) (p : ℕ) (xs : List ℕ) (t a : ℕ)
    → Chain s p xs t
    → Distinct p xs t
    → has a (p ∷ t ∷ xs) ≡ false
    → Chain (linked s (last_of p xs) t a) p (xs ++ a ∷ []) t
linked-Chain s p xs t a c d new =
    let q = last_of p xs in
    let member = has-last p xs in
    let fresh : (q == a) ≡ false = has-other (p ∷ xs) a q member (ground (arith, new)) in
    let apart : (t == a) ≡ false = ground (arith, new) in
    snoc s (linked s q t a) p xs t a c d (ground (arith, linked-next s q t a q))
      (ground (arith, apart, linked-pre s q t a a)) (ground (arith, fresh, linked-next s q t a a))
      (ground (arith, linked-pre s q t a t))
      (λ b h k.
        ground (arith, k, linked-next s q t a b, has-other (p ∷ xs) a b h (ground (arith, new))))
      (λ b h. ground (
        arith,
        linked-pre s q t a b,
        has-other xs t b h (ground (arith, Distinct-tail p xs t d)),
        has-other xs a b h (ground (arith, new)),
      ))

linked-SameData : (s : Store) (p t a : ℕ) → SameData s (linked s p t a)
unfolding linked
linked-SameData s p t a =
    set_pre-SameData t (some a) s (set_next p (some a) (set_next a (some t) (set_pre a (some p) s)))
      (set_next-SameData p (some a) s (set_next a (some t) (set_pre a (some p) s)) (
        set_next-SameData a (some t) s (set_pre a (some p) s)
          (set_pre-SameData a (some p) s s (λ b. (refl, refl, refl)))))

pub SameData-trans : (s s' s'' : Store) → SameData s s' → SameData s' s'' → SameData s s''
SameData-trans s s' s'' d d' b = ((d' b).0 ∙ (d b).0, (d' b).1 ∙ (d b).1, (d' b).2 ∙ (d b).2)

-- `addNode` makes a new node the last.
pub add_node_lem :
    (l : FreqList) (xs : List ℕ) (a : ℕ) (s : Store)
    → IsList l xs s
    → has a (l.head ∷ l.tail ∷ xs) ≡ false
    → (s' : Store) × (add_node l (some a) s ≡ some s') × IsList l (xs ++ a ∷ []) s' × SameData s s'
add_node_lem l xs a s (d, c) new =
    let p = last_of l.head xs in
    (
      linked s p l.tail a,
      add_node-linked l a p s (Chain-last s l.head xs l.tail c) (ground (arith, new)),
      (Distinct-snoc l.head xs l.tail a d new, linked-Chain s l.head xs l.tail a c d new),
      linked-SameData s p l.tail a,
    )

-- The store after `removeNode` between `u` and `v`.
unlinked : Store → ℕ → ℕ → ℕ → Store
unlinked s u v a = set_next a none (set_pre a none (set_pre v (some u) (set_next u (some v) s)))

unlinked-next :
    (s : Store) (u v a b : ℕ)
    → (unlinked s u v a b).next ≡ (if a == b then none else if u == b then some v else (s b).next)
unfolding unlinked
unlinked-next s u v a b = grind (arith, set_pre-next, set_next-next)

unlinked-pre :
    (s : Store) (u v a b : ℕ)
    → (unlinked s u v a b).pre ≡ (if a == b then none else if v == b then some u else (s b).pre)
unfolding unlinked
unlinked-pre s u v a b = grind (arith, set_pre-pre, set_next-pre)

unlink-second :
    (s1 : Store) (v a u : ℕ)
    → (s1 a).next ≡ some v
    → (s1 a).pre ≡ some u
    → store_pre (s1 a).next (s1 a).pre s1 ≡ some (set_pre v (some u) s1)
unfolding store_pre
unlink-second s1 v a u next pre = rw (next, pre) refl

unlink-first :
    (s : Store) (u v a : ℕ)
    → (s a).pre ≡ some u
    → (s a).next ≡ some v
    → store_next (s a).pre (s a).next s ≡ some (set_next u (some v) s)
unfolding store_next
unlink-first s u v a pre next = rw (pre, next) refl

unlink-unlinked :
    (s : Store) (u v a : ℕ)
    → (s a).pre ≡ some u
    → (s a).next ≡ some v
    → (u == a) ≡ false
    → unlink a s ≡ some (unlinked s u v a)
unfolding unlink store_next unlinked
unlink-unlinked s u v a pre next apart =
    let s1 = set_next u (some v) s in
    let kept : (s1 a).next ≡ some v = ground (arith, apart, next, set_next-next u (some v) s a) in
    let kept_pre : (s1 a).pre ≡ some u = ground (arith, pre, set_next-pre u (some v) s a) in
    rw (unlink, unlink-first s u v a pre next, unlink-second s1 v a u kept kept_pre) refl

-- The neighbours of a node of the list are not the node.
abbrev Neighbours : Store → ℕ → Type 0
Neighbours s a =
    (u : ℕ) × (v : ℕ) × ((s a).pre ≡ some u)
    × ((s a).next ≡ some v)
    × ((u == a) ≡ false)
    × ((v == a) ≡ false)

Neighbours-same : (s : Store) (x a : ℕ) → (x == a) ≡ true → Neighbours s x → Neighbours s a
Neighbours-same s x a same n = subst (Neighbours s) (ground (arith, same)) n

has-Neighbours :
    (s : Store) (p : ℕ) (xs : List ℕ) (t a : ℕ)
    → Chain s p xs t
    → Distinct p xs t
    → has a xs ≡ true
    → Neighbours s a
has-Neighbours s p [] t a c d h = absurd (ground (arith, h))
has-Neighbours s p (x ∷ []) t a (n, e, c) (apart, d) h =
    Neighbours-same s x a (ground (arith, h))
      (p, t, e, c.0, ground (arith, apart), ground (arith, d))
has-Neighbours s p (x ∷ y ∷ ys) t a (n, e, c) (apart, d) h = elim (Bool-cases (x == a)) [
  | inl here ↦ Neighbours-same s x a here (p, y, e, c.0, ground (arith, apart), ground (arith, d.0))
  | inr later ↦ has-Neighbours s x (y ∷ ys) t a c d (ground (arith, later, h))
]

remove_node-unlink :
    (l : FreqList) (a u v : ℕ) (s : Store)
    → (s a).pre ≡ some u
    → (s a).next ≡ some v
    → remove_node l (some a) s ≡ unlink a s
unfolding remove_node is_null
remove_node-unlink l a u v s pre next = rw (remove_node, pre, next) refl

unlinked-SameData : (s : Store) (u v a : ℕ) → SameData s (unlinked s u v a)
unfolding unlinked
unlinked-SameData s u v a =
    set_next-SameData a none s (set_pre a none (set_pre v (some u) (set_next u (some v) s))) (
      set_pre-SameData a none s (set_pre v (some u) (set_next u (some v) s)) (
        set_pre-SameData v (some u) s (set_next u (some v) s)
          (set_next-SameData u (some v) s s (λ b. (refl, refl, refl)))))

-- `removeNode` takes a node of the list out, and clears its pointers.
pub remove_node_lem :
    (l : FreqList) (xs : List ℕ) (a : ℕ) (s : Store)
    → IsList l xs s
    → has a xs ≡ true
    → (s' : Store) × (remove_node l (some a) s ≡ some s')
      × IsList l (erase a xs) s'
      × SameData s s'
      × ((s' a).pre ≡ none)
      × ((s' a).next ≡ none)
remove_node_lem l xs a s (d, c) member =
    let (u, v, pre, next, before, behind) = has-Neighbours s l.head xs l.tail a c d member in
    (
      unlinked s u v a,
      remove_node-unlink l a u v s pre next ∙ unlink-unlinked s u v a pre next before,
      (
        Distinct-erase a l.head xs l.tail d,
        cut s (unlinked s u v a) l.head xs l.tail a u v c d member pre next
            (ground (arith, before, unlinked-next s u v a u))
            (ground (arith, behind, unlinked-pre s u v a v))
            (λ b h k. ground (arith, h, k, unlinked-next s u v a b))
            (λ b h k. ground (arith, h, k, unlinked-pre s u v a b)),
      ),
      unlinked-SameData s u v a,
      ground (arith, unlinked-pre s u v a a),
      ground (arith, unlinked-next s u v a a),
    )
