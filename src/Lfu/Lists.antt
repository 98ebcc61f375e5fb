-- ===== src/Lfu/Lists.antt =====
-- The frequency lists of the LFU cache under addNode and removeNode.
use kama_webserver.Prelude.{
  ℕ, ◌+◌, ◌-◌, ◌<◌, ◌≡◌, refl, Bool, true, false, Option, none, some, List, [], ◌∷◌, ◌==◌,
  if◌then◌else◌, arith,
}
use kama_webserver.Lfu.{
  Node, FreqLists, no_lists, remove_node, set_list, remove_from_freq_list, add_to_freq_list,
  has_nodes,
}
use kama_webserver.Lfu.Counting.{count, unit_at, count-remove, count-add, count-positive}

-- How often a key stands in the list of a frequency.
unfoldable pub held_in : Option (List ℕ) → ℕ → ℕ
held_in none k = 0
held_in (some ks) k = count k ks

abbrev pub held : FreqLists → ℕ → ℕ → ℕ
held ls k f = held_in (ls.list_of f) k

abbrev pub is_made : Option (List ℕ) → Bool
is_made none = false
is_made (some ks) = true

unfoldable pub is_among : ℕ → List ℕ → Bool
is_among f [] = false
is_among f (x ∷ xs) = let rest = is_among f xs in if x == f then true else rest

-- The frequencies with a list are known.
abbrev pub KnowsAll : FreqLists → Type 0
KnowsAll ls = (f : ℕ) → is_made (ls.list_of f) ≡ true → is_among f ls.known ≡ true

pub held-none : (k f : ℕ) → held no_lists k f ≡ 0
unfolding held_in
held-none k f = refl

-- A list with an entry is there and not empty.
pub held-has_nodes :
    (ks : Option (List ℕ)) (k : ℕ) → 0 < held_in ks k → (has_nodes ks ≡ true) × (is_made ks ≡ true)
unfolding held_in
held-has_nodes none k h = absurd (omega arith)
held-has_nodes (some []) k h = absurd (ground (arith, count-positive [] k h))
held-has_nodes (some (x ∷ xs)) k h = (refl, refl)

module _ (n : Node) (ls : FreqLists) where
  pub held-add : (k f : ℕ) → held (add_to_freq_list n ls) k f ≡ held ls k f + unit_at n k f
  unfolding held_in unit_at add_to_freq_list set_list count
  held-add k f = go (ls.list_of n.freq) refl
    where
      go :
          (o : Option (List ℕ))
          → ls.list_of n.freq ≡ o
          → held_in ((add_to_freq_list n ls).list_of f) k ≡ held ls k f + unit_at n k f
      go none h = ground (arith, h, count-add k n.key [])
      go (some ks) h = ground (arith, h, count-add k n.key ks)

  pub add-KnowsAll : KnowsAll ls → KnowsAll (add_to_freq_list n ls)
  unfolding is_among add_to_freq_list set_list
  add-KnowsAll all f made = ground (arith, made, all f)

  -- A node that is held can be taken out.
  pub remove_from_freq_list-held :
      0 < held ls n.key n.freq
      → (after : FreqLists) × (remove_from_freq_list n ls ≡ some after)
        × ((k f : ℕ) → held after k f ≡ held ls k f - unit_at n k f)
        × (KnowsAll ls → KnowsAll after)
  unfolding held_in unit_at remove_from_freq_list set_list
  remove_from_freq_list-held some_node = go (ls.list_of n.freq) refl
    where
      go :
          (o : Option (List ℕ))
          → ls.list_of n.freq ≡ o
          → (after : FreqLists) × (remove_from_freq_list n ls ≡ some after)
            × ((k f : ℕ) → held after k f ≡ held ls k f - unit_at n k f)
            × (KnowsAll ls → KnowsAll after)
      go none h = absurd (ground (arith, h, some_node))
      go (some ks) h = (
        record ls { list_of = set_list n.freq (remove_node n.key ks) ls.list_of },
        rw h refl,
        (λ k f. ground (arith, h, count-remove k n.key ks)),
        (λ all f made. ground (arith, made, h, all f)),
      )
