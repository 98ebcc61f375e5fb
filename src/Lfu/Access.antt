-- ===== src/Lfu/Access.antt =====
-- getInternal of the LFU cache.
use mathlib.Core.Path.{subst}
use kama_webserver.Prelude.{
  ℕ, ◌+◌, ◌-◌, ◌≤◌, ◌<◌, ◌≡◌, refl, ◌∙◌, ◌≢◌, inl, inr, Bool, Bool-cases, true, false, not, ◌&&◌,
  Option, some, List, [], ◌∷◌, ltb, ◌==◌, if◌then◌else◌, arith,
}
use kama_webserver.Lfu.{
  Node, FreqLists, KLfuCache, has_nodes, is_empty, find, update_node, next_freq, moved,
  get_internal, remove_from_freq_list, add_to_freq_list,
}
use kama_webserver.Lfu.Counting.{
  tally, unit_at, all_from, any_to, find-tally, tally-update, freq_sum-update, key_count-update,
  length-update, all_from-update, find-update,
}
use kama_webserver.Lfu.Lists.{
  held, held_in, KnowsAll, held-has_nodes, held-add, add-KnowsAll, remove_from_freq_list-held,
}
use kama_webserver.Lfu.Least.{all_from-tally, tally-all_from, any_to-tally, tally-any_to}
use kama_webserver.Lfu.Valid.{
  IsGood, HasLeast, IsValid, value_of, list-positive, add_freq_num-IsCounted,
}

unit-le :
    (ns : List Node) (n : Node) (k f : ℕ) → find ns n.key ≡ some n → unit_at n k f ≤ tally ns k f
unfolding find tally unit_at
unit-le [] n k f h = absurd (ground (arith, h))
unit-le (x ∷ xs) n k f h = ground (arith, h, unit-le xs n k f)

held-empty : (o : Option (List ℕ)) (k : ℕ) → has_nodes o ≡ false → held_in o k ≡ 0
held-empty o k h = elim (Bool-cases (ltb 0 (held_in o k))) [
  | inl some_entry ↦ absurd (ground (arith, h, some_entry, held-has_nodes o k))
  | inr no_entry ↦ ground (arith, no_entry)
]

pub find-nonempty :
    (ns : List Node) (key : ℕ) (n : Node) → find ns key ≡ some n → is_empty ns ≡ false
unfolding find
find-nonempty [] key n h = absurd (ground (arith, h))
find-nonempty (x ∷ xs) key n h = refl

-- An access to a node of a valid cache, with the value that it has from then on.
module _ (cap max : ℕ) (c : KLfuCache) (valid : IsValid cap max c) (n : Node) (v : ℕ)
    (found : find c.node_map n.key ≡ some n) (removed : FreqLists)
    (less : (k f : ℕ) → held removed k f ≡ held c.freq_lists k f - unit_at n k f)
    (knows : KnowsAll removed) where
  abbrev m : Node
  m = next_freq (record n { value = v })

  abbrev nodes : List Node
  nodes = update_node m c.node_map

  abbrev lists : FreqLists
  lists = add_to_freq_list m removed

  abbrev after : KLfuCache
  after = moved (record n { value = v }) removed c

  tally-nodes : (k f : ℕ) → tally nodes k f + unit_at n k f ≡ tally c.node_map k f + unit_at m k f
  tally-nodes k f = tally-update m n c.node_map k f found

  holds-after : (k f : ℕ) → held lists k f ≡ tally nodes k f
  holds-after k f = omega (
    arith,
    tally-nodes k f,
    less k f,
    held-add m removed k f,
    valid.good.holds k f,
    unit-le c.node_map n k f found,
  )

  some-after : 0 < tally nodes n.key (n.freq + 1)
  unfolding unit_at
  some-after = ground (arith, tally-nodes n.key (n.freq + 1))

  freq-least : c.min_freq ≤ n.freq
  freq-least =
      tally-all_from c.min_freq c.node_map n.key n.freq valid.min.least
        (find-tally n.key c.node_map n found)

  low-after : (k f : ℕ) → 0 < tally c.node_map k f → f ≤ 126 → any_to 127 nodes ≡ true
  unfolding unit_at
  low-after k f p q = elim (Bool-cases (ltb 0 (tally nodes k f))) [
    | inl stays ↦ tally-any_to 127 nodes k f (ground (arith, stays)) (omega arith)
    | inr goes ↦
        tally-any_to 127 nodes n.key (n.freq + 1) some-after
          (ground (arith, goes, tally-nodes k f, p, q))
  ]

  still-low : any_to 127 nodes ≡ true
  still-low =
      let (k, f, p, q) =
        any_to-tally 126 c.node_map (valid.good.low (find-nonempty c.node_map n.key n found)) in
      low-after k f p q

  moved-IsGood : IsGood cap max 1 127 after
  unfolding moved
  moved-IsGood = record {
    same_capacity = valid.good.same_capacity;
    same_max = valid.good.same_max;
    knows = add-KnowsAll m removed knows;
    holds = holds-after;
    once = λ k. omega (arith, key_count-update m c.node_map k, valid.good.once k);
    bounded = omega (arith, length-update m c.node_map, valid.good.bounded);
    covered = omega (arith, freq_sum-update m n c.node_map found, valid.good.covered);
    positive = all_from-update m 1 c.node_map (omega arith) valid.good.positive;
    low = λ h. still-low;
    min_positive = ground (arith, valid.good.min_positive);
  }

  -- The list of the minimum stays, or its only node was the one that moved on.
  stays-held : n.freq ≢ c.min_freq → has_nodes (lists.list_of c.min_freq) ≡ true
  unfolding unit_at
  stays-held other =
      let (k, p) =
        list-positive (c.freq_lists.list_of c.min_freq)
          (valid.min.least_held (find-nonempty c.node_map n.key n found)) in
      (held-has_nodes (lists.list_of c.min_freq) k
        (ground (arith, p, other, less k c.min_freq, held-add m removed k c.min_freq))).0

  least-after : all_from c.min_freq nodes ≡ true
  least-after = all_from-update m c.min_freq c.node_map (omega (arith, freq-least)) valid.min.least

  above-min : (k f : ℕ) → 0 < tally nodes k f → c.min_freq ≤ f
  above-min k f p = tally-all_from c.min_freq nodes k f least-after p

  above :
      has_nodes (lists.list_of n.freq) ≡ false
      → n.freq ≡ c.min_freq
      → (k f : ℕ) → 0 < tally nodes k f
      → n.freq + 1 ≤ f
  above gone same k f p =
      ground
        (arith, p, same, above-min k f p, holds-after k f, held-empty (lists.list_of n.freq) k gone)

  next-held : has_nodes (lists.list_of (n.freq + 1)) ≡ true
  next-held =
      (held-has_nodes (lists.list_of (n.freq + 1)) n.key
        (omega (arith, some-after, holds-after n.key (n.freq + 1)))).0

  abbrev goes_up : Bool
  goes_up = n.freq == c.min_freq && not (has_nodes (lists.list_of n.freq))

  up-same : goes_up ≡ true → (n.freq ≡ c.min_freq) × (has_nodes (lists.list_of n.freq) ≡ false)
  up-same up = (ground (arith, up), ground (arith, up))

  stays-has_nodes : goes_up ≡ false → has_nodes (lists.list_of c.min_freq) ≡ true
  stays-has_nodes stays = elim (Bool-cases (n.freq == c.min_freq)) [
    | inl same ↦ ground (arith, stays, same)
    | inr other ↦ stays-held (λ e. ground (arith, e, other))
  ]

  moved-HasLeast : HasLeast after
  unfolding moved
  moved-HasLeast = elim (Bool-cases goes_up) [
    | inl up ↦
        let (same, gone) = up-same up in
        simp up (record {
          least_held = λ h. subst (λ g. has_nodes (lists.list_of (g + 1)) ≡ true) same next-held;
          least =
              subst (λ g. all_from (g + 1) nodes ≡ true) same
                (all_from-tally (n.freq + 1) nodes (above gone same));
        })
    | inr stays ↦
        simp stays (record { least_held = λ h. stays-has_nodes stays; least = least-after })
  ]

  moved-value_of : (k : ℕ) → value_of after k ≡ (if n.key == k then some v else value_of c k)
  unfolding moved
  moved-value_of k = ground (arith, find-update m c.node_map n k found)

  moved-nonempty : is_empty after.node_map ≡ false
  unfolding moved
  moved-nonempty =
      find-nonempty nodes n.key m (ground (arith, find-update m c.node_map n n.key found))

remove-value :
    (n : Node) (v : ℕ) (ls : FreqLists)
    → remove_from_freq_list (record n { value = v }) ls ≡ remove_from_freq_list n ls
unfolding remove_from_freq_list
remove-value n v ls = refl

-- What an access comes to: the cache is valid, and the node has its value.
pub record IsAccessed (cap max : ℕ) (c : KLfuCache) (key v : ℕ) (r : Option KLfuCache)
    : Type 0 where
  pub after : KLfuCache
  pub result : r ≡ some after
  pub valid : IsValid cap max after
  pub values : (k : ℕ) → value_of after k ≡ (if key == k then some v else value_of c k)

pub get_internal-IsAccessed :
    (cap max : ℕ) (c : KLfuCache) (n : Node) (v : ℕ)
    → 1 < max
    → max < 127
    → IsValid cap max c
    → find c.node_map n.key ≡ some n
    → IsAccessed cap max c n.key v (get_internal (record n { value = v }) c)
unfolding get_internal
get_internal-IsAccessed cap max c n v small large valid found =
    let held_n : 0 < held c.freq_lists n.key n.freq =
      omega (arith, valid.good.holds n.key n.freq, find-tally n.key c.node_map n found) in
    let (removed, eq, less, knows) = remove_from_freq_list-held n c.freq_lists held_n in
    let d = moved (record n { value = v }) removed c in
    let good = moved-IsGood cap max c valid n v found removed less (knows valid.good.knows) in
    let least = moved-HasLeast cap max c valid n v found removed less (knows valid.good.knows) in
    let counted =
      add_freq_num-IsCounted cap max d good small large
        (moved-nonempty cap max c valid n v found removed less (knows valid.good.knows)) in
    record {
      after = counted.after;
      result = simp (remove-value n v c.freq_lists ∙ eq) counted.result;
      valid = record { good = counted.good; min = counted.min least };
      values = λ k.
          counted.kept.values k
          ∙ moved-value_of cap max c valid n v found removed less (knows valid.good.knows) k;
    }
