-- ===== src/Lfu/Eviction.antt =====
-- kickOut of the LFU cache.
use mathlib.Core.Path.{subst₂}
use kama_webserver.Prelude.{
  ℕ, ◌+◌, ◌-◌, ◌≤◌, ◌<◌, ◌≡◌, refl, sym, ap, ◌∙◌, inl, inr, Bool-cases, true, false, Option, none,
  some, List, [], ◌∷◌, length, ◌==◌, if◌then◌else◌, arith,
}
use kama_webserver.Lfu.{
  Node, FreqLists, KLfuCache, has_nodes, ◌>>=◌, is_empty, find, erase, kick_out, decrease_freq_num,
  remove_from_freq_list,
}
use kama_webserver.Lfu.Counting.{
  count-head, unit_at, key_count, freq_sum, all_from, any_to, find-tally, find-key, find-freq,
  tally-le, tally-erase, freq_sum-erase, length-erase, key_count-erase, all_from-erase,
}
use kama_webserver.Lfu.Lists.{held, held_in, KnowsAll, remove_from_freq_list-held}
use kama_webserver.Lfu.Valid.{IsGood, IsValid, value_of}

any_to-sum : (ns : List Node) → is_empty ns ≡ false → any_to (freq_sum ns) ns ≡ true
unfolding any_to freq_sum
any_to-sum [] h = absurd (ground (arith, h))
any_to-sum (n ∷ ns) h = ground arith

find-count : (ns : List Node) (k : ℕ) (n : Node) → find ns k ≡ some n → 0 < key_count ns k
find-count ns k n h = omega (arith, find-tally k ns n h, tally-le k ns n.freq)

count-find : (ns : List Node) (k : ℕ) → key_count ns k ≡ 0 → find ns k ≡ none
unfolding find key_count
count-find [] k h = refl
count-find (n ∷ ns) k h = ground (arith, h, count-find ns k)

-- The values of the other keys.
find-erase_ne :
    (ns : List Node) (key k : ℕ) → (key == k) ≡ false → find (erase ns key) k ≡ find ns k
unfolding find erase
find-erase_ne [] key k h = refl
find-erase_ne (n ∷ ns) key k h = ground (arith, h, find-erase_ne ns key k)

-- The outcome of kickOut: the victim stood first in the list of the least frequency, no node has a
-- smaller one, and only the victim is gone.
pub record IsEvicted (cap max : ℕ) (c : KLfuCache) (r : Option KLfuCache) : Type 0 where
  pub after : KLfuCache
  pub result : r ≡ some after
  pub victim : Node
  pub keys : List ℕ
  pub was_first : c.freq_lists.list_of c.min_freq ≡ some (victim.key ∷ keys)
  pub was_in : find c.node_map victim.key ≡ some victim
  pub was_least : all_from victim.freq c.node_map ≡ true
  pub size : length after.node_map + 1 ≡ length c.node_map
  pub values : (k : ℕ) → value_of after k ≡ (if victim.key == k then none else value_of c k)
  pub counts : (k : ℕ) → key_count after.node_map k ≤ key_count c.node_map k
  pub good : IsGood cap max 0 (freq_sum after.node_map) after

module _ (cap max : ℕ) (c : KLfuCache) (valid : IsValid cap max c) (key : ℕ) (keys : List ℕ)
    (first : c.freq_lists.list_of c.min_freq ≡ some (key ∷ keys)) where
  key-held : 0 < held c.freq_lists key c.min_freq
  unfolding held_in
  key-held = ground (arith, first, count-head key keys)

  module _ (n : Node) (found : find c.node_map key ≡ some n) (at_min : n.freq ≡ c.min_freq)
      (removed : FreqLists) (eq : remove_from_freq_list n c.freq_lists ≡ some removed)
      (less : (k f : ℕ) → held removed k f ≡ held c.freq_lists k f - unit_at n k f)
      (knows : KnowsAll removed) where
    abbrev after : KLfuCache
    after =
        decrease_freq_num n.freq
          (record c { node_map = erase c.node_map key; freq_lists = removed })

    evicted-IsGood : IsGood cap max 0 (freq_sum (erase c.node_map key)) after
    unfolding decrease_freq_num
    evicted-IsGood = record {
      same_capacity = valid.good.same_capacity;
      same_max = valid.good.same_max;
      knows = knows;
      holds = λ k f.
          omega (arith, less k f, valid.good.holds k f, tally-erase key n c.node_map k f found);
      once = λ k. omega (arith, key_count-erase key n c.node_map k found, valid.good.once k);
      bounded = omega (arith, length-erase key n c.node_map found, valid.good.bounded);
      covered = omega (arith, freq_sum-erase key n c.node_map found, valid.good.covered);
      positive = all_from-erase key n 1 c.node_map valid.good.positive;
      low = any_to-sum (erase c.node_map key);
      min_positive = valid.good.min_positive;
    }

    evicted-value_of : (k : ℕ) → value_of after k ≡ (if key == k then none else value_of c k)
    unfolding decrease_freq_num
    evicted-value_of k = elim (Bool-cases (key == k)) [
      | inl same ↦ ground (
        arith,
        same,
        count-find (erase c.node_map key) key
            (ground (arith, key_count-erase key n c.node_map key found, valid.good.once key)),
      )
      | inr other ↦ ground (arith, other, find-erase_ne c.node_map key k other)
    ]

    evicted : IsEvicted cap max c (some after)
    unfolding decrease_freq_num
    evicted =
        let same_key : n.key ≡ key = find-key key c.node_map n found in
        record {
          after = after;
          result = refl;
          victim = n;
          keys = keys;
          was_first = ground (arith, first, same_key);
          was_in = ap (find c.node_map) same_key ∙ found;
          was_least = rw at_min valid.min.least;
          size = length-erase key n c.node_map found;
          values = λ k. simp same_key (evicted-value_of k);
          counts = λ k. omega (arith, key_count-erase key n c.node_map k found);
          good = evicted-IsGood;
        }

-- If the cache is valid and not empty, kickOut is defined; it removes exactly one node, which stood
-- first in its list and has the least frequency of all, and keeps the values of all other keys.
pub kick_out_lem :
    (cap max : ℕ) (c : KLfuCache)
    → IsValid cap max c
    → is_empty c.node_map ≡ false
    → IsEvicted cap max c (kick_out c)
unfolding kick_out
kick_out_lem cap max c valid some_node =
    go (c.freq_lists.list_of c.min_freq) refl (valid.min.least_held some_node)
  where
    go :
        (o : Option (List ℕ))
        → c.freq_lists.list_of c.min_freq ≡ o
        → has_nodes o ≡ true
        → IsEvicted cap max c (elim o [
          | none ↦ none
          | some [] ↦ none
          | some (key ∷ keys) ↦
              (find c.node_map key >>= (λ node.
                remove_from_freq_list node c.freq_lists >>= (λ removed. some (
                  decrease_freq_num node.freq
                    (record c { node_map = erase c.node_map key; freq_lists = removed })))))
        ])
    go none eq has = absurd (ground (arith, has))
    go (some []) eq has = absurd (ground (arith, has))
    go (some (key ∷ keys)) eq has =
        let held_key = key-held cap max c valid key keys eq in
        let (n, found, at_min) =
          find-freq key c.node_map c.min_freq (valid.good.once key)
            (omega (arith, held_key, valid.good.holds key c.min_freq)) in
        let (removed, eq', less, knows) = remove_from_freq_list-held n c.freq_lists (
          subst₂ (λ k f. 0 < held c.freq_lists k f) (sym (find-key key c.node_map n found))
            (sym at_min) held_key) in
        simp (found, eq')
          (evicted cap max c valid key keys eq n found at_min removed eq' less
            (knows valid.good.knows))
