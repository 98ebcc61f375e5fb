-- ===== src/Lfu/Valid.antt =====
-- The invariant of the LFU cache, and addFreqNum.
use mathlib.Core.Option
use kama_webserver.Prelude.{
  ℕ, ◌+◌, ◌/◌, ◌≤◌, ◌<◌, ◌≡◌, refl, ap, inl, inr, Bool-cases, true, false, Option, none, some, List,
  [], ◌∷◌, length, ltb, arith,
}
use kama_webserver.Lfu.{
  Node, FreqLists, KLfuCache, has_nodes, is_empty, find, smallest, update_min_freq, average,
  add_freq_num, handle_over_max_average_num,
}
use kama_webserver.Lfu.Counting.{count-head, tally, unit_at, key_count, freq_sum, all_from, any_to}
use kama_webserver.Lfu.Lists.{held, held_in, KnowsAll}
use kama_webserver.Lfu.Lowering.{
  lowered_all, lower_all-held, key_count-lowered, length-lowered, freq_sum-lowered,
  all_from-lowered, any_to-lowered, find-lowered, find-lowered_none,
}
use kama_webserver.Lfu.Least.{average-any_to, least-all_from, least-has_nodes, tally-all_from}

-- All but the minimum: the lists hold each node once, at its frequency; there are no more nodes than
-- the capacity allows; the total is at least the sum of the frequencies, up to the given excess; and
-- some frequency is at most the given bound.
pub record IsGood (capacity max_average excess bound : ℕ) (c : KLfuCache) : Type 0 where
  pub same_capacity : c.capacity ≡ capacity
  pub same_max : c.max_average_num ≡ max_average
  pub knows : KnowsAll c.freq_lists
  pub holds : (k f : ℕ) → held c.freq_lists k f ≡ tally c.node_map k f
  pub once : (k : ℕ) → key_count c.node_map k ≤ 1
  pub bounded : length c.node_map ≤ capacity
  pub covered : freq_sum c.node_map ≤ c.cur_total_num + excess
  pub positive : all_from 1 c.node_map ≡ true
  pub low : is_empty c.node_map ≡ false → any_to bound c.node_map ≡ true
  pub min_positive : 0 < c.min_freq

-- The minimum: its list has a node, and no node has a smaller frequency.
pub record HasLeast (c : KLfuCache) : Type 0 where
  pub least_held : is_empty c.node_map ≡ false → has_nodes (c.freq_lists.list_of c.min_freq) ≡ true
  pub least : all_from c.min_freq c.node_map ≡ true

pub record IsValid (capacity max_average : ℕ) (c : KLfuCache) : Type 0 where
  pub good : IsGood capacity max_average 0 126 c
  pub min : HasLeast c

abbrev pub value_of : KLfuCache → ℕ → Option ℕ
value_of c k = Option.map (λ n. n.value) (find c.node_map k)

pub value-nonempty : (c : KLfuCache) (k v : ℕ) → value_of c k ≡ some v → is_empty c.node_map ≡ false
unfolding find
value-nonempty c k v h = go c.node_map h
  where
    go :
        (ns : List Node)
        → Option.map (λ (n : Node). n.value) (find ns k) ≡ some v
        → is_empty ns ≡ false
    go [] e = absurd (ground (arith, e))
    go (n ∷ ns) e = refl

-- What counting an access leaves as it is.
pub record IsKept (c d : KLfuCache) : Type 0 where
  pub values : (k : ℕ) → value_of d k ≡ value_of c k
  pub ones : (k : ℕ) → 0 < tally c.node_map k 1 → 0 < tally d.node_map k 1
  pub size : length d.node_map ≡ length c.node_map

pub list-positive : (o : Option (List ℕ)) → has_nodes o ≡ true → (k : ℕ) × (0 < held_in o k)
unfolding held_in
list-positive none h = absurd (ground (arith, h))
list-positive (some []) h = absurd (ground (arith, h))
list-positive (some (x ∷ xs)) h = (x, count-head x xs)

value-lowered :
    (half : ℕ) (ns : List Node) (k : ℕ)
    → Option.map (λ (n : Node). n.value) (find (lowered_all half ns) k)
      ≡ Option.map (λ (n : Node). n.value) (find ns k)
value-lowered half ns k = go (find ns k) refl
  where
    go :
        (o : Option Node)
        → find ns k ≡ o
        → Option.map (λ (n : Node). n.value) (find (lowered_all half ns) k)
          ≡ Option.map (λ (n : Node). n.value) (find ns k)
    go none h = rw (h, find-lowered_none half ns k h) refl
    go (some n) h = rw (h, find-lowered half ns k n h) refl

ones-lowered :
    (half : ℕ) (ns : List Node) (k : ℕ) → 0 < tally ns k 1 → 0 < tally (lowered_all half ns) k 1
unfolding tally unit_at
ones-lowered half [] k h = h
ones-lowered half (n ∷ ns) k h = ground (arith, h, ones-lowered half ns k)

empty-lowered : (half : ℕ) (ns : List Node) → is_empty (lowered_all half ns) ≡ is_empty ns
empty-lowered half [] = refl
empty-lowered half (n ∷ ns) = refl

-- Lowering all frequencies.
module _ (cap max : ℕ) (c : KLfuCache) (g : IsGood cap max 0 127 c) (small : 1 < max)
    (some_node : is_empty c.node_map ≡ false) where
  abbrev half : ℕ
  half = c.max_average_num / 2

  module _ (ls : FreqLists)
      (holds : (k f : ℕ) → held ls k f ≡ tally (lowered_all half c.node_map) k f)
      (knows : KnowsAll ls) where
    after-low : any_to 126 (lowered_all half c.node_map) ≡ true
    after-low =
        any_to-lowered half 126 c.node_map (omega (arith, small, g.same_max)) (omega arith)
          (g.low some_node)

    abbrev found : ℕ
    found = smallest ls.list_of ls.known 127

    found_lem : (has_nodes (ls.list_of found) ≡ true) × (found < 127)
    found_lem = least-has_nodes (lowered_all half c.node_map) ls knows holds after-low

    abbrev after : KLfuCache
    after = record c { node_map = lowered_all half c.node_map; freq_lists = ls; min_freq = found }

    after-eq :
        update_min_freq (record c { node_map = lowered_all half c.node_map; freq_lists = ls })
        ≡ after
    unfolding update_min_freq
    after-eq = ground (arith, found_lem.1)

    after-HasLeast : HasLeast after
    after-HasLeast = record {
      least_held = λ h. found_lem.0;
      least = least-all_from (lowered_all half c.node_map) ls knows holds;
    }

    found-positive : 0 < found
    found-positive =
        let (k, p) = list-positive (ls.list_of found) found_lem.0 in
        tally-all_from 1 (lowered_all half c.node_map) k found (all_from-lowered half c.node_map)
          (omega (arith, p, holds k found))

    after-IsGood : IsGood cap max 0 126 after
    after-IsGood = record {
      same_capacity = g.same_capacity;
      same_max = g.same_max;
      knows = knows;
      holds = holds;
      once = λ k. omega (arith, key_count-lowered half c.node_map k, g.once k);
      bounded = omega (arith, length-lowered half c.node_map, g.bounded);
      covered = omega (arith, freq_sum-lowered half c.node_map g.positive, g.covered);
      positive = all_from-lowered half c.node_map;
      low = λ h. after-low;
      min_positive = found-positive;
    }

    after-IsKept : IsKept c after
    after-IsKept = record {
      values = value-lowered half c.node_map;
      ones = ones-lowered half c.node_map;
      size = length-lowered half c.node_map;
    }

-- What counting an access comes to.
pub record IsCounted (cap max : ℕ) (c : KLfuCache) (r : Option KLfuCache) : Type 0 where
  pub after : KLfuCache
  pub result : r ≡ some after
  pub good : IsGood cap max 0 126 after
  pub min : HasLeast c → HasLeast after
  pub kept : IsKept c after

handle_over-IsCounted :
    (cap max : ℕ) (c : KLfuCache)
    → IsGood cap max 0 127 c
    → 1 < max
    → is_empty c.node_map ≡ false
    → IsCounted cap max c (handle_over_max_average_num c)
unfolding handle_over_max_average_num
handle_over-IsCounted cap max c g small some_node =
    let (ls, eq, holds, knows) =
      lower_all-held (c.max_average_num / 2) c.node_map c.freq_lists (λ k f. 0)
        (λ k f. omega (arith, g.holds k f)) in
    let same : (k f : ℕ)
        → held ls k f ≡ tally (lowered_all (c.max_average_num / 2) c.node_map) k f =
      λ k f. omega (arith, holds k f) in
    record {
      after = after cap max c g small some_node ls same (knows g.knows);
      result =
          simp (some_node, eq)
            (ap some (after-eq cap max c g small some_node ls same (knows g.knows)));
      good = after-IsGood cap max c g small some_node ls same (knows g.knows);
      min = λ h. after-HasLeast cap max c g small some_node ls same (knows g.knows);
      kept = after-IsKept cap max c g small some_node ls same (knows g.knows);
    }

abbrev counted : KLfuCache → KLfuCache
counted c = record c {
  cur_total_num = c.cur_total_num + 1;
  cur_average_num = average (c.cur_total_num + 1) c.node_map;
}

counted-IsGood :
    (cap max bound : ℕ) (c : KLfuCache)
    → IsGood cap max 1 127 c
    → (is_empty c.node_map ≡ false → any_to bound c.node_map ≡ true)
    → IsGood cap max 0 bound (counted c)
counted-IsGood cap max bound c g low = record {
  same_capacity = g.same_capacity;
  same_max = g.same_max;
  knows = g.knows;
  holds = g.holds;
  once = g.once;
  bounded = g.bounded;
  covered = omega (arith, g.covered);
  positive = g.positive;
  low = low;
  min_positive = g.min_positive;
}

pub add_freq_num-IsCounted :
    (cap max : ℕ) (c : KLfuCache)
    → IsGood cap max 1 127 c
    → 1 < max
    → max < 127
    → is_empty c.node_map ≡ false
    → IsCounted cap max c (add_freq_num c)
unfolding add_freq_num
add_freq_num-IsCounted cap max c g small large some_node =
    elim (Bool-cases (ltb c.max_average_num (average (c.cur_total_num + 1) c.node_map))) [
      | inl over ↦
          let r =
            handle_over-IsCounted cap max (counted c) (counted-IsGood cap max 127 c g g.low) small
              some_node in
          record {
            after = r.after;
            result = simp over r.result;
            good = r.good;
            min = λ h. r.min (record { least_held = h.least_held; least = h.least });
            kept = record { values = r.kept.values; ones = r.kept.ones; size = r.kept.size };
          }
      | inr not_over ↦ record {
        after = counted c;
        result = simp not_over refl;
        good = counted-IsGood cap max 126 c g (λ h.
            average-any_to 126 (c.cur_total_num + 1) c.node_map (omega (arith, g.covered))
              (ground (arith, not_over, g.same_max, large)) h);
        min = λ h. record { least_held = h.least_held; least = h.least };
        kept = record { values = λ k. refl; ones = λ k h. h; size = refl };
      }
    ]
