-- ===== src/Lfu/Methods.antt =====
-- put and get of the LFU cache.
use mathlib.Core.Option
use kama_webserver.Prelude.{
  ℕ, ◌<◌, ◌≡◌, refl, ap, ◌∙◌, ◌⊎◌, inl, inr, Bool-cases, false, Option, none, some, List, [], ◌∷◌,
  length, ◌==◌, if◌then◌else◌, arith,
}
use kama_webserver.Lfu.{
  Node, KLfuCache, ◌>>=◌, is_empty, find, fresh_node, enter, lower_min, put_internal, put, get,
  get_internal, add_freq_num,
}
use kama_webserver.Lfu.Counting.{
  tally, unit_at, key_count, freq_sum, all_from, any_to, find-none, find-key,
}
use kama_webserver.Lfu.Lists.{held-has_nodes, held-add, add-KnowsAll}
use kama_webserver.Lfu.Valid.{IsGood, IsValid, value_of, add_freq_num-IsCounted}
use kama_webserver.Lfu.Access.{get_internal-IsAccessed}
use kama_webserver.Lfu.Eviction.{kick_out_lem}

module _ (cap max bound key v : ℕ) (c : KLfuCache) (g : IsGood cap max 0 bound c)
    (room : length c.node_map < cap) (absent : key_count c.node_map key ≡ 0) where
  enter-IsGood : IsGood cap max 1 127 (enter (fresh_node key v) c)
  unfolding tally key_count freq_sum all_from any_to
  enter-IsGood = record {
    same_capacity = g.same_capacity;
    same_max = g.same_max;
    knows = add-KnowsAll (fresh_node key v) c.freq_lists g.knows;
    holds = λ k f. omega (arith, g.holds k f, held-add (fresh_node key v) c.freq_lists k f);
    once = λ k. ground (arith, absent, g.once k);
    bounded = omega (arith, room);
    covered = omega (arith, g.covered);
    positive = ground (arith, g.positive);
    low = λ h. ground arith;
    min_positive = g.min_positive;
  }

  enter-value_of :
      (k : ℕ)
      → value_of (enter (fresh_node key v) c) k ≡ (if key == k then some v else value_of c k)
  unfolding find
  enter-value_of k = ground arith

  enter-one : 0 < tally (enter (fresh_node key v) c).node_map key 1
  unfolding tally unit_at
  enter-one = ground arith

lower_min-eq : (c : KLfuCache) → 0 < c.min_freq → lower_min c ≡ record c { min_freq = 1 }
lower_min-eq c h = ground (arith, h)

-- The minimum is 1 if a node has that frequency.
ones-IsValid :
    (cap max key : ℕ) (c : KLfuCache)
    → IsGood cap max 0 126 c
    → 0 < tally c.node_map key 1
    → IsValid cap max (record c { min_freq = 1 })
ones-IsValid cap max key c g one = record {
  good = record {
    same_capacity = g.same_capacity;
    same_max = g.same_max;
    knows = g.knows;
    holds = g.holds;
    once = g.once;
    bounded = g.bounded;
    covered = g.covered;
    positive = g.positive;
    low = g.low;
    min_positive = omega arith;
  };
  min = record {
    least_held =
        λ h. (held-has_nodes (c.freq_lists.list_of 1) key (omega (arith, one, g.holds key 1))).0;
    least = g.positive;
  };
}

-- What a put comes to: the cache is valid, the key has its value, and another key has its value
-- still, unless it was evicted from a full cache.
pub record IsPut (cap max : ℕ) (c : KLfuCache) (key v : ℕ) (r : Option KLfuCache) : Type 0 where
  pub after : KLfuCache
  pub result : r ≡ some after
  pub valid : IsValid cap max after
  pub stored : value_of after key ≡ some v
  pub others :
      (k : ℕ)
      → (key == k) ≡ false
      → (value_of after k ≡ value_of c k) ⊎ ((length c.node_map ≡ cap) × (value_of after k ≡ none))

module _ (cap max key v : ℕ) (small : 1 < max) (large : max < 127) where
  -- The part behind the eviction.
  store-IsPut :
      (bound : ℕ) (c : KLfuCache)
      → IsGood cap max 0 bound c
      → length c.node_map < cap
      → key_count c.node_map key ≡ 0
      → (after : KLfuCache) × ((add_freq_num (enter (fresh_node key v) c)
            >>= (λ counted. some (lower_min counted)))
          ≡ some after)
        × IsValid cap max after
        × ((k : ℕ) → value_of after k ≡ (if key == k then some v else value_of c k))
  store-IsPut bound c g room absent =
      let r =
        add_freq_num-IsCounted cap max (enter (fresh_node key v) c)
          (enter-IsGood cap max bound key v c g room absent) small large refl in
      (
        record r.after { min_freq = 1 },
        ap (λ o. o >>= (λ counted. some (lower_min counted))) r.result
            ∙ ap some (lower_min-eq r.after r.good.min_positive),
        ones-IsValid cap max key r.after r.good
            (r.kept.ones key (enter-one cap max bound key v c g room absent)),
        (λ k. r.kept.values k ∙ enter-value_of cap max bound key v c g room absent k),
      )

  put_internal-IsPut :
      (c : KLfuCache)
      → IsValid cap max c
      → 0 < cap
      → find c.node_map key ≡ none
      → IsPut cap max c key v (put_internal key v c)
  unfolding put_internal
  put_internal-IsPut c valid some_room absent =
      elim (Bool-cases (length c.node_map == c.capacity)) [
        | inl full ↦
            let k =
              kick_out_lem cap max c valid
                (full-nonempty c.node_map (ground (arith, full, valid.good.same_capacity))) in
            let (after, eq, ok, values) =
              store-IsPut (freq_sum k.after.node_map) k.after k.good
                (omega (arith, k.size, valid.good.bounded))
                (omega (arith, k.counts key, find-none key c.node_map absent)) in
            record {
              after = after;
              result = simp (full, k.result) eq;
              valid = ok;
              stored = ground (arith, values key);
              others = λ x other.
                  ground (arith, values x, other, k.values x, full, valid.good.same_capacity);
            }
        | inr roomy ↦
            let (after, eq, ok, values) =
              store-IsPut 126 c valid.good
                (ground (arith, roomy, valid.good.bounded, valid.good.same_capacity))
                (find-none key c.node_map absent) in
            record {
              after = after;
              result = simp roomy eq;
              valid = ok;
              stored = ground (arith, values key);
              others = λ x other. ground (arith, values x, other);
            }
      ]
    where
      full-nonempty : (ns : List Node) → length ns ≡ cap → is_empty ns ≡ false
      full-nonempty [] h = absurd (omega arith)
      full-nonempty (n ∷ ns) h = refl

  -- If the capacity is positive, the largest average is between 2 and 126, and the cache is valid,
  -- then put is defined and leaves a valid cache in which the key has the value; every other key
  -- keeps its value, unless it was evicted, which happens only if the cache was full.
  pub put-IsPut :
      (c : KLfuCache) → IsValid cap max c → 0 < cap → IsPut cap max c key v (put key v c)
  unfolding put
  put-IsPut c valid some_room =
      let not_zero : (c.capacity == 0) ≡ false = ground (arith, valid.good.same_capacity) in
      simp not_zero (go (find c.node_map key) refl)
    where
      go :
          (o : Option Node)
          → find c.node_map key ≡ o
          → IsPut cap max c key v (elim o [
            | none ↦ put_internal key v c
            | some n ↦ get_internal (record n { value = v }) c
          ])
      go none eq = put_internal-IsPut c valid some_room eq
      go (some n) eq =
          let same = find-key key c.node_map n eq in
          let r =
            get_internal-IsAccessed cap max c n v small large valid
              (ap (find c.node_map) same ∙ eq) in
          record {
            after = r.after;
            result = r.result;
            valid = r.valid;
            stored = ground (arith, r.values key, same);
            others = λ x other. ground (arith, r.values x, same, other);
          }

-- The outcome of a get.
pub record IsGot (cap max : ℕ) (c : KLfuCache) (key : ℕ) (r : Option (Option ℕ × KLfuCache))
    : Type 0 where
  pub after : KLfuCache
  pub result : r ≡ some (value_of c key, after)
  pub valid : IsValid cap max after
  pub values : (k : ℕ) → value_of after k ≡ value_of c k

-- If the largest average is between 2 and 126 and the cache is valid, then get is defined, gives the
-- key's value if it has one, leaves a valid cache and changes no value.
pub get-IsGot :
    (cap max key : ℕ) (c : KLfuCache)
    → 1 < max
    → max < 127
    → IsValid cap max c
    → IsGot cap max c key (get key c)
unfolding get
get-IsGot cap max key c small large valid = go (find c.node_map key) refl
  where
    go :
        (o : Option Node)
        → find c.node_map key ≡ o
        → IsGot cap max c key (elim o [
          | none ↦ some (none, c)
          | some n ↦ Option.map (λ after. (some n.value, after)) (get_internal n c)
        ])
    go none eq = record { after = c; result = rw eq refl; valid = valid; values = λ k. refl }
    go (some n) eq =
        let same = find-key key c.node_map n eq in
        let r =
          get_internal-IsAccessed cap max c n n.value small large valid
            (ap (find c.node_map) same ∙ eq) in
        record {
          after = r.after;
          result = simp (eq, r.result) refl;
          valid = r.valid;
          values = λ k. ground (arith, r.values k, same, eq);
        }
