-- ===== src/Lfu/Runs.antt =====
-- Histories of the LFU cache, against a map that forgets nothing.
use kama_webserver.Prelude.{
  ℕ, ◌<◌, ◌≡◌, refl, ◌⊎◌, inl, inr, Bool-cases, Option, none, some, List, [], ◌∷◌, ◌==◌,
  if◌then◌else◌, arith,
}
use kama_webserver.Lfu.{KLfuCache, init, purge, ◌>>=◌}
use kama_webserver.Lfu
use kama_webserver.Lfu.Counting.{tally, key_count, freq_sum, all_from}
use kama_webserver.Lfu.Lists.{held_in}
use kama_webserver.Lfu.Valid.{IsValid, value_of}
use kama_webserver.Lfu.Methods.{put-IsPut, get-IsGot}

pub data Call : Type 0 where
  puts : ℕ → ℕ → Call
  gets : ℕ → Call
  purges : Call

-- The answers of the gets, and the cache behind the calls.
unfoldable pub run : List Call → KLfuCache → Option (List (Option ℕ) × KLfuCache)
run [] c = some ([], c)
run (puts key v ∷ calls) c = do after ← Lfu.put key v c; run calls after
run (gets key ∷ calls) c = do
  (answer, after) ← Lfu.get key c
  (answers, last) ← run calls after
  some (answer ∷ answers, last)
run (purges ∷ calls) c = run calls (purge c)

-- The map: the last value put for each key since the last purge.
abbrev pub remember : ℕ → ℕ → (ℕ → Option ℕ) → ℕ → Option ℕ
remember key v map k = if key == k then some v else map k

-- Each answer is a miss or the key's value in the map.
unfoldable pub AreFresh : (ℕ → Option ℕ) → List Call → List (Option ℕ) → Type 0
AreFresh map [] answers = answers ≡ []
AreFresh map (puts key v ∷ calls) answers = AreFresh (remember key v map) calls answers
AreFresh map (gets key ∷ calls) [] = ⊥
AreFresh map (gets key ∷ calls) (answer ∷ answers) =
    ((answer ≡ none) ⊎ (answer ≡ map key)) × AreFresh map calls answers
AreFresh map (purges ∷ calls) answers = AreFresh (λ k. none) calls answers

-- The cache holds a part of the map.
abbrev pub IsPart : KLfuCache → (ℕ → Option ℕ) → Type 0
IsPart c map = (k : ℕ) → (value_of c k ≡ none) ⊎ (value_of c k ≡ map k)

pub record IsRun (cap max : ℕ) (map : ℕ → Option ℕ) (calls : List Call)
    (r : Option (List (Option ℕ) × KLfuCache)) : Type 0 where
  pub answers : List (Option ℕ)
  pub after : KLfuCache
  pub result : r ≡ some (answers, after)
  pub valid : IsValid cap max after
  pub fresh : AreFresh map calls answers

pub purge-IsValid : (cap max : ℕ) (c : KLfuCache) → IsValid cap max c → IsValid cap max (purge c)
unfolding purge tally key_count freq_sum all_from held_in
purge-IsValid cap max c v = record {
  good = record {
    same_capacity = v.good.same_capacity;
    same_max = v.good.same_max;
    knows = λ f h. absurd (ground (arith, h));
    holds = λ k f. refl;
    once = λ k. omega arith;
    bounded = omega arith;
    covered = omega arith;
    positive = refl;
    low = λ h. absurd (ground (arith, h));
    min_positive = v.good.min_positive;
  };
  min = record { least_held = λ h. absurd (ground (arith, h)); least = refl };
}

pub purge-value_of : (c : KLfuCache) (k : ℕ) → value_of (purge c) k ≡ none
unfolding purge Lfu.find
purge-value_of c k = refl

pub init-value_of : (cap max k : ℕ) → value_of (init cap max) k ≡ none
unfolding init Lfu.find
init-value_of cap max k = refl

pub init-IsValid : (cap max : ℕ) → IsValid cap max (init cap max)
unfolding init tally key_count freq_sum all_from held_in
init-IsValid cap max = record {
  good = record {
    same_capacity = refl;
    same_max = refl;
    knows = λ f h. absurd (ground (arith, h));
    holds = λ k f. refl;
    once = λ k. omega arith;
    bounded = omega arith;
    covered = omega arith;
    positive = refl;
    low = λ h. absurd (ground (arith, h));
    min_positive = omega arith;
  };
  min = record { least_held = λ h. absurd (ground (arith, h)); least = refl };
}

module _ (cap max : ℕ) (some_room : 0 < cap) (small : 1 < max) (large : max < 127) where
  run-IsRun :
      (calls : List Call) (c : KLfuCache) (map : ℕ → Option ℕ)
      → IsValid cap max c
      → IsPart c map
      → IsRun cap max map calls (run calls c)
  unfolding run AreFresh
  run-IsRun [] c map valid part = record {
    answers = [];
    after = c;
    result = refl;
    valid = valid;
    fresh = refl;
  }
  run-IsRun (puts key v ∷ calls) c map valid part =
      let p = put-IsPut cap max key v small large c valid some_room in
      let r = run-IsRun calls p.after (remember key v map) p.valid (λ k.
        elim (Bool-cases (key == k)) [
          | inl same ↦ ground (arith, same, p.stored)
          | inr other ↦ ground (arith, other, p.others k other, part k)
        ]) in
      record {
        answers = r.answers;
        after = r.after;
        result = rw p.result r.result;
        valid = r.valid;
        fresh = r.fresh;
      }
  run-IsRun (gets key ∷ calls) c map valid part =
      let p = get-IsGot cap max key c small large valid in
      let r = run-IsRun calls p.after map p.valid (λ k. ground (arith, p.values k, part k)) in
      record {
        answers = value_of c key ∷ r.answers;
        after = r.after;
        result = rw (p.result, r.result) refl;
        valid = r.valid;
        fresh = (part key, r.fresh);
      }
  run-IsRun (purges ∷ calls) c map valid part =
      let r =
        run-IsRun calls (purge c) (λ k. none) (purge-IsValid cap max c valid)
          (λ k. inl (purge-value_of c k)) in
      record {
        answers = r.answers;
        after = r.after;
        result = r.result;
        valid = r.valid;
        fresh = r.fresh;
      }

-- If the capacity is positive and the largest average is between 2 and 126, then any calls of put, get
-- and purge on a new cache are defined; the cache never holds more nodes than its capacity, its lists
-- hold each node once at its frequency, and the minimum is the least frequency; and each get gives
-- the last value put for its key since the last purge, or misses.
pub run-init-IsRun :
    (cap max : ℕ) (calls : List Call)
    → 0 < cap
    → 1 < max
    → max < 127
    → IsRun cap max (λ k. none) calls (run calls (init cap max))
run-init-IsRun cap max calls some_room small large =
    run-IsRun cap max some_room small large calls (init cap max) (λ k. none) (init-IsValid cap max)
      (λ k. inl (init-value_of cap max k))
