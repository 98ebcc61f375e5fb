-- ===== src/Lfu/Sliced/Spread.antt =====
-- include/LFU.h: KHashLfuCache behaves as its slices do.
use native.Mathlib.Omega.{div_any}
use native.Mathlib.Nat.{mod-lt}
use kama_webserver.Prelude.{
  ℕ, zero, suc, ◌+◌, ◌-◌, ◌*◌, ◌≤◌, ◌<◌, ◌≡◌, refl, ◌∙◌, ◌⊎◌, inl, inr, Bool-cases, Option, none,
  some, List, [], ◌∷◌, length, length-replicate, ◌==◌, arith,
}
use kama_webserver.Prelude.Int.{ℤ}
use kama_webserver.Lfu
use kama_webserver.Lfu.{KLfuCache, ◌>>=◌}
use kama_webserver.Lfu.Runs.{Call, puts, gets, purges, remember, AreFresh}
use kama_webserver.Lfu.Sliced.{
  KHashLfuCache, slice_count, slice_size, init, slice_index, put, get, purge,
}
use kama_webserver.Lfu.Sliced.Slices.{
  AreValid, value_in, total_size, total_size-bounded, put_at-IsPutAt, get_at-IsGotAt,
  purge_all-AreValid, replicate-AreValid,
}

-- The calls of a history on the spread cache, as `Lfu.Runs.run` has them on one cache.
unfoldable pub run : (ℕ → ℕ) → List Call → KHashLfuCache → Option (List (Option ℕ) × KHashLfuCache)
run hash [] h = some ([], h)
run hash (puts key v ∷ calls) h = do after ← put hash key v h; run hash calls after
run hash (gets key ∷ calls) h = do
  (answer, after) ← get hash key h
  (answers, last) ← run hash calls after
  some (answer ∷ answers, last)
run hash (purges ∷ calls) h = run hash calls (purge h)

pub record IsSpread (cap max n : ℕ) (map : ℕ → Option ℕ) (calls : List Call)
    (r : Option (List (Option ℕ) × KHashLfuCache)) : Type 0 where
  pub answers : List (Option ℕ)
  pub after : KHashLfuCache
  pub result : r ≡ some (answers, after)
  pub valid : AreValid cap max after.lfu_slice_caches
  pub slices : length after.lfu_slice_caches ≡ n
  pub fresh : AreFresh map calls answers

module _ (cap max n : ℕ) (hash : ℕ → ℕ) (some_slice : 0 < n) (some_room : 0 < cap) (small : 1 < max)
    (large : max < 127) where
  index-within :
      (key : ℕ) (h : KHashLfuCache)
      → h.slice_num ≡ n
      → length h.lfu_slice_caches ≡ n
      → slice_index hash key h < length h.lfu_slice_caches
  unfolding slice_index
  index-within key h same_num same_length =
      rw (same_length, same_num) (mod-lt (hash key) some_slice)

  run-IsSpread :
      (calls : List Call) (h : KHashLfuCache) (map : ℕ → Option ℕ)
      → h.slice_num ≡ n
      → length h.lfu_slice_caches ≡ n
      → AreValid cap max h.lfu_slice_caches
      → ((k : ℕ)
          → (value_in (slice_index hash k h) h.lfu_slice_caches k ≡ none)
            ⊎ (value_in (slice_index hash k h) h.lfu_slice_caches k ≡ map k))
      → IsSpread cap max n map calls (run hash calls h)
  unfolding run AreFresh slice_index put get purge
  run-IsSpread [] h map same_num same_length valid part = record {
    answers = [];
    after = h;
    result = refl;
    valid = valid;
    slices = same_length;
    fresh = refl;
  }
  run-IsSpread (puts key v ∷ calls) h map same_num same_length valid part =
      let p =
        put_at-IsPutAt cap max some_room small large (slice_index hash key h) key v
          h.lfu_slice_caches (index-within key h same_num same_length) valid in
      let r =
        run-IsSpread calls (record h { lfu_slice_caches = p.after }) (remember key v map) same_num
          (p.same_length ∙ same_length) p.valid
          (λ k. elim (Bool-cases (key == k)) [
            | inl same ↦ ground (arith, same, p.stored)
            | inr other ↦ ground (arith, other, p.others (slice_index hash k h) k other, part k)
          ]) in
      record {
        answers = r.answers;
        after = r.after;
        result = rw p.result r.result;
        valid = r.valid;
        slices = r.slices;
        fresh = r.fresh;
      }
  run-IsSpread (gets key ∷ calls) h map same_num same_length valid part =
      let p =
        get_at-IsGotAt cap max some_room small large (slice_index hash key h) key h.lfu_slice_caches
          (index-within key h same_num same_length) valid in
      let r =
        run-IsSpread calls (record h { lfu_slice_caches = p.after }) map same_num
          (p.same_length ∙ same_length) p.valid
          (λ k. ground (arith, p.values (slice_index hash k h) k, part k)) in
      record {
        answers = value_in (slice_index hash key h) h.lfu_slice_caches key ∷ r.answers;
        after = r.after;
        result = rw (p.result, r.result) refl;
        valid = r.valid;
        slices = r.slices;
        fresh = (part key, r.fresh);
      }
  run-IsSpread (purges ∷ calls) h map same_num same_length valid part =
      let (ws, same, nones) = purge_all-AreValid cap max h.lfu_slice_caches valid in
      let r =
        run-IsSpread calls (purge h) (λ k. none) same_num (same ∙ same_length) ws
          (λ k. inl (nones (slice_index hash k h) k)) in
      record {
        answers = r.answers;
        after = r.after;
        result = r.result;
        valid = r.valid;
        slices = r.slices;
        fresh = r.fresh;
      }

positive_factor : (a b : ℕ) → 0 < a * b → 0 < b
positive_factor a zero h = absurd (omega arith)
positive_factor a (suc b) h = omega arith

slice_size-bounds :
    (cap n : ℕ) → 0 < n → (cap ≤ n * slice_size cap n) × (n * slice_size cap n < cap + n)
unfolding slice_size
slice_size-bounds cap n h = (
  omega (arith, div_any (cap + (n - 1)) n, mod-lt (cap + (n - 1)) h),
  omega (arith, div_any (cap + (n - 1)) n, mod-lt (cap + (n - 1)) h),
)

-- If the capacity and the number of slices that the constructor chooses are positive and the largest average is between 2 and 126,
-- then any calls of put, get and purge on a new sliced cache are defined, whatever the hash. Each get
-- gives the last value put for its key since the last purge, or misses; every slice is a valid cache of
-- its size; and all slices together hold less than the sum of the capacity and the number of slices.
pub run-init-IsSpread :
    (cap max : ℕ) (slice_num : ℤ) (hardware : ℕ) (hash : ℕ → ℕ) (calls : List Call)
    → 0 < cap
    → 0 < slice_count slice_num hardware
    → 1 < max
    → max < 127
    → (s : IsSpread
        (slice_size cap (slice_count slice_num hardware))
        max
        (slice_count slice_num hardware)
        (λ k. none)
        calls
        (run hash calls (init cap slice_num hardware max)))
      × (total_size s.after.lfu_slice_caches < cap + slice_count slice_num hardware)
unfolding init
run-init-IsSpread cap max slice_num hardware hash calls some_room some_slice small large =
    let n = slice_count slice_num hardware in
    let (lower, upper) = slice_size-bounds cap n some_slice in
    let (vs, nones) = replicate-AreValid (slice_size cap n) max n in
    let new = init cap slice_num hardware max in
    let s =
      run-IsSpread (slice_size cap n) max n hash some_slice
        (positive_factor n (slice_size cap n) (omega (arith, lower))) small large calls new
        (λ k. none) refl (length-replicate n (Lfu.init (slice_size cap n) max)) vs
        (λ k. inl (nones (slice_index hash k new) k)) in
    (
      s,
      ground (
        arith,
        upper,
        s.slices,
        total_size-bounded (slice_size cap n) max s.after.lfu_slice_caches s.valid,
      ),
    )
