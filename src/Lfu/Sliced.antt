-- ===== src/Lfu/Sliced.antt =====
-- include/LFU.h: KHashLfuCache, which spreads the keys over several caches. The quotient of the capacity
-- as a double, rounded up, is exact below 2 ^ 53. A slice takes its capacity as an `int`, so that
-- capacities are taken to be below 2 ^ 31. `hash` is std::hash, `hardware` what
-- hardware_concurrency shows.
pub mod Slices
pub mod Spread
mod Tests
use mathlib.Core.Option
use kama_webserver.Prelude.{
  ℕ, zero, suc, ◌+◌, ◌-◌, ◌/◌, ◌%◌, Bool, true, false, Option, none, some, List, [], ◌∷◌, replicate,
}
use kama_webserver.Prelude.Int.{ℤ, pos, negsuc}
use kama_webserver.Lfu
use kama_webserver.Lfu.{KLfuCache, ◌>>=◌}

pub record KHashLfuCache : Type 0 where
  pub capacity : ℕ
  pub slice_num : ℕ
  pub lfu_slice_caches : List KLfuCache

pub slice_count : ℤ → ℕ → ℕ
slice_count (pos zero) hardware = hardware
slice_count (pos (suc n)) hardware = suc n
slice_count (negsuc n) hardware = hardware

pub slice_size : ℕ → ℕ → ℕ
slice_size capacity slice_num = (capacity + (slice_num - 1)) / slice_num

pub init : ℕ → ℤ → ℕ → ℕ → KHashLfuCache
unfolding slice_count slice_size
init capacity slice_num hardware max_average_num =
    let count = slice_count slice_num hardware in
    record {
      capacity = capacity;
      slice_num = count;
      lfu_slice_caches = replicate count (Lfu.init (slice_size capacity count) max_average_num);
    }

-- A call of the slice at an index; behind the last slice there is none.
pub put_at : ℕ → ℕ → ℕ → List KLfuCache → Option (List KLfuCache)
put_at i key value [] = none
put_at zero key value (s ∷ ss) = Option.map (λ after. after ∷ ss) (Lfu.put key value s)
put_at (suc i) key value (s ∷ ss) = Option.map (λ rest. s ∷ rest) (put_at i key value ss)

pub get_at : ℕ → ℕ → List KLfuCache → Option (Option ℕ × List KLfuCache)
get_at i key [] = none
get_at zero key (s ∷ ss) = Option.map (λ (answer, after). (answer, after ∷ ss)) (Lfu.get key s)
get_at (suc i) key (s ∷ ss) = Option.map (λ (answer, rest). (answer, s ∷ rest)) (get_at i key ss)

pub purge_all : List KLfuCache → List KLfuCache
purge_all [] = []
purge_all (s ∷ ss) = Lfu.purge s ∷ purge_all ss

pub slice_index : (ℕ → ℕ) → ℕ → KHashLfuCache → ℕ
slice_index hash key h = hash key % h.slice_num

pub put : (ℕ → ℕ) → ℕ → ℕ → KHashLfuCache → Option KHashLfuCache
unfolding put_at slice_index
put hash key value h =
    Option.map (λ slices. record h { lfu_slice_caches = slices })
      (put_at (slice_index hash key h) key value h.lfu_slice_caches)

pub get : (ℕ → ℕ) → ℕ → KHashLfuCache → Option (Option ℕ × KHashLfuCache)
unfolding get_at slice_index
get hash key h =
    Option.map (λ (answer, slices). (answer, record h { lfu_slice_caches = slices }))
      (get_at (slice_index hash key h) key h.lfu_slice_caches)

pub purge : KHashLfuCache → KHashLfuCache
unfolding purge_all
purge h = record h { lfu_slice_caches = purge_all h.lfu_slice_caches }
