-- ===== src/Lfu/Sliced/Slices.antt =====
-- include/LFU.h: one call of KHashLfuCache on its list of slices.
use kama_webserver.Prelude.{
  ℕ, zero, suc, ◌+◌, ◌*◌, ◌≤◌, ◌<◌, ◌≡◌, refl, ◌⊎◌, inl, inr, false, Option, none, some, List, [],
  ◌∷◌, length, replicate, ◌==◌, arith,
}
use kama_webserver.Lfu
use kama_webserver.Lfu.{KLfuCache, ◌>>=◌}
use kama_webserver.Lfu.Valid.{IsValid, value_of}
use kama_webserver.Lfu.Methods.{put-IsPut, get-IsGot}
use kama_webserver.Lfu.Runs.{init-IsValid, init-value_of, purge-IsValid, purge-value_of}
use kama_webserver.Lfu.Sliced.{put_at, get_at, purge_all}

unfoldable pub AreValid : ℕ → ℕ → List KLfuCache → Type 0
AreValid cap max [] = Unit
AreValid cap max (s ∷ ss) = IsValid cap max s × AreValid cap max ss

-- The value of a key in one slice.
unfoldable pub value_in : ℕ → List KLfuCache → ℕ → Option ℕ
value_in i [] k = none
value_in zero (s ∷ ss) k = value_of s k
value_in (suc i) (s ∷ ss) k = value_in i ss k

unfoldable pub total_size : List KLfuCache → ℕ
total_size [] = 0
total_size (s ∷ ss) = length s.node_map + total_size ss

pub total_size-bounded :
    (cap max : ℕ) (ss : List KLfuCache) → AreValid cap max ss → total_size ss ≤ length ss * cap
unfolding total_size AreValid
total_size-bounded cap max [] v = omega arith
total_size-bounded cap max (s ∷ ss) (v, vs) =
    omega (arith, v.good.bounded, total_size-bounded cap max ss vs)

-- What holds of the values in the first slice and of those in the others holds of all.
by_slice :
    (R : ℕ → Option ℕ → Option ℕ → Type 0) (s t : KLfuCache) (ss ts : List KLfuCache)
    → ((k : ℕ) → R k (value_of s k) (value_of t k))
    → ((j k : ℕ) → R k (value_in j ss k) (value_in j ts k))
    → (j k : ℕ) → R k (value_in j (s ∷ ss) k) (value_in j (t ∷ ts) k)
unfolding value_in
by_slice R s t ss ts first rest zero k = first k
by_slice R s t ss ts first rest (suc j) k = rest j k

-- Another key loses its value or keeps it.
abbrev pub KeptOrGone : ℕ → ℕ → Option ℕ → Option ℕ → Type 0
KeptOrGone key k after before = (key == k) ≡ false → (after ≡ none) ⊎ (after ≡ before)

pub record IsPutAt (cap max i key v : ℕ) (ss : List KLfuCache) (r : Option (List KLfuCache))
    : Type 0 where
  pub after : List KLfuCache
  pub result : r ≡ some after
  pub valid : AreValid cap max after
  pub same_length : length after ≡ length ss
  pub stored : value_in i after key ≡ some v
  pub others : (j k : ℕ) → KeptOrGone key k (value_in j after k) (value_in j ss k)

pub record IsGotAt (cap max i key : ℕ) (ss : List KLfuCache)
    (r : Option (Option ℕ × List KLfuCache)) : Type 0 where
  pub after : List KLfuCache
  pub result : r ≡ some (value_in i ss key, after)
  pub valid : AreValid cap max after
  pub same_length : length after ≡ length ss
  pub values : (j k : ℕ) → value_in j after k ≡ value_in j ss k

module _ (cap max : ℕ) (some_room : 0 < cap) (small : 1 < max) (large : max < 127) where
  pub put_at-IsPutAt :
      (i key v : ℕ) (ss : List KLfuCache)
      → i < length ss
      → AreValid cap max ss
      → IsPutAt cap max i key v ss (put_at i key v ss)
  unfolding put_at AreValid value_in
  put_at-IsPutAt i key v [] h vs = absurd (omega arith)
  put_at-IsPutAt zero key v (s ∷ ss) h (valid, vs) =
      let p = put-IsPut cap max key v small large s valid some_room in
      record {
        after = p.after ∷ ss;
        result = rw p.result refl;
        valid = (p.valid, vs);
        same_length = refl;
        stored = p.stored;
        others =
            by_slice (KeptOrGone key) p.after s ss ss
              (λ k other. elim (p.others k other) [
                | inl same ↦ inr same
                | inr (full, gone) ↦ inl gone
              ])
              (λ j k other. inr refl);
      }
  put_at-IsPutAt (suc i) key v (s ∷ ss) h (valid, vs) =
      let p = put_at-IsPutAt i key v ss (omega arith) vs in
      record {
        after = s ∷ p.after;
        result = rw p.result refl;
        valid = (valid, p.valid);
        same_length = omega (arith, p.same_length);
        stored = p.stored;
        others = by_slice (KeptOrGone key) s s p.after ss (λ k other. inr refl) p.others;
      }

  pub get_at-IsGotAt :
      (i key : ℕ) (ss : List KLfuCache)
      → i < length ss
      → AreValid cap max ss
      → IsGotAt cap max i key ss (get_at i key ss)
  unfolding get_at AreValid value_in
  get_at-IsGotAt i key [] h vs = absurd (omega arith)
  get_at-IsGotAt zero key (s ∷ ss) h (valid, vs) =
      let p = get-IsGot cap max key s small large valid in
      record {
        after = p.after ∷ ss;
        result = rw p.result refl;
        valid = (p.valid, vs);
        same_length = refl;
        values = by_slice (λ k x y. x ≡ y) p.after s ss ss p.values (λ j k. refl);
      }
  get_at-IsGotAt (suc i) key (s ∷ ss) h (valid, vs) =
      let p = get_at-IsGotAt i key ss (omega arith) vs in
      record {
        after = s ∷ p.after;
        result = rw p.result refl;
        valid = (valid, p.valid);
        same_length = omega (arith, p.same_length);
        values = by_slice (λ k x y. x ≡ y) s s p.after ss (λ k. refl) p.values;
      }

pub purge_all-AreValid :
    (cap max : ℕ) (ss : List KLfuCache)
    → AreValid cap max ss
    → AreValid cap max (purge_all ss)
      × (length (purge_all ss) ≡ length ss)
      × ((j k : ℕ) → value_in j (purge_all ss) k ≡ none)
unfolding purge_all AreValid value_in
purge_all-AreValid cap max [] vs = (tt, refl, λ j k. refl)
purge_all-AreValid cap max (s ∷ ss) (v, vs) =
    let (ws, same, nones) = purge_all-AreValid cap max ss vs in
    (
      (purge-IsValid cap max s v, ws),
      omega (arith, same),
      by_slice (λ k x y. x ≡ none) (Lfu.purge s) s (purge_all ss) ss (purge-value_of s) nones,
    )

pub replicate-AreValid :
    (cap max n : ℕ)
    → AreValid cap max (replicate n (Lfu.init cap max))
      × ((j k : ℕ) → value_in j (replicate n (Lfu.init cap max)) k ≡ none)
unfolding AreValid value_in
replicate-AreValid cap max zero = (tt, λ j k. refl)
replicate-AreValid cap max (suc n) =
    let (vs, nones) = replicate-AreValid cap max n in
    (
      (init-IsValid cap max, vs),
      by_slice (λ k x y. x ≡ none) (Lfu.init cap max) (Lfu.init cap max)
          (replicate n (Lfu.init cap max)) [] (init-value_of cap max) nones,
    )
