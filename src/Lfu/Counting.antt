-- ===== src/Lfu/Counting.antt =====
-- Counting nodes and list entries of the LFU cache.
use mathlib.Core.Option.{some-injective}
use kama_webserver.Prelude.{
  ℕ, ◌+◌, ◌-◌, ◌≤◌, ◌<◌, ◌≡◌, refl, Bool, Bool-cases, inl, inr, true, false, none, some, List, [],
  ◌∷◌, ◌++◌, length, leb, ◌==◌, if◌then◌else◌, arith,
}
use kama_webserver.Lfu.{Node, remove_node, find, update_node, erase}

unfoldable pub count : ℕ → List ℕ → ℕ
count k [] = 0
count k (x ∷ xs) = (if x == k then 1 else 0) + count k xs

-- 1 at a node's own key and frequency.
unfoldable pub unit_at : Node → ℕ → ℕ → ℕ
unit_at n k f = if n.key == k then if n.freq == f then 1 else 0 else 0

unfoldable pub tally : List Node → ℕ → ℕ → ℕ
unfolding unit_at
tally [] k f = 0
tally (n ∷ ns) k f = unit_at n k f + tally ns k f

unfoldable pub key_count : List Node → ℕ → ℕ
key_count [] k = 0
key_count (n ∷ ns) k = (if n.key == k then 1 else 0) + key_count ns k

unfoldable pub freq_sum : List Node → ℕ
freq_sum [] = 0
freq_sum (n ∷ ns) = n.freq + freq_sum ns

-- All frequencies are at least the bound; one is at most the bound.
unfoldable pub all_from : ℕ → List Node → Bool
all_from b [] = true
all_from b (n ∷ ns) = let rest = all_from b ns in if leb b n.freq then rest else false

unfoldable pub any_to : ℕ → List Node → Bool
any_to b [] = false
any_to b (n ∷ ns) = let rest = any_to b ns in if leb n.freq b then true else rest

pub count-remove :
    (k key : ℕ) (ks : List ℕ)
    → count k (remove_node key ks) ≡ count k ks - (if key == k then 1 else 0)
unfolding count remove_node
count-remove k key [] = ground arith
count-remove k key (x ∷ xs) = ground (arith, count-remove k key xs)

pub count-add :
    (k key : ℕ) (ks : List ℕ) → count k (ks ++ key ∷ []) ≡ count k ks + (if key == k then 1 else 0)
unfolding count
count-add k key [] = ground arith
count-add k key (x ∷ xs) = ground (arith, count-add k key xs)

pub count-positive : (ks : List ℕ) (k : ℕ) → 0 < count k ks → 0 < length ks
unfolding count
count-positive [] k h = absurd (omega arith)
count-positive (x ∷ xs) k h = omega arith

pub count-head : (k : ℕ) (ks : List ℕ) → 0 < count k (k ∷ ks)
unfolding count
count-head k ks = ground arith

module _ (key : ℕ) where
  pub find-none : (ns : List Node) → find ns key ≡ none → key_count ns key ≡ 0
  unfolding find key_count
  find-none [] h = refl
  find-none (n ∷ ns) h = ground (arith, h, find-none ns)

  pub find-key : (ns : List Node) (m : Node) → find ns key ≡ some m → m.key ≡ key
  unfolding find
  find-key [] m h = absurd (ground (arith, h))
  find-key (n ∷ ns) m h = ground (arith, h, find-key ns m)

  pub find-tally : (ns : List Node) (m : Node) → find ns key ≡ some m → 0 < tally ns key m.freq
  unfolding find tally unit_at
  find-tally [] m h = absurd (ground (arith, h))
  find-tally (n ∷ ns) m h = ground (arith, h, find-tally ns m)

  pub tally-le : (ns : List Node) (f : ℕ) → tally ns key f ≤ key_count ns key
  unfolding tally key_count unit_at
  tally-le [] f = omega arith
  tally-le (n ∷ ns) f = ground (arith, tally-le ns f)

  -- The node that find gives is the only one with its key.
  pub find-freq :
      (ns : List Node) (f : ℕ)
      → key_count ns key ≤ 1
      → 0 < tally ns key f
      → (m : Node) × (find ns key ≡ some m) × (m.freq ≡ f)
  unfolding find tally key_count unit_at
  find-freq [] f once some_node = absurd (omega arith)
  find-freq (n ∷ ns) f once some_node = elim (Bool-cases (n.key == key)) [
    | inl same ↦ (n, ground (arith, same), ground (arith, tally-le ns f))
    | inr other ↦
        let (m, found, at_f) = find-freq ns f (ground arith) (ground arith) in
        (m, ground (arith, other, found), at_f)
  ]

some-same : (x n : Node) → some x ≡ some n → x ≡ n
some-same x n h = some-injective x n h

-- A node written over the one with its key.
module _ (m n : Node) where
  pub tally-update :
      (ns : List Node) (k f : ℕ)
      → find ns m.key ≡ some n
      → tally (update_node m ns) k f + unit_at n k f ≡ tally ns k f + unit_at m k f
  unfolding find tally update_node
  tally-update [] k f h = absurd (ground (arith, h))
  tally-update (x ∷ xs) k f h = ground (arith, h, tally-update xs k f, some-same x n)

  pub freq_sum-update :
      (ns : List Node)
      → find ns m.key ≡ some n
      → freq_sum (update_node m ns) + n.freq ≡ freq_sum ns + m.freq
  unfolding find freq_sum update_node
  freq_sum-update [] h = absurd (ground (arith, h))
  freq_sum-update (x ∷ xs) h = ground (arith, h, freq_sum-update xs, some-same x n)

module _ (m : Node) where
  pub key_count-update : (ns : List Node) (k : ℕ) → key_count (update_node m ns) k ≡ key_count ns k
  unfolding key_count update_node
  key_count-update [] k = refl
  key_count-update (x ∷ xs) k = ground (arith, key_count-update xs k)

  pub length-update : (ns : List Node) → length (update_node m ns) ≡ length ns
  unfolding update_node
  length-update [] = refl
  length-update (x ∷ xs) = ground (arith, length-update xs)

  pub all_from-update :
      (b : ℕ) (ns : List Node)
      → b ≤ m.freq
      → all_from b ns ≡ true
      → all_from b (update_node m ns) ≡ true
  unfolding all_from update_node
  all_from-update b [] h k = refl
  all_from-update b (x ∷ xs) h k = ground (arith, h, k, all_from-update b xs)

  pub find-update :
      (ns : List Node) (n : Node) (k : ℕ)
      → find ns m.key ≡ some n
      → find (update_node m ns) k ≡ (if m.key == k then some m else find ns k)
  unfolding find update_node
  find-update [] n k h = absurd (ground (arith, h))
  find-update (x ∷ xs) n k h = ground (arith, h, find-update xs n k)

module _ (key : ℕ) (n : Node) where
  pub tally-erase :
      (ns : List Node) (k f : ℕ)
      → find ns key ≡ some n
      → tally (erase ns key) k f + unit_at n k f ≡ tally ns k f
  unfolding find tally erase
  tally-erase [] k f h = absurd (ground (arith, h))
  tally-erase (x ∷ xs) k f h = ground (arith, h, tally-erase xs k f, some-same x n)

  pub freq_sum-erase :
      (ns : List Node) → find ns key ≡ some n → freq_sum (erase ns key) + n.freq ≡ freq_sum ns
  unfolding find freq_sum erase
  freq_sum-erase [] h = absurd (ground (arith, h))
  freq_sum-erase (x ∷ xs) h = ground (arith, h, freq_sum-erase xs, some-same x n)

  pub length-erase : (ns : List Node) → find ns key ≡ some n → length (erase ns key) + 1 ≡ length ns
  unfolding find erase
  length-erase [] h = absurd (ground (arith, h))
  length-erase (x ∷ xs) h = ground (arith, h, length-erase xs)

  pub key_count-erase :
      (ns : List Node) (k : ℕ)
      → find ns key ≡ some n
      → key_count (erase ns key) k ≡ key_count ns k - (if key == k then 1 else 0)
  unfolding find key_count erase
  key_count-erase [] k h = absurd (ground (arith, h))
  key_count-erase (x ∷ xs) k h = ground (arith, h, key_count-erase xs k)

  pub all_from-erase :
      (b : ℕ) (ns : List Node) → all_from b ns ≡ true → all_from b (erase ns key) ≡ true
  unfolding all_from erase
  all_from-erase b [] h = refl
  all_from-erase b (x ∷ xs) h = ground (arith, h, all_from-erase b xs)
