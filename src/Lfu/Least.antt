-- ===== src/Lfu/Least.antt =====
-- updateMinFreq of the LFU cache: the least frequency with a node, unless all are 127 or more.
use native.Mathlib.Nat.{div-lt_iff_lt-mul, mul-suc}
use kama_webserver.Prelude.{
  ℕ, suc, ◌*◌, ◌/◌, ◌≤◌, ◌<◌, ◌≡◌, refl, ap, ◌⊎◌, inl, inr, Bool-cases, true, false, Option, List,
  [], ◌∷◌, length, ltb, leb, ◌==◌, if◌then◌else◌, arith,
}
use kama_webserver.Lfu.{Node, FreqLists, has_nodes, is_empty, smallest, average}
use kama_webserver.Lfu.Counting.{tally, unit_at, freq_sum, all_from, any_to}
use kama_webserver.Lfu.Lists.{held, KnowsAll, is_among, held-has_nodes}

module _ (list_of : ℕ → Option (List ℕ)) where
  smallest-le : (fs : List ℕ) (least : ℕ) → smallest list_of fs least ≤ least
  unfolding smallest
  smallest-le [] least = omega arith
  smallest-le (f ∷ fs) least = ground (
    arith,
    smallest-le fs (if has_nodes (list_of f) then if ltb f least then f else least else least),
  )

  smallest-le_among :
      (f : ℕ) (fs : List ℕ) (least : ℕ)
      → is_among f fs ≡ true
      → has_nodes (list_of f) ≡ true
      → smallest list_of fs least ≤ f
  unfolding smallest is_among
  smallest-le_among f [] least h k = absurd (ground (arith, h))
  smallest-le_among f (g ∷ fs) least h k = elim (Bool-cases (g == f)) [
    | inl same ↦ ground (
      arith,
      same,
      k,
      smallest-le fs (if has_nodes (list_of g) then if ltb g least then g else least else least),
    )
    | inr other ↦ smallest-le_among f fs _ (ground (arith, other, h)) k
  ]

  smallest-has_nodes :
      (fs : List ℕ) (least : ℕ)
      → (smallest list_of fs least ≡ least)
        ⊎ (has_nodes (list_of (smallest list_of fs least)) ≡ true)
  unfolding smallest
  smallest-has_nodes [] least = inl refl
  smallest-has_nodes (f ∷ fs) least =
      go (smallest-has_nodes fs next) (Bool-cases (has_nodes (list_of f)))
    where
      next : ℕ
      next = if has_nodes (list_of f) then if ltb f least then f else least else least

      go :
          (smallest list_of fs next ≡ next)
            ⊎ (has_nodes (list_of (smallest list_of fs next)) ≡ true)
          → (has_nodes (list_of f) ≡ true) ⊎ (has_nodes (list_of f) ≡ false)
          → (smallest list_of fs next ≡ least)
            ⊎ (has_nodes (list_of (smallest list_of fs next)) ≡ true)
      go (inr has) b = inr has
      go (inl same) b = ground (arith, same, b, ap list_of same)

-- Bounds of all frequencies, from the counts.
pub all_from-tally :
    (m : ℕ) (ns : List Node) → ((k f : ℕ) → 0 < tally ns k f → m ≤ f) → all_from m ns ≡ true
unfolding all_from tally unit_at
all_from-tally m [] h = refl
all_from-tally m (n ∷ ns) h =
    ground (arith, h n.key n.freq, all_from-tally m ns (λ k f p. h k f (omega arith)))

pub tally-all_from :
    (m : ℕ) (ns : List Node) (k f : ℕ) → all_from m ns ≡ true → 0 < tally ns k f → m ≤ f
unfolding all_from tally unit_at
tally-all_from m [] k f h p = absurd (omega arith)
tally-all_from m (n ∷ ns) k f h p = ground (arith, h, p, tally-all_from m ns k f)

pub any_to-tally :
    (b : ℕ) (ns : List Node) → any_to b ns ≡ true → (k : ℕ) × (f : ℕ) × (0 < tally ns k f) × (f ≤ b)
unfolding any_to tally unit_at
any_to-tally b [] h = absurd (ground (arith, h))
any_to-tally b (n ∷ ns) h = elim (Bool-cases (leb n.freq b)) [
  | inl low ↦ (n.key, n.freq, ground arith, ground (arith, low))
  | inr high ↦
      let (k, f, p, q) = any_to-tally b ns (ground (arith, h, high)) in (k, f, omega arith, q)
]

pub tally-any_to :
    (b : ℕ) (ns : List Node) (k f : ℕ) → 0 < tally ns k f → f ≤ b → any_to b ns ≡ true
unfolding any_to tally unit_at
tally-any_to b [] k f p q = absurd (omega arith)
tally-any_to b (n ∷ ns) k f p q = ground (arith, p, q, tally-any_to b ns k f)

-- If the average is below the bound, one frequency is.
freq_sum-ge : (b : ℕ) (ns : List Node) → any_to b ns ≡ false → suc b * length ns ≤ freq_sum ns
unfolding any_to freq_sum
freq_sum-ge b [] h = omega arith
freq_sum-ge b (n ∷ ns) h = ground (arith, h, freq_sum-ge b ns, mul-suc (suc b) (length ns))

nonempty-length : (ns : List Node) → is_empty ns ≡ false → 0 < length ns
nonempty-length [] h = absurd (ground (arith, h))
nonempty-length (n ∷ ns) h = omega arith

average-div :
    (total : ℕ) (ns : List Node) → is_empty ns ≡ false → average total ns ≡ total / length ns
average-div total ns h = rw h refl

pub average-any_to :
    (b total : ℕ) (ns : List Node)
    → freq_sum ns ≤ total
    → average total ns ≤ b
    → is_empty ns ≡ false
    → any_to b ns ≡ true
average-any_to b total ns covered low some_node = elim (Bool-cases (any_to b ns)) [
  | inl yes_low ↦ yes_low
  | inr all_high ↦
      let size : 0 < length ns = nonempty-length ns some_node in
      let below : total < suc b * length ns =
        (div-lt_iff_lt-mul {x = total} {y = suc b} size).0
          (omega (arith, average-div total ns some_node, low)) in
      absurd (omega (arith, freq_sum-ge b ns all_high, below, covered))
]

-- What updateMinFreq finds.
module _ (ns : List Node) (ls : FreqLists) (knows : KnowsAll ls)
    (holds : (k f : ℕ) → held ls k f ≡ tally ns k f) where
  abbrev least : ℕ
  least = smallest ls.list_of ls.known 127

  least-le : (k f : ℕ) → 0 < tally ns k f → least ≤ f
  least-le k f p =
      let (has, made) = held-has_nodes (ls.list_of f) k (omega (arith, holds k f)) in
      smallest-le_among ls.list_of f ls.known 127 (knows f made) has

  pub least-all_from : all_from least ns ≡ true
  least-all_from = all_from-tally least ns least-le

  pub least-has_nodes : any_to 126 ns ≡ true → (has_nodes (ls.list_of least) ≡ true) × (least < 127)
  least-has_nodes low =
      let (k, f, p, q) = any_to-tally 126 ns low in
      let below : least < 127 = omega (arith, least-le k f p) in
      (
        elim (smallest-has_nodes ls.list_of ls.known 127) [
          | inl same ↦ absurd (omega arith)
          | inr has ↦ has
        ],
        below,
      )
