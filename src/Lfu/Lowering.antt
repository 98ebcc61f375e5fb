-- ===== src/Lfu/Lowering.antt =====
-- The loop of handleOverMaxAverageNum: every node moves to the list of its lowered frequency.
use kama_webserver.Prelude.{
  ℕ, suc, ◌+◌, ◌≤◌, ◌<◌, ◌≡◌, refl, ap, true, none, some, List, [], ◌∷◌, length, arith,
}
use kama_webserver.Lfu.{Node, FreqLists, find, lowered, lower_all, add_to_freq_list}
use kama_webserver.Lfu.Counting.{tally, unit_at, key_count, freq_sum, all_from, any_to}
use kama_webserver.Lfu.Lists.{held, KnowsAll, held-add, add-KnowsAll, remove_from_freq_list-held}

abbrev pub lowered_all : ℕ → List Node → List Node
lowered_all half [] = []
lowered_all half (n ∷ ns) = lowered half n ∷ lowered_all half ns

unit_self : (n : Node) → unit_at n n.key n.freq ≡ 1
unfolding unit_at
unit_self n = ground arith

-- The loop ends well if the nodes to come, and possibly others, are all held; then the lists hold
-- the others as before and the nodes at their lowered frequencies.
pub lower_all-held :
    (half : ℕ) (ns : List Node) (ls : FreqLists) (others : ℕ → ℕ → ℕ)
    → ((k f : ℕ) → held ls k f ≡ others k f + tally ns k f)
    → (after : FreqLists) × (lower_all half ns ls ≡ some (lowered_all half ns, after))
      × ((k f : ℕ) → held after k f ≡ others k f + tally (lowered_all half ns) k f)
      × (KnowsAll ls → KnowsAll after)
unfolding lower_all tally
lower_all-held half [] ls others holds = (ls, refl, holds, (λ all. all))
lower_all-held half (n ∷ ns) ls others holds =
    let (removed, eq, less, all) =
      remove_from_freq_list-held n ls (omega (arith, holds n.key n.freq, unit_self n)) in
    let entered = add_to_freq_list (lowered half n) removed in
    let (after, eq', holds', all') =
      lower_all-held half ns entered (λ k f. others k f + unit_at (lowered half n) k f)
        (λ k f. omega (arith, holds k f, less k f, held-add (lowered half n) removed k f)) in
    (
      after,
      rw (eq, eq') refl,
      (λ k f. omega (arith, holds' k f)),
      (λ known. all' (add-KnowsAll (lowered half n) removed (all known))),
    )

module _ (half : ℕ) where
  pub key_count-lowered :
      (ns : List Node) (k : ℕ) → key_count (lowered_all half ns) k ≡ key_count ns k
  unfolding key_count
  key_count-lowered [] k = refl
  key_count-lowered (n ∷ ns) k = omega (arith, key_count-lowered ns k)

  pub length-lowered : (ns : List Node) → length (lowered_all half ns) ≡ length ns
  length-lowered [] = refl
  length-lowered (n ∷ ns) = ap suc (length-lowered ns)

  pub freq_sum-lowered :
      (ns : List Node) → all_from 1 ns ≡ true → freq_sum (lowered_all half ns) ≤ freq_sum ns
  unfolding freq_sum all_from
  freq_sum-lowered [] h = omega arith
  freq_sum-lowered (n ∷ ns) h = ground (arith, h, freq_sum-lowered ns)

  pub all_from-lowered : (ns : List Node) → all_from 1 (lowered_all half ns) ≡ true
  unfolding all_from
  all_from-lowered [] = refl
  all_from-lowered (n ∷ ns) = ground (arith, all_from-lowered ns)

  -- One frequency goes below any positive bound that it reached.
  pub any_to-lowered :
      (b : ℕ) (ns : List Node)
      → 0 < half
      → 0 < b
      → any_to (suc b) ns ≡ true
      → any_to b (lowered_all half ns) ≡ true
  unfolding any_to
  any_to-lowered b [] h p k = absurd (ground (arith, k))
  any_to-lowered b (n ∷ ns) h p k = ground (arith, h, p, k, any_to-lowered b ns)

  pub find-lowered :
      (ns : List Node) (k : ℕ) (n : Node)
      → find ns k ≡ some n
      → find (lowered_all half ns) k ≡ some (lowered half n)
  unfolding find
  find-lowered [] k n h = absurd (ground (arith, h))
  find-lowered (x ∷ xs) k n h = ground (arith, h, find-lowered xs k n)

  pub find-lowered_none :
      (ns : List Node) (k : ℕ) → find ns k ≡ none → find (lowered_all half ns) k ≡ none
  unfolding find
  find-lowered_none [] k h = refl
  find-lowered_none (x ∷ xs) k h = ground (arith, h, find-lowered_none xs k)
