-- ===== src/Server/RoundRobin.antt =====
-- src/EventLoopThreadPool.cc: the loops take turns.
use kama_webserver.Prelude.{
  ℕ, zero, suc, ◌<◌, ◌≡◌, refl, ap, ◌∙◌, false, List, [], ◌∷◌, ◌++◌, length, get_or, length-append,
  arith,
}
use kama_webserver.Server.{
  EventLoopThreadPool, init_pool, start_loops, start_pool, get_next_loop, is_empty,
}

-- The pool after that many calls.
pub after_calls : ℕ → EventLoopThreadPool → EventLoopThreadPool
after_calls zero p = p
after_calls (suc k) p = (get_next_loop (after_calls k p)).1

length-start_loops : (start_loop : ℕ → ℕ) (n : ℕ) → length (start_loops start_loop n) ≡ n
unfolding start_loops
length-start_loops start_loop zero = refl
length-start_loops start_loop (suc n) = omega (
  arith,
  length-append (start_loops start_loop n) (start_loop n ∷ []),
  length-start_loops start_loop n,
)

get_or-append_left :
    (xs ys : List ℕ) (i d : ℕ) → i < length xs → get_or (xs ++ ys) i d ≡ get_or xs i d
get_or-append_left [] ys i d h = absurd (omega arith)
get_or-append_left (x ∷ xs) ys zero d h = refl
get_or-append_left (x ∷ xs) ys (suc i) d h = get_or-append_left xs ys i d (omega arith)

get_or-append_last : (xs : List ℕ) (y d : ℕ) → get_or (xs ++ y ∷ []) (length xs) d ≡ y
get_or-append_last [] y d = refl
get_or-append_last (x ∷ xs) y d = get_or-append_last xs y d

get_or-start_loops :
    (start_loop : ℕ → ℕ) (n i d : ℕ) → i < n → get_or (start_loops start_loop n) i d ≡ start_loop i
unfolding start_loops
get_or-start_loops start_loop zero i d h = absurd (omega arith)
get_or-start_loops start_loop (suc n) i d h = ground (
  arith,
  get_or-append_left (start_loops start_loop n) (start_loop n ∷ []) i d,
  get_or-append_last (start_loops start_loop n) (start_loop n) d,
  get_or-start_loops start_loop n i d,
  length-start_loops start_loop n,
)

nonempty : (xs : List ℕ) → 0 < length xs → is_empty xs ≡ false
nonempty [] h = absurd (omega arith)
nonempty (x ∷ xs) h = refl

loops-after_calls : (k : ℕ) (p : EventLoopThreadPool) → (after_calls k p).loops ≡ p.loops
unfolding after_calls get_next_loop
loops-after_calls zero p = refl
loops-after_calls (suc k) p = ground (arith, loops-after_calls k p)

next-after_calls :
    (k : ℕ) (p : EventLoopThreadPool) → p.next ≡ 0 → k < length p.loops → (after_calls k p).next ≡ k
unfolding after_calls get_next_loop
next-after_calls zero p first h = first
next-after_calls (suc k) p first h = ground (
  arith,
  next-after_calls k p first,
  loops-after_calls k p,
  ap length (loops-after_calls k p),
  nonempty p.loops,
)

module _ (start_loop : ℕ → ℕ) (n : ℕ) (p : EventLoopThreadPool)
    (made : p.loops ≡ start_loops start_loop n) (first : p.next ≡ 0) where
  count : length p.loops ≡ n
  count = ap length made ∙ length-start_loops start_loop n

  next_loop-after_calls : (k : ℕ) → k < n → (get_next_loop (after_calls k p)).0 ≡ start_loop k
  unfolding get_next_loop
  next_loop-after_calls k h = ground (
    arith,
    next-after_calls k p first,
    loops-after_calls k p,
    made,
    count,
    nonempty p.loops,
    ap (λ xs. get_or xs k (after_calls k p).base_loop) (loops-after_calls k p ∙ made),
    get_or-start_loops start_loop n k (after_calls k p).base_loop h,
  )

  next-wraps : (m : ℕ) → m ≡ n → (after_calls m p).next ≡ 0
  unfolding after_calls get_next_loop
  next-wraps zero eq = first
  next-wraps (suc m) eq = ground (
    arith,
    eq,
    next-after_calls m p first,
    loops-after_calls m p,
    ap length (loops-after_calls m p),
    count,
    nonempty p.loops,
  )

  next-after_round : (after_calls n p).next ≡ 0
  next-after_round = next-wraps n refl

-- A pool that was started with at least one thread hands out the loop of the k-th thread at its
-- k-th call, and after as many calls as there are threads it starts again at the first.
pub get_next_loop_lem :
    (start_loop : ℕ → ℕ) (base_loop n k : ℕ)
    → k < n
    → ((get_next_loop (after_calls k (start_pool start_loop (init_pool base_loop n)))).0
        ≡ start_loop k)
      × ((after_calls n (start_pool start_loop (init_pool base_loop n))).next ≡ 0)
unfolding start_pool init_pool
get_next_loop_lem start_loop base_loop n k h = (
  next_loop-after_calls start_loop n (start_pool start_loop (init_pool base_loop n)) refl refl k h,
  next-after_round start_loop n (start_pool start_loop (init_pool base_loop n)) refl refl,
)
