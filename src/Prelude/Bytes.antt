-- ===== src/Prelude/Bytes.antt =====
-- Byte arrays: `std::copy` as the loop that it is, `resize`, and the run of bytes at an index.
use kama_webserver.Prelude.Lists.{
  length, get_or, set, take, drop, replicate, length-set, length-append, length-replicate,
}
use Prim.Native.Nat.{ℕ, zero, suc, ◌+◌, ◌-◌, ◌≤◌, ◌<◌}
use mathlib.Core.Path.{◌≡◌, refl, ap, ap₂, ◌∙◌}
use mathlib.Core.Logic.{◌≢◌}
use mathlib.Core.List.{List, [], ◌∷◌, ◌++◌}
use native.Mathlib.Omega.{arith}

-- `std::copy(data, data + len, begin + i)`.
unfoldable pub store : List ℕ → ℕ → List ℕ → List ℕ
store xs i [] = xs
store xs i (b ∷ bs) = store (set xs i b) (i + 1) bs

-- `std::copy(begin + src, begin + src + n, begin + dst)` inside one array, front to back.
unfoldable pub copy_within : ℕ → List ℕ → ℕ → ℕ → List ℕ
copy_within zero xs src dst = xs
copy_within (suc n) xs src dst = copy_within n (set xs dst (get_or xs src 0)) (src + 1) (dst + 1)

-- `vector::resize`: new elements are zero.
unfoldable pub resize : List ℕ → ℕ → List ℕ
resize xs n = take n xs ++ replicate (n - length xs) 0

-- The `n` bytes from index `i` on.
unfoldable pub window : List ℕ → ℕ → ℕ → List ℕ
window xs i zero = []
window xs i (suc n) = get_or xs i 0 ∷ window xs (i + 1) n

pub length-window : (xs : List ℕ) (i n : ℕ) → length (window xs i n) ≡ n
unfolding window
length-window xs i zero = refl
length-window xs i (suc n) = ap suc (length-window xs (i + 1) n)

pub length-store : (xs : List ℕ) (i : ℕ) (bs : List ℕ) → length (store xs i bs) ≡ length xs
unfolding store
length-store xs i [] = refl
length-store xs i (b ∷ bs) = length-store (set xs i b) (i + 1) bs ∙ length-set xs i b

pub length-copy_within :
    (n : ℕ) (xs : List ℕ) (src dst : ℕ) → length (copy_within n xs src dst) ≡ length xs
unfolding copy_within
length-copy_within zero xs src dst = refl
length-copy_within (suc n) xs src dst =
    length-copy_within n (set xs dst (get_or xs src 0)) (src + 1) (dst + 1)
    ∙ length-set xs dst (get_or xs src 0)

take_all : (n : ℕ) (xs : List ℕ) → length xs ≤ n → take n xs ≡ xs
take_all zero [] h = refl
take_all zero (x ∷ xs) h = absurd (omega arith)
take_all (suc n) [] h = refl
take_all (suc n) (x ∷ xs) h = ap (◌∷◌ x) (take_all n xs (omega arith))

pub length-resize : (xs : List ℕ) (n : ℕ) → length xs ≤ n → length (resize xs n) ≡ n
unfolding resize
length-resize xs n h = rw (take_all n xs h) (
    omega (
      arith,
      length-append xs (replicate (n - length xs) 0),
      length-replicate {A = ℕ} (n - length xs) 0,
    ))

get_or-append : (xs ys : List ℕ) (i : ℕ) → i < length xs → get_or (xs ++ ys) i 0 ≡ get_or xs i 0
get_or-append [] ys i h = absurd (omega arith)
get_or-append (x ∷ xs) ys zero h = refl
get_or-append (x ∷ xs) ys (suc i) h = get_or-append xs ys i (omega arith)

pub get_or-set_self : (xs : List ℕ) (i v : ℕ) → i < length xs → get_or (set xs i v) i 0 ≡ v
get_or-set_self [] i v h = absurd (omega arith)
get_or-set_self (x ∷ xs) zero v h = refl
get_or-set_self (x ∷ xs) (suc i) v h = get_or-set_self xs i v (omega arith)

pub get_or-set_ne : (xs : List ℕ) (i j v : ℕ) → i ≢ j → get_or (set xs i v) j 0 ≡ get_or xs j 0
get_or-set_ne [] i j v h = refl
get_or-set_ne (x ∷ xs) zero zero v h = absurd (h refl)
get_or-set_ne (x ∷ xs) zero (suc j) v h = refl
get_or-set_ne (x ∷ xs) (suc i) zero v h = refl
get_or-set_ne (x ∷ xs) (suc i) (suc j) v h = get_or-set_ne xs i j v (λ e. h (ap suc e))

-- A run depends only on the bytes at its indices.
pub window_cong :
    (xs ys : List ℕ) (i j n : ℕ)
    → ((k : ℕ) → k < n → get_or xs (i + k) 0 ≡ get_or ys (j + k) 0)
    → window xs i n ≡ window ys j n
unfolding window
window_cong xs ys i j zero h = refl
window_cong xs ys i j (suc n) h = ap₂ ◌∷◌ here (window_cong xs ys (i + 1) (j + 1) n later)
  where
    here : get_or xs i 0 ≡ get_or ys j 0
    here =
        ap (λ t. get_or xs t 0) (omega arith)
        ∙ h 0 (omega arith)
        ∙ ap (λ t. get_or ys t 0) (omega arith)

    later : (k : ℕ) → k < n → get_or xs (i + 1 + k) 0 ≡ get_or ys (j + 1 + k) 0
    later k l =
        ap (λ t. get_or xs t 0) (omega arith)
        ∙ h (k + 1) (omega arith)
        ∙ ap (λ t. get_or ys t 0) (omega arith)

pub window-resize :
    (xs : List ℕ) (m i n : ℕ)
    → length xs ≤ m
    → i + n ≤ length xs
    → window (resize xs m) i n ≡ window xs i n
unfolding resize
window-resize xs m i n h l =
    rw (take_all m xs h) (window_cong _ _ i i n (λ k lt. get_or-append xs _ (i + k) (omega arith)))

get_or-store_apart :
    (xs : List ℕ) (i : ℕ) (bs : List ℕ) (j : ℕ) → j < i → get_or (store xs i bs) j 0 ≡ get_or xs j 0
unfolding store
get_or-store_apart xs i [] j h = refl
get_or-store_apart xs i (b ∷ bs) j h =
    get_or-store_apart (set xs i b) (i + 1) bs j (omega arith)
    ∙ get_or-set_ne xs i j b (omega arith)

pub window-store_before :
    (xs : List ℕ) (i : ℕ) (bs : List ℕ) (j n : ℕ)
    → j + n ≤ i
    → window (store xs i bs) j n ≡ window xs j n
window-store_before xs i bs j n h =
    window_cong _ _ j j n (λ k lt. get_or-store_apart xs i bs (j + k) (omega arith))

-- What `store` wrote can be read back.
pub window-store :
    (xs : List ℕ) (i : ℕ) (bs : List ℕ)
    → i + length bs ≤ length xs
    → window (store xs i bs) i (length bs) ≡ bs
unfolding window store
window-store xs i [] h = refl
window-store xs i (b ∷ bs) h =
    ap₂ ◌∷◌
      (get_or-store_apart (set xs i b) (i + 1) bs i (omega arith)
        ∙ get_or-set_self xs i b (omega arith))
      (window-store (set xs i b) (i + 1) bs (omega (arith, length-set xs i b)))

-- The same for a front part of what it wrote.
pub window-store_front :
    (xs : List ℕ) (i : ℕ) (bs more : List ℕ)
    → i + length bs ≤ length xs
    → window (store xs i (bs ++ more)) i (length bs) ≡ bs
unfolding window store
window-store_front xs i [] more h = refl
window-store_front xs i (b ∷ bs) more h =
    ap₂ ◌∷◌
      (get_or-store_apart (set xs i b) (i + 1) (bs ++ more) i (omega arith)
        ∙ get_or-set_self xs i b (omega arith))
      (window-store_front (set xs i b) (i + 1) bs more (omega (arith, length-set xs i b)))

pub window-append :
    (xs : List ℕ) (i m n : ℕ) → window xs i (m + n) ≡ window xs i m ++ window xs (i + m) n
unfolding window
window-append xs i zero n = ap₂ (window xs) (omega arith) (omega arith)
window-append xs i (suc m) n =
    ap (window xs i) split
    ∙ ap (◌∷◌ (get_or xs i 0)) (
        window-append xs (i + 1) m n ∙ ap (λ t. window xs (i + 1) m ++ window xs t n) (omega arith))
  where
    split : suc m + n ≡ suc (m + n)
    split = omega arith

get_or-copy_within :
    (n : ℕ) (xs : List ℕ) (src dst j : ℕ)
    → j < dst
    → get_or (copy_within n xs src dst) j 0 ≡ get_or xs j 0
unfolding copy_within
get_or-copy_within zero xs src dst j h = refl
get_or-copy_within (suc n) xs src dst j h =
    get_or-copy_within n _ (src + 1) (dst + 1) j (omega arith)
    ∙ get_or-set_ne xs dst j _ (omega arith)

-- Copying down is safe although source and target may overlap.
pub window-copy_within :
    (n : ℕ) (xs : List ℕ) (src dst : ℕ)
    → dst ≤ src
    → src + n ≤ length xs
    → window (copy_within n xs src dst) dst n ≡ window xs src n
unfolding copy_within window
window-copy_within zero xs src dst h l = refl
window-copy_within (suc n) xs src dst h l =
    ap₂ ◌∷◌
      (get_or-copy_within n _ (src + 1) (dst + 1) dst (omega arith)
        ∙ get_or-set_self xs dst _ (omega arith))
      (window-copy_within n _ (src + 1) (dst + 1) (omega arith)
          (omega (arith, length-set xs dst (get_or xs src 0)))
        ∙ window_cong _ _ (src + 1) (src + 1) n
            (λ k lt. get_or-set_ne xs dst (src + 1 + k) _ (omega arith)))

pub window-take : (xs : List ℕ) (i m n : ℕ) → m ≤ n → take m (window xs i n) ≡ window xs i m
unfolding window
window-take xs i zero n h = refl
window-take xs i (suc m) zero h = absurd (omega arith)
window-take xs i (suc m) (suc n) h =
    ap (◌∷◌ (get_or xs i 0)) (window-take xs (i + 1) m n (omega arith))

pub window-drop : (xs : List ℕ) (i m n : ℕ) → drop m (window xs i n) ≡ window xs (i + m) (n - m)
unfolding window
window-drop xs i zero n = ap₂ (window xs) (omega arith) (omega arith)
window-drop xs i (suc m) zero = ap (window xs (i + suc m)) {x = 0} {y = 0 - suc m} (omega arith)
window-drop xs i (suc m) (suc n) =
    window-drop xs (i + 1) m n ∙ ap₂ (window xs) (omega arith) (omega arith)
