-- ===== src/Memory/Chains.antt =====
-- Null-terminated chains of words in memory: the free list and the list of blocks.
use kama_webserver.Prelude.{ℕ, ◌≡◌, ◌≢◌, refl, List, [], ◌∷◌, arith}
use kama_webserver.Memory.{null, write}
use kama_webserver.Memory.Slots.{All}

-- From `p` the words lead through `xs` to the null pointer.
abbrev pub Chain : (ℕ → ℕ) → ℕ → List ℕ → Type 0
Chain memory p [] = p ≡ null
Chain memory p (x ∷ xs) = (p ≡ x) × (x ≢ null) × Chain memory (memory x) xs

-- A write elsewhere leaves a chain as it was.
pub Chain-write :
    (memory : ℕ → ℕ) (w v p : ℕ) (xs : List ℕ)
    → All (λ x. x ≢ w) xs
    → Chain memory p xs
    → Chain (write memory w v) p xs
Chain-write memory w v p [] out c = c
Chain-write memory w v p (x ∷ xs) out c =
    (c.0, c.1, rw same (Chain-write memory w v _ xs out.1 c.2))
  where
    same : write memory w v x ≡ memory x
    same = unfold write in ground arith

pub Chain-cons :
    (memory : ℕ → ℕ) (a p : ℕ) (xs : List ℕ)
    → a ≢ null
    → All (λ x. x ≢ a) xs
    → Chain memory p xs
    → Chain (write memory a p) a (a ∷ xs)
Chain-cons memory a p xs ne out c = (refl, ne, rw same (Chain-write memory a p p xs out c))
  where
    same : write memory a p a ≡ p
    same = unfold write in ground arith
