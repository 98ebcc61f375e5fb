-- ===== src/Memory/Padding.antt =====
-- MemoryPool::padPointer.
use native.Mathlib.Nat.{add-mod-mod, add-mod_right}
use kama_webserver.Prelude.{ℕ, ◌+◌, ◌-◌, ◌%◌, ◌^◌, ◌<◌, ◌≡◌, arith, ◌∙◌, ap}
use kama_webserver.Memory.{pad_pointer}

-- The padding is less than a slot.
pub pad_pointer-lt : (p align : ℕ) → 0 < align → pad_pointer p align < align
unfolding pad_pointer
pad_pointer-lt p align h = ground arith

-- Behind the padding an address above `align` is congruent to 2 ^ 64 modulo `align`: the unsigned
-- subtraction wraps before the remainder is taken, so the slots are aligned to their size exactly
-- where it divides 2 ^ 64.
pub pad_pointer-mod :
    (p align : ℕ)
    → 0 < align
    → align < p
    → p < 2 ^ 64
    → (p + pad_pointer p align) % align ≡ 2 ^ 64 % align
unfolding pad_pointer
pad_pointer-mod p align pos lo hi =
    ap (λ t. (p + t % align) % align) no_wrap
    ∙ add-mod-mod p (align + 2 ^ 64 - p) align
    ∙ ap (λ t. t % align) sum
    ∙ add-mod_right (2 ^ 64) align
  where
    no_wrap : (align + 2 ^ 64 - p) % 2 ^ 64 ≡ align + 2 ^ 64 - p
    no_wrap = omega arith

    sum : p + (align + 2 ^ 64 - p) ≡ 2 ^ 64 + align
    sum = omega arith
