-- ===== src/Memory/Tests.antt =====
-- The pool at work, and its theorems at a concrete history.
use kama_webserver.Prelude.{
  ℕ, ◌+◌, ◌%◌, ◌≤◌, ◌<◌, ◌≡◌, refl, inr, some, [], ◌∷◌, ◌==◌, if◌then◌else◌, arith,
}
use kama_webserver.Memory.{init, has_free, is_used_up, pad_pointer, allocate, deallocate, destroy}
use kama_webserver.Memory.Slots.{Separate, All}
use kama_webserver.Memory.Client.{
  System, system, start, IsFresh, IsSized, InBlocks, allocates, Reach, here, next, needs_block,
}
use kama_webserver.Memory.Safety.{no_overlap, live_words_kept}
use kama_webserver.Memory.Padding.{pad_pointer-mod}
use kama_webserver.Memory.Destructor.{destroy_lem}
use kama_webserver.Memory.Bucket.{init_memory_pool, use_memory, init-AreSized, use_memory-fits}

abbrev zeros : ℕ → ℕ
zeros _ = 0

sized : IsSized 4096 16
sized = record { units = 2; multiple = refl; positive = omega arith; roomy = omega arith }

abbrev empty : System
empty = start 4096 16 zeros

fresh : IsFresh 4096 [] 0x1000
fresh = record { ne_null = omega arith; fits = omega arith; apart = tt }

-- Two allocations; the second slot is written and given back.
abbrev one : System
one =
    system (allocate empty.pool 0x1000).1 (needs_block empty.pool [] 0x1000)
      ((allocate empty.pool 0x1000).0 ∷ [])

one-Reach : Reach empty one
unfolding init
one-Reach = next here (allocates 0x1000 fresh)

first_slot : (allocate empty.pool 0x1000).0 ≡ 0x1010
unfolding init allocate pad_pointer
first_slot = refl

no_overlap_example : Separate 16 one.live × All (InBlocks 4096 16 one.blocks) one.live
no_overlap_example = no_overlap 4096 16 zeros sized one-Reach

-- A second slot, from the same block.
abbrev two : System
two =
    system (allocate one.pool 0x9000).1 (needs_block one.pool one.blocks 0x9000)
      ((allocate one.pool 0x9000).0 ∷ one.live)

fresh' : IsFresh 4096 (0x1000 ∷ []) 0x9000
fresh' = record { ne_null = omega arith; fits = omega arith; apart = (inr (omega arith), tt) }

two-Reach : Reach empty two
unfolding init allocate needs_block has_free is_used_up pad_pointer
two-Reach = next one-Reach (allocates 0x9000 fresh')

live_words_kept_example :
    ((allocate two.pool 0x9000).1.memory 0x1018 ≡ two.pool.memory 0x1018)
    × ((deallocate two.pool 0x1020).memory 0x1018 ≡ two.pool.memory 0x1018)
unfolding init allocate needs_block has_free is_used_up pad_pointer
live_words_kept_example =
    live_words_kept 4096 16 zeros {s = two} 0x9000 0x1010 0x1020 0x1018 sized two-Reach fresh' refl
      refl refl (omega arith) (omega arith)

pad_pointer-mod_example : (4104 + pad_pointer 4104 24) % 24 ≡ 16
pad_pointer-mod_example = pad_pointer-mod 4104 24 (omega arith) (omega arith) (omega arith)

destroy_lem_example : destroy 5 two.pool ≡ some two.blocks
unfolding init allocate needs_block has_free is_used_up pad_pointer
destroy_lem_example = destroy_lem 4096 16 zeros 5 {s = two} sized two-Reach (omega arith)

-- The largest request that a pool serves.
use_memory-fits_example :
    (i : ℕ) × (i < 64)
    × (512 ≤ (init_memory_pool zeros i).slot_size)
    × ((init_memory_pool zeros i).slot_size < 520)
    × ((use_memory (init_memory_pool zeros) 512 0x9000).0
        ≡ (allocate (init_memory_pool zeros i) 0x9000).0)
    × ((use_memory (init_memory_pool zeros) 512 0x9000).1 0 ≡ (
        if 0 == i
        then (allocate (init_memory_pool zeros i) 0x9000).1
        else init_memory_pool zeros 0))
use_memory-fits_example =
    use_memory-fits (init_memory_pool zeros) 512 0x9000 0 (init-AreSized zeros) (omega arith)
      (omega arith)
