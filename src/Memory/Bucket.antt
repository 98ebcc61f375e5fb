-- ===== src/Memory/Bucket.antt =====
-- HashBucket: 64 pools, one for each slot size up to 512 bytes, and the plain heap above.
use kama_webserver.Prelude.{
  ℕ, ◌+◌, ◌-◌, ◌*◌, ◌/◌, ◌≤◌, ◌<◌, ◌≡◌, ◌≢◌, refl, ap, ◌∙◌, arith, leb, ltb, ◌==◌, if◌then◌else◌,
}
use kama_webserver.Memory.{MemoryPool, null, init, allocate, deallocate}

abbrev pub memory_pool_num : ℕ
memory_pool_num = 64

abbrev pub slot_base_size : ℕ
slot_base_size = 8

abbrev pub max_slot_size : ℕ
max_slot_size = 512

-- `memoryPool[MEMORY_POOL_NUM]`; the pools at other indices are never asked for.
abbrev pub Pools : Type 0
Pools = ℕ → MemoryPool

pub init_memory_pool : (ℕ → ℕ) → Pools
init_memory_pool memory i = init 4096 ((i + 1) * slot_base_size) memory

unfoldable pub bucket_index : ℕ → ℕ
bucket_index size = (size + 7) / slot_base_size - 1

abbrev pub set_pool : Pools → ℕ → MemoryPool → Pools
set_pool pools i p j = if j == i then p else pools j

-- `new_memory` is the answer of `operator new`, for the request itself or for a block of the pool.
pub use_memory : Pools → ℕ → ℕ → ℕ × Pools
unfolding bucket_index
use_memory pools size new_memory =
    if leb size 0
    then (null, pools)
    else if ltb max_slot_size size
    then (new_memory, pools)
    else from_pool
  where
    from_pool : ℕ × Pools
    from_pool =
        let (p, pool) = allocate (pools (bucket_index size)) new_memory in
        (p, set_pool pools (bucket_index size) pool)

-- A request above 512 bytes goes back to `operator delete`, which is not part of the pools.
pub free_memory : Pools → ℕ → ℕ → Pools
unfolding bucket_index
free_memory pools ptr size =
    if ptr == null
    then pools
    else if ltb max_slot_size size
    then pools
    else set_pool pools (bucket_index size) (deallocate (pools (bucket_index size)) ptr)

-- The fixed sizes of the pools.
abbrev pub AreSized : Pools → Type 0
AreSized pools = (i : ℕ) → (pools i).slot_size ≡ (i + 1) * slot_base_size

pub init-AreSized : (memory : ℕ → ℕ) → AreSized (init_memory_pool memory)
unfolding init_memory_pool init
init-AreSized memory i = refl

-- If the pools have their sizes, then useMemory serves a request of 1 to 512 bytes by an allocation of one
-- of the 64 pools, whose slots are large enough and less than eight bytes larger than the request, and
-- leaves the other pools as they are.
pub use_memory-fits :
    (pools : Pools) (size new_memory j : ℕ)
    → AreSized pools
    → 0 < size
    → size ≤ 512
    → (i : ℕ) × (i < 64)
      × (size ≤ (pools i).slot_size)
      × ((pools i).slot_size < size + 8)
      × ((use_memory pools size new_memory).0 ≡ (allocate (pools i) new_memory).0)
      × ((use_memory pools size new_memory).1 j
          ≡ (if j == i then (allocate (pools i) new_memory).1 else pools j))
unfolding bucket_index use_memory
use_memory-fits pools size new_memory j sized lo hi = (
  bucket_index size,
  omega arith,
  omega (arith, sized (bucket_index size)),
  omega (arith, sized (bucket_index size)),
  ground (arith, lo, hi),
  ground (arith, lo, hi),
)

allocate-deallocate :
    (p : MemoryPool) (a new_block : ℕ) → a ≢ null → (allocate (deallocate p a) new_block).0 ≡ a
unfolding allocate deallocate
allocate-deallocate p a new_block ne = ground arith

use_memory_small :
    (pools : Pools) (size new_memory : ℕ)
    → 0 < size
    → size ≤ max_slot_size
    → (use_memory pools size new_memory).0 ≡ (allocate (pools (bucket_index size)) new_memory).0
unfolding use_memory
use_memory_small pools size new_memory lo hi = ground arith

free_memory_small :
    (pools : Pools) (ptr size i : ℕ)
    → ptr ≢ null
    → size ≤ max_slot_size
    → bucket_index size ≡ i
    → free_memory pools ptr size i ≡ deallocate (pools i) ptr
unfolding free_memory
free_memory_small pools ptr size i ne hi e = ground arith

-- Memory that is given back serves the next request of the same size class: both calls go to the
-- same pool, and its free list is last-in first-out.
pub use_memory-free_memory :
    (pools : Pools) (ptr size size' new_memory : ℕ)
    → ptr ≢ null
    → size ≤ max_slot_size
    → 0 < size'
    → size' ≤ max_slot_size
    → bucket_index size ≡ bucket_index size'
    → (use_memory (free_memory pools ptr size) size' new_memory).0 ≡ ptr
use_memory-free_memory pools ptr size size' new_memory ne hi lo' hi' same =
    use_memory_small (free_memory pools ptr size) size' new_memory lo' hi'
    ∙ ap (λ pool. (allocate pool new_memory).0)
        (free_memory_small pools ptr size (bucket_index size') ne hi same)
    ∙ allocate-deallocate (pools (bucket_index size')) ptr new_memory ne
