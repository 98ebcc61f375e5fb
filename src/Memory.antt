-- ===== src/Memory.antt =====
-- include/memoryPool.h and memory/memoryPool.cc: fixed-size slots carved from blocks, with a free
-- list threaded through the slots that were given back. Addresses are numbers, `memory` is the word
-- at each address, and the answer of `operator new` is an argument. Each call runs under its lock.
pub mod Slots
pub mod Chains
pub mod Client
pub mod Carving
pub mod Safety
pub mod Padding
pub mod Destructor
pub mod Bucket
mod Tests
use mathlib.Core.Option
use kama_webserver.Prelude.{
  ℕ, zero, suc, ◌+◌, ◌-◌, ◌*◌, ◌/◌, ◌%◌, ◌^◌, Bool, true, false, Option, none, some, List, [], ◌∷◌,
  leb, ◌==◌, if◌then◌else◌,
}

abbrev pub null : ℕ
null = 0

-- `sizeof(Slot)`, also `sizeof(Slot*)`.
abbrev pub slot_header : ℕ
slot_header = 8

pub record MemoryPool : Type 0 where
  pub block_size : ℕ
  pub slot_size : ℕ
  pub first_block : ℕ
  pub cur_slot : ℕ
  pub free_list : ℕ
  pub last_slot : ℕ
  pub memory : ℕ → ℕ

unfoldable pub write : (ℕ → ℕ) → ℕ → ℕ → ℕ → ℕ
write memory w v a = if a == w then v else memory a

pub init : ℕ → ℕ → (ℕ → ℕ) → MemoryPool
init block_size size memory = record {
  block_size = block_size;
  slot_size = size;
  first_block = null;
  cur_slot = null;
  free_list = null;
  last_slot = null;
  memory = memory;
}

-- `(align - p) % align` in `size_t`.
unfoldable pub pad_pointer : ℕ → ℕ → ℕ
pad_pointer p align = (align + 2 ^ 64 - p) % 2 ^ 64 % align

-- `new_block` is what `operator new(BlockSize_)` returns.
pub allocate_new_block : MemoryPool → ℕ → MemoryPool
allocate_new_block p new_block = record p {
  memory = write p.memory new_block p.first_block;
  first_block = new_block;
  cur_slot = body + pad_pointer body p.slot_size;
  last_slot = (new_block + p.block_size + 2 ^ 64 - p.slot_size + 1) % 2 ^ 64;
  free_list = null;
}
  where
    body : ℕ
    body = new_block + slot_header

-- The free list has an entry.
pub has_free : MemoryPool → Bool
has_free p = if p.free_list == null then false else true

-- The current block has no slot left.
pub is_used_up : MemoryPool → Bool
is_used_up p = leb p.last_slot p.cur_slot

-- `temp = curSlot_; curSlot_ += SlotSize_ / sizeof(Slot)`, in slots of eight bytes.
pub carve : MemoryPool → ℕ × MemoryPool
carve p = (p.cur_slot, record p { cur_slot = p.cur_slot + p.slot_size / slot_header * slot_header })

pub allocate : MemoryPool → ℕ → ℕ × MemoryPool
unfolding has_free is_used_up carve allocate_new_block
allocate p new_block =
    if has_free p
    then (p.free_list, record p { free_list = p.memory p.free_list })
    else carve (if is_used_up p then allocate_new_block p new_block else p)

pub deallocate : MemoryPool → ℕ → MemoryPool
deallocate p ptr =
    if ptr == null then p else record p { memory = write p.memory ptr p.free_list; free_list = ptr }

-- The destructor: the blocks handed to `operator delete`, in order; `none` if the fuel runs out.
pub destroy_from : ℕ → (ℕ → ℕ) → ℕ → Option (List ℕ)
destroy_from zero memory cur = none
destroy_from (suc fuel) memory cur =
    let rest = Option.map (◌∷◌ cur) (destroy_from fuel memory (memory cur)) in
    if cur == null then some [] else rest

pub destroy : ℕ → MemoryPool → Option (List ℕ)
unfolding destroy_from
destroy fuel p = destroy_from fuel p.memory p.first_block
