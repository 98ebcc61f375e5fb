-- ===== src/Memory/Client.antt =====
-- A pool with its clients: what `operator new` has handed out, and the slots that are in use.
use kama_webserver.Prelude.{
  ℕ, ◌+◌, ◌*◌, ◌^◌, ◌≤◌, ◌<◌, ◌≡◌, ◌≢◌, ◌⊎◌, true, not, List, [], ◌∷◌, if◌then◌else◌, ◌&&◌,
}
use kama_webserver.Memory.{
  MemoryPool, null, write, init, has_free, is_used_up, allocate, deallocate,
}
use kama_webserver.Memory.Slots.{AllApart, Separate, CrossApart, All, has, remove}
use kama_webserver.Memory.Chains.{Chain}

pub record System : Type 0 where
  pub pool : MemoryPool
  pub blocks : List ℕ
  pub live : List ℕ

-- The contract of `operator new`: not null, inside the address space, apart from what it gave out.
pub record IsFresh (size : ℕ) (blocks : List ℕ) (a : ℕ) : Type 0 where
  pub ne_null : a ≢ null
  pub fits : a + size < 2 ^ 64
  pub apart : AllApart size a blocks

-- The clients see the pool through the slots that they hold; a word that a client writes lies in
-- one of them.
abbrev pub system : MemoryPool → List ℕ → List ℕ → System
system p blocks live = record { pool = p; blocks = blocks; live = live }

abbrev pub start : ℕ → ℕ → (ℕ → ℕ) → System
start block_size size memory = system (init block_size size memory) [] []

unfoldable pub needs_block : MemoryPool → List ℕ → ℕ → List ℕ
needs_block p blocks new_block =
    if not (has_free p) && is_used_up p then new_block ∷ blocks else blocks

pub data Step (s : System) : System → Type 0 where
  allocates :
      (new_block : ℕ)
      → IsFresh s.pool.block_size s.blocks new_block
      → Step s (
          system
            (allocate s.pool new_block).1
            (needs_block s.pool s.blocks new_block)
            ((allocate s.pool new_block).0 ∷ s.live))
  deallocates :
      (a : ℕ)
      → has a s.live ≡ true
      → Step s (system (deallocate s.pool a) s.blocks (remove a s.live))
  writes :
      (a w v : ℕ)
      → has a s.live ≡ true
      → a ≤ w
      → w < a + s.pool.slot_size
      → Step s (system (record s.pool { memory = write s.pool.memory w v }) s.blocks s.live)

pub data Reach (s : System) : System → Type 0 where
  here : Reach s s
  next : {t u : System} → Reach s t → Step t u → Reach s u

-- The slot size is a multiple of eight, and a block has room for a slot behind its padding.
pub record IsSized (block_size size : ℕ) : Type 0 where
  pub units : ℕ
  pub multiple : size ≡ units * 8
  pub positive : 0 < size
  pub roomy : 8 + (size + size) ≤ block_size

-- A slot of one of these blocks, behind the header.
abbrev pub InBlocks : ℕ → ℕ → List ℕ → ℕ → Type 0
InBlocks block_size size [] a = ⊥
InBlocks block_size size (b ∷ bs) a =
    ((b + 8 ≤ a) × (a + size ≤ b + block_size)) ⊎ InBlocks block_size size bs a

-- A slot that has been carved: in an older block, or below `curSlot_` in the first.
abbrev pub Carved : ℕ → ℕ → ℕ → List ℕ → ℕ → Type 0
Carved block_size size cur [] a = ⊥
Carved block_size size cur (b ∷ bs) a =
    ((b + 8 ≤ a) × (a + size ≤ cur)) ⊎ InBlocks block_size size bs a

-- `curSlot_` and `lastSlot_` delimit what is left of the first block.
abbrev pub Current : ℕ → ℕ → ℕ → ℕ → List ℕ → Type 0
Current block_size size cur last [] = (cur ≡ 0) × (last ≡ 0)
Current block_size size cur last (b ∷ bs) =
    (b + 8 ≤ cur) × (cur ≤ b + block_size) × (last + size ≡ b + block_size + 1)

-- `blocks` were handed out by `operator new`, `live` are in use, `free` is the free list.
pub record Inv (block_size size : ℕ) (p : MemoryPool) (blocks live free : List ℕ) : Type 0 where
  pub same_block : p.block_size ≡ block_size
  pub same_slot : p.slot_size ≡ size
  pub free_chain : Chain p.memory p.free_list free
  pub block_chain : Chain p.memory p.first_block blocks
  pub blocks_apart : Separate block_size blocks
  pub blocks_fit : All (λ b. (b ≢ null) × (b + block_size < 2 ^ 64)) blocks
  pub current : Current block_size size p.cur_slot p.last_slot blocks
  pub free_carved : All (Carved block_size size p.cur_slot blocks) free
  pub live_carved : All (Carved block_size size p.cur_slot blocks) live
  pub free_apart : Separate size free
  pub live_apart : Separate size live
  pub cross_apart : CrossApart size free live
