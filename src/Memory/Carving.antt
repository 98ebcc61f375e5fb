-- ===== src/Memory/Carving.antt =====
-- A slot carved from the current block, and a new block: neither meets a slot carved before.
use kama_webserver.Prelude.{
  ℕ, ◌+◌, ◌*◌, ◌/◌, ◌≤◌, ◌<◌, ◌≡◌, inl, inr, refl, false, List, [], ◌∷◌, arith,
}
use kama_webserver.Memory.{MemoryPool, is_used_up, carve, allocate_new_block, pad_pointer}
use kama_webserver.Memory.Slots.{Apart, AllApart, All, All-mono, ne-AllApart}
use kama_webserver.Memory.Chains.{Chain-cons}
use kama_webserver.Memory.Padding.{pad_pointer-lt}
use kama_webserver.Memory.Client.{IsFresh, IsSized, InBlocks, Carved, Current, Inv}

module _ (block_size size : ℕ) where
  -- A slot inside a block is apart from the slots of blocks that are apart from it.
  pub InBlocks-Apart :
      (b c a : ℕ) (bs : List ℕ)
      → AllApart block_size b bs
      → b ≤ c
      → c + size ≤ b + block_size
      → InBlocks block_size size bs a
      → Apart size c a
  InBlocks-Apart b c a [] apart lo hi h = elim h [ ]
  InBlocks-Apart b c a (x ∷ bs) apart lo hi (inl h) = ground arith
  InBlocks-Apart b c a (x ∷ bs) apart lo hi (inr h) = InBlocks-Apart b c a bs apart.1 lo hi h

  Carved-Apart :
      (b cur a : ℕ) (bs : List ℕ)
      → AllApart block_size b bs
      → b ≤ cur
      → cur + size ≤ b + block_size
      → Carved block_size size cur (b ∷ bs) a
      → Apart size cur a
  Carved-Apart b cur a bs apart lo hi (inl h) = inr h.1
  Carved-Apart b cur a bs apart lo hi (inr h) = InBlocks-Apart b cur a bs apart lo hi h

  pub Carved-AllApart :
      (b cur : ℕ) (bs xs : List ℕ)
      → AllApart block_size b bs
      → b ≤ cur
      → cur + size ≤ b + block_size
      → All (Carved block_size size cur (b ∷ bs)) xs
      → AllApart size cur xs
  Carved-AllApart b cur bs [] apart lo hi h = tt
  Carved-AllApart b cur bs (x ∷ xs) apart lo hi h =
      (Carved-Apart b cur x bs apart lo hi h.0, Carved-AllApart b cur bs xs apart lo hi h.1)

  pub Carved-mono :
      (cur cur' : ℕ) (bs : List ℕ) (a : ℕ)
      → cur ≤ cur'
      → Carved block_size size cur bs a
      → Carved block_size size cur' bs a
  Carved-mono cur cur' [] a h c = c
  Carved-mono cur cur' (b ∷ bs) a h (inl c) = inl (c.0, omega arith)
  Carved-mono cur cur' (b ∷ bs) a h (inr c) = inr c

  -- What was carved lies in the blocks.
  pub Carved-InBlocks :
      (cur last : ℕ) (bs : List ℕ) (a : ℕ)
      → Current block_size size cur last bs
      → Carved block_size size cur bs a
      → InBlocks block_size size bs a
  Carved-InBlocks cur last [] a now c = c
  Carved-InBlocks cur last (b ∷ bs) a now (inl c) = inl (c.0, omega arith)
  Carved-InBlocks cur last (b ∷ bs) a now (inr c) = inr c

  carved_size : IsSized block_size size → size / 8 * 8 ≡ size
  carved_size sized = omega (arith, sized.multiple)

  -- Carving the next slot of a block that is not used up keeps the invariant.
  pub carve-Inv :
      (p : MemoryPool) (blocks live : List ℕ)
      → IsSized block_size size
      → Inv block_size size p blocks live []
      → is_used_up p ≡ false
      → Inv block_size size (carve p).1 blocks ((carve p).0 ∷ live) []
  unfolding carve is_used_up
  carve-Inv p [] live sized v more = absurd (ground arith)
  carve-Inv p (b ∷ bs) live sized v more = record {
    same_block = v.same_block;
    same_slot = v.same_slot;
    free_chain = v.free_chain;
    block_chain = v.block_chain;
    blocks_apart = v.blocks_apart;
    blocks_fit = v.blocks_fit;
    current = (omega arith, omega (arith, room), v.current.2);
    free_carved = tt;
    live_carved = (
      inl (v.current.0, omega arith),
      All-mono _ _ live (λ a. Carved-mono p.cur_slot _ (b ∷ bs) a (omega arith)) v.live_carved,
    );
    free_apart = tt;
    live_apart = (
      Carved-AllApart b p.cur_slot bs live v.blocks_apart.0 (omega arith) room v.live_carved,
      v.live_apart,
    );
    cross_apart = tt;
  }
    where
      room : p.cur_slot + size ≤ b + block_size
      room = ground (arith, v.current)

      whole : p.slot_size / 8 * 8 ≡ size
      whole = omega (arith, sized.multiple, v.same_slot)

  -- A new block comes with an empty free list, and has room for a slot behind its padding.
  pub allocate_new_block-Inv :
      (p : MemoryPool) (blocks live : List ℕ) (new_block : ℕ)
      → IsSized block_size size
      → IsFresh block_size blocks new_block
      → Inv block_size size p blocks live []
      → Inv block_size size (allocate_new_block p new_block) (new_block ∷ blocks) live []
        × (is_used_up (allocate_new_block p new_block) ≡ false)
  unfolding allocate_new_block is_used_up
  allocate_new_block-Inv p blocks live new_block sized fresh v = (
    record {
      same_block = v.same_block;
      same_slot = v.same_slot;
      free_chain = refl;
      block_chain =
          Chain-cons p.memory new_block p.first_block blocks fresh.ne_null
            (ne-AllApart block_size new_block blocks (omega arith) fresh.apart) v.block_chain;
      blocks_apart = (fresh.apart, v.blocks_apart);
      blocks_fit = ((fresh.ne_null, fresh.fits), v.blocks_fit);
      current = (omega arith, omega (arith, padding), omega arith);
      free_carved = tt;
      live_carved =
          All-mono _ _ live
            (λ a c. inr (Carved-InBlocks p.cur_slot p.last_slot blocks a v.current c))
            v.live_carved;
      free_apart = tt;
      live_apart = v.live_apart;
      cross_apart = tt;
    },
    ground (arith, padding),
  )
    where
      padding : pad_pointer (new_block + 8) p.slot_size < size
      padding = omega (arith, pad_pointer-lt (new_block + 8) p.slot_size (omega arith), v.same_slot)
