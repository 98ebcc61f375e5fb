-- ===== src/Memory/Safety.antt =====
-- Every call of the pool and every write of a client keeps the invariant, so no history hands out
-- a slot twice.
use kama_webserver.Prelude.{
  ℕ, ◌+◌, ◌≤◌, ◌<◌, ◌≡◌, ◌≢◌, ◌==◌, inl, inr, refl, Bool, true, false, List, [], ◌∷◌, arith,
}
use mathlib.Core.Path.{subst}
use kama_webserver.Memory.{
  MemoryPool, null, write, init, is_used_up, has_free, carve, allocate_new_block, allocate,
  deallocate,
}
use kama_webserver.Memory.Slots.{
  AllApart, Separate, All, All-mono, All-remove, All-has, AllApart-has, has, remove, Separate-has,
  Separate-remove, CrossApart-cons, CrossApart-remove, CrossApart-has,
}
use kama_webserver.Memory.Chains.{Chain-cons, Chain-write}
use kama_webserver.Memory.Carving.{carve-Inv, allocate_new_block-Inv, Carved-InBlocks}
use kama_webserver.Memory.Client.{
  System, system, start, IsFresh, IsSized, InBlocks, Inv, Step, allocates, deallocates, writes,
  Reach, here, next, needs_block,
}

module _ (block_size size : ℕ) where
  -- The invariant, with the free list left open.
  abbrev pub IsSafe : System → Type 0
  IsSafe s = (free : List ℕ) × Inv block_size size s.pool s.blocks s.live free

  pop-Inv :
      (p : MemoryPool) (blocks live : List ℕ) (a : ℕ) (free : List ℕ)
      → Inv block_size size p blocks live (a ∷ free)
      → Inv block_size size
          (record p { free_list = p.memory p.free_list })
          blocks
          (p.free_list ∷ live)
          free
  pop-Inv p blocks live a free v = rw v.free_chain.0 (record {
    same_block = v.same_block;
    same_slot = v.same_slot;
    free_chain = v.free_chain.2;
    block_chain = v.block_chain;
    blocks_apart = v.blocks_apart;
    blocks_fit = v.blocks_fit;
    current = v.current;
    free_carved = v.free_carved.1;
    live_carved = (v.free_carved.0, v.live_carved);
    free_apart = v.free_apart.1;
    live_apart = (v.cross_apart.0, v.live_apart);
    cross_apart = CrossApart-cons size a free live v.cross_apart.1 v.free_apart.0;
  })

  new_slot-Inv :
      (p : MemoryPool) (blocks live : List ℕ) (new_block : ℕ) (used_up : Bool)
      → is_used_up p ≡ used_up
      → has_free p ≡ false
      → IsSized block_size size
      → IsFresh block_size blocks new_block
      → Inv block_size size p blocks live []
      → IsSafe (
          system
            (allocate p new_block).1
            (needs_block p blocks new_block)
            ((allocate p new_block).0 ∷ live))
  unfolding allocate needs_block
  new_slot-Inv p blocks live new_block false e none sized fresh v =
      rw (none, e) ([], carve-Inv block_size size p blocks live sized v e)
  new_slot-Inv p blocks live new_block true e none sized fresh v =
      let (v', room) =
        allocate_new_block-Inv block_size size p blocks live new_block sized fresh v in
      rw (none, e) ([], carve-Inv block_size size _ (new_block ∷ blocks) live sized v' room)

  allocate-Inv :
      (p : MemoryPool) (blocks live : List ℕ) (new_block : ℕ) (free : List ℕ)
      → IsSized block_size size
      → IsFresh block_size blocks new_block
      → Inv block_size size p blocks live free
      → IsSafe (
          system
            (allocate p new_block).1
            (needs_block p blocks new_block)
            ((allocate p new_block).0 ∷ live))
  unfolding has_free
  allocate-Inv p blocks live new_block [] sized fresh v =
      new_slot-Inv p blocks live new_block (is_used_up p) refl (ground (arith, v.free_chain)) sized
        fresh v
  allocate-Inv p blocks live new_block (a ∷ free) sized fresh v =
      unfold allocate needs_block in rw some_free (free, pop-Inv p blocks live a free v)
    where
      some_free : has_free p ≡ true
      some_free = ground (arith, v.free_chain)

  outside :
      (b w : ℕ) (bs : List ℕ)
      → AllApart block_size b bs
      → b ≤ w
      → w < b + block_size
      → All (λ x. x ≢ w) bs
  outside b w [] apart lo hi = tt
  outside b w (x ∷ bs) apart lo hi = ((λ e. ground arith), outside b w bs apart.1 lo hi)

  inside :
      (x a w : ℕ) (bs : List ℕ)
      → AllApart block_size x bs
      → 0 < block_size
      → a ≤ w
      → w < a + size
      → InBlocks block_size size bs a
      → x ≢ w
  inside x a w [] apart pos lo hi h e = elim h [ ]
  inside x a w (b ∷ bs) apart pos lo hi (inl h) e = ground arith
  inside x a w (b ∷ bs) apart pos lo hi (inr h) e = inside x a w bs apart.1 pos lo hi h e

  -- No block starts inside a slot.
  headers-ne :
      (a w : ℕ) (bs : List ℕ)
      → Separate block_size bs
      → 0 < block_size
      → a ≤ w
      → w < a + size
      → InBlocks block_size size bs a
      → All (λ x. x ≢ w) bs
  headers-ne a w [] apart pos lo hi h = tt
  headers-ne a w (b ∷ bs) apart pos lo hi (inl h) =
      ((λ e. omega arith), outside b w bs apart.0 (omega arith) (omega arith))
  headers-ne a w (b ∷ bs) apart pos lo hi (inr h) =
      ((λ e. inside b a w bs apart.0 pos lo hi h e), headers-ne a w bs apart.1 pos lo hi h)

  slots-ne :
      (a w : ℕ) (xs : List ℕ)
      → 0 < size
      → a ≤ w
      → w < a + size
      → AllApart size a xs
      → All (λ x. x ≢ w) xs
  slots-ne a w [] pos lo hi h = tt
  slots-ne a w (x ∷ xs) pos lo hi h = ((λ e. ground arith), slots-ne a w xs pos lo hi h.1)

  InBlocks-ne_null : (a : ℕ) (bs : List ℕ) → InBlocks block_size size bs a → a ≢ null
  InBlocks-ne_null a [] h e = elim h [ ]
  InBlocks-ne_null a (b ∷ bs) (inl h) e = omega arith
  InBlocks-ne_null a (b ∷ bs) (inr h) e = InBlocks-ne_null a bs h e

  -- A word in a live slot is no header of a block and no free slot.
  module _ (p : MemoryPool) (blocks live free : List ℕ) (sized : IsSized block_size size)
      (v : Inv block_size size p blocks live free) (a : ℕ) (held : has a live ≡ true) where
    pub live-InBlocks : InBlocks block_size size blocks a
    live-InBlocks =
        Carved-InBlocks block_size size p.cur_slot p.last_slot blocks a v.current
          (All-has _ a live v.live_carved held)

    free-apart : AllApart size a free
    free-apart = CrossApart-has size a free live v.cross_apart held

    write-Inv :
        (w value : ℕ)
        → a ≤ w
        → w < a + size
        → Inv block_size size (record p { memory = write p.memory w value }) blocks live free
    write-Inv w value lo hi = record {
      same_block = v.same_block;
      same_slot = v.same_slot;
      free_chain =
          Chain-write p.memory w value p.free_list free
            (slots-ne a w free sized.positive lo hi free-apart) v.free_chain;
      block_chain =
          Chain-write p.memory w value p.first_block blocks
            (headers-ne a w blocks v.blocks_apart (omega (arith, sized.roomy)) lo hi live-InBlocks)
            v.block_chain;
      blocks_apart = v.blocks_apart;
      blocks_fit = v.blocks_fit;
      current = v.current;
      free_carved = v.free_carved;
      live_carved = v.live_carved;
      free_apart = v.free_apart;
      live_apart = v.live_apart;
      cross_apart = v.cross_apart;
    }

    deallocate-Inv : Inv block_size size (deallocate p a) blocks (remove a live) (a ∷ free)
    unfolding deallocate
    deallocate-Inv = rw ne (record {
      same_block = v.same_block;
      same_slot = v.same_slot;
      free_chain =
          Chain-cons p.memory a p.free_list free (InBlocks-ne_null a blocks live-InBlocks)
            (slots-ne a a free sized.positive (omega arith) (omega (arith, sized.positive))
              free-apart)
            v.free_chain;
      block_chain =
          (write-Inv a p.free_list (omega arith) (omega (arith, sized.positive))).block_chain;
      blocks_apart = v.blocks_apart;
      blocks_fit = v.blocks_fit;
      current = v.current;
      free_carved = (All-has _ a live v.live_carved held, v.free_carved);
      live_carved = All-remove _ a live v.live_carved;
      free_apart = (free-apart, v.free_apart);
      live_apart = Separate-remove size a live v.live_apart;
      cross_apart = (
        Separate-has size a live v.live_apart held,
        CrossApart-remove size a free live v.cross_apart,
      );
    })
      where
        ne : (a == null) ≡ false
        ne = ground (arith, InBlocks-ne_null a blocks live-InBlocks)

  Step-IsSafe : {s t : System} → IsSized block_size size → Step s t → IsSafe s → IsSafe t
  Step-IsSafe {s} sized (allocates new_block fresh) (free, v) =
      allocate-Inv s.pool s.blocks s.live new_block free sized
        (subst (λ n. IsFresh n s.blocks new_block) v.same_block fresh) v
  Step-IsSafe {s} sized (deallocates a held) (free, v) =
      (a ∷ free, deallocate-Inv s.pool s.blocks s.live free sized v a held)
  Step-IsSafe {s} sized (writes a w value held lo hi) (free, v) = (
    free,
    write-Inv s.pool s.blocks s.live free sized v a held w value lo (omega (arith, v.same_slot)),
  )

  pub start-IsSafe : (memory : ℕ → ℕ) → IsSafe (start block_size size memory)
  unfolding init
  start-IsSafe memory = (
    [],
    record {
      same_block = refl;
      same_slot = refl;
      free_chain = refl;
      block_chain = refl;
      blocks_apart = tt;
      blocks_fit = tt;
      current = (refl, refl);
      free_carved = tt;
      live_carved = tt;
      free_apart = tt;
      live_apart = tt;
      cross_apart = tt;
    },
  )

  pub Reach-IsSafe : {s t : System} → IsSized block_size size → IsSafe s → Reach s t → IsSafe t
  Reach-IsSafe sized h here = h
  Reach-IsSafe sized h (next r st) = Step-IsSafe sized st (Reach-IsSafe sized h r)

-- After any history of allocations, releases and writes of the clients into their own slots, the
-- slots in use do not overlap, and each lies inside a block that was obtained, behind its header.
pub no_overlap :
    (block_size size : ℕ) (memory : ℕ → ℕ) {s : System}
    → IsSized block_size size
    → Reach (start block_size size memory) s
    → Separate size s.live × All (InBlocks block_size size s.blocks) s.live
no_overlap block_size size memory {s} sized r =
    let (free, v) = Reach-IsSafe block_size size sized (start-IsSafe block_size size memory) r in
    (
      v.live_apart,
      All-mono _ _ s.live
          (λ a.
            Carved-InBlocks block_size size s.pool.cur_slot s.pool.last_slot s.blocks a v.current)
          v.live_carved,
    )

-- A pool call writes no word of a slot that stays in use: not an allocation, and not the release of
-- another slot.
pub live_words_kept :
    (block_size size : ℕ) (memory : ℕ → ℕ) {s : System} (new_block a b w : ℕ)
    → IsSized block_size size
    → Reach (start block_size size memory) s
    → IsFresh block_size s.blocks new_block
    → has a s.live ≡ true
    → has a (remove b s.live) ≡ true
    → has b s.live ≡ true
    → a ≤ w
    → w < a + size
    → ((allocate s.pool new_block).1.memory w ≡ s.pool.memory w)
      × ((deallocate s.pool b).memory w ≡ s.pool.memory w)
unfolding allocate deallocate write carve allocate_new_block
live_words_kept block_size size memory {s} new_block a b w sized r fresh held stays held' lo hi =
    let (free, v) = Reach-IsSafe block_size size sized (start-IsSafe block_size size memory) r in
    let inside' =
      inside block_size size new_block a w s.blocks fresh.apart (omega (arith, sized.roomy)) lo hi
        (live-InBlocks block_size size s.pool s.blocks s.live free sized v a held) in
    let apart =
      AllApart-has size b a (remove b s.live) (Separate-has size b s.live v.live_apart held')
        stays in
    (ground (arith, inside'), ground (arith, apart))
