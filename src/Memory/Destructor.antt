-- ===== src/Memory/Destructor.antt =====
-- MemoryPool::~MemoryPool: the walk over the blocks.
use kama_webserver.Prelude.{ℕ, zero, suc, ◌<◌, ◌≡◌, some, List, [], ◌∷◌, length, arith}
use kama_webserver.Memory.{destroy_from, destroy}
use kama_webserver.Memory.Chains.{Chain}
use kama_webserver.Memory.Client.{System, start, IsSized, Reach}
use kama_webserver.Memory.Safety.{Reach-IsSafe, start-IsSafe}

destroy_from-Chain :
    (memory : ℕ → ℕ) (fuel p : ℕ) (xs : List ℕ)
    → Chain memory p xs
    → length xs < fuel
    → destroy_from fuel memory p ≡ some xs
unfolding destroy_from
destroy_from-Chain memory zero p xs c h = absurd (omega arith)
destroy_from-Chain memory (suc fuel) p [] c h = ground arith
destroy_from-Chain memory (suc fuel) p (x ∷ xs) c h =
    let rest = destroy_from-Chain memory fuel (memory x) xs c.2 (omega arith) in
    ground (arith, rest)

-- After any history the destructor ends, and hands to `operator delete` exactly the blocks that
-- `operator new` gave, each once, newest first.
pub destroy_lem :
    (block_size size : ℕ) (memory : ℕ → ℕ) (fuel : ℕ) {s : System}
    → IsSized block_size size
    → Reach (start block_size size memory) s
    → length s.blocks < fuel
    → destroy fuel s.pool ≡ some s.blocks
unfolding destroy
destroy_lem block_size size memory fuel {s} sized r enough =
    let (free, v) = Reach-IsSafe block_size size sized (start-IsSafe block_size size memory) r in
    destroy_from-Chain s.pool.memory fuel s.pool.first_block s.blocks v.block_chain enough
