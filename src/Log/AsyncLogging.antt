-- ===== src/Log/AsyncLogging.antt =====
-- include/AsyncLogging.h and log/AsyncLogging.cc: front ends fill buffers under a lock, one back-end
-- thread swaps the full ones out and writes them to the log file. A null `unique_ptr` is `none`, and
-- so is a run that would read through one or take from an empty vector.
pub mod System
pub mod Collecting
pub mod Recycling
pub mod Order
pub mod Shutdown
mod Tests
use mathlib.Core.Option
use mathlib.Core.Option.{IsSome}
use kama_webserver.Prelude.{
  ℕ, ◌+◌, ◌≡◌, Bool, true, false, Option, none, some, List, [], ◌∷◌, ◌++◌, length, take, ltb,
  if◌then◌else◌,
}
use kama_webserver.Log.FixedBuffer
use kama_webserver.Log.FixedBuffer.{FixedBuffer}

-- What the lock protects, and `running_`. `buffer_size` is `kLargeBufferSize`, 4096000.
pub record AsyncLogging : Type 0 where
  pub running : Bool
  pub buffer_size : ℕ
  pub current_buffer : Option FixedBuffer
  pub next_buffer : Option FixedBuffer
  pub buffers : List FixedBuffer

-- The local variables of `threadFunc`.
pub record Backend : Type 0 where
  pub new_buffer1 : Option FixedBuffer
  pub new_buffer2 : Option FixedBuffer
  pub buffers_to_write : List FixedBuffer

pub init : ℕ → AsyncLogging
init buffer_size = record {
  running = false;
  buffer_size = buffer_size;
  current_buffer = some (FixedBuffer.init buffer_size);
  next_buffer = some (FixedBuffer.init buffer_size);
  buffers = [];
}

pub start : AsyncLogging → AsyncLogging
start l = record l { running = true }

pub stop : AsyncLogging → AsyncLogging
stop l = record l { running = false }

pub init_backend : ℕ → Backend
init_backend buffer_size = record {
  new_buffer1 = some (FixedBuffer.init buffer_size);
  new_buffer2 = some (FixedBuffer.init buffer_size);
  buffers_to_write = [];
}

-- The next buffer that the front end writes to when the current one is full.
abbrev pub spare : AsyncLogging → FixedBuffer
spare l = elim l.next_buffer [ some b ↦ b | none ↦ FixedBuffer.init l.buffer_size ]

abbrev pub rotate : AsyncLogging → FixedBuffer → List ℕ → AsyncLogging
rotate l full logline = record l {
  buffers = l.buffers ++ full ∷ [];
  current_buffer = some (FixedBuffer.append (spare l) logline);
  next_buffer = none;
}

pub append_to : AsyncLogging → List ℕ → FixedBuffer → AsyncLogging
append_to l logline current =
    if ltb (length logline) (FixedBuffer.avail current)
    then record l { current_buffer = some (FixedBuffer.append current logline) }
    else rotate l current logline

pub append : AsyncLogging → List ℕ → Option AsyncLogging
append l logline = Option.map (append_to l logline) l.current_buffer

-- The locked part of a round: the current buffer joins the full ones, both spare buffers move to
-- the front end as needed, and the vectors are swapped.
pub collect_from : AsyncLogging → Backend → FixedBuffer → AsyncLogging × Backend
collect_from l t current = elim l.next_buffer [
  | some b ↦ (
    record l { current_buffer = t.new_buffer1; buffers = t.buffers_to_write },
    record t { new_buffer1 = none; buffers_to_write = l.buffers ++ current ∷ [] },
  )
  | none ↦ (
    record l {
      current_buffer = t.new_buffer1;
      next_buffer = t.new_buffer2;
      buffers = t.buffers_to_write;
    },
    record { new_buffer1 = none; new_buffer2 = none; buffers_to_write = l.buffers ++ current ∷ [] },
  )
]

pub collect : AsyncLogging → Backend → Option (AsyncLogging × Backend)
collect l t = Option.map (collect_from l t) l.current_buffer

-- What the loop over `buffersToWrite` hands to the log file, in order.
abbrev pub bytes_of : List FixedBuffer → List ℕ
bytes_of [] = []
bytes_of (b ∷ bs) = FixedBuffer.to_string b ++ bytes_of bs

-- `back()` and `pop_back()`.
take_back : List FixedBuffer → Option (FixedBuffer × List FixedBuffer)
take_back [] = none
take_back (b ∷ bs) = elim (take_back bs) [
  | none ↦ some (b, [])
  | some (last, front) ↦ some (last, b ∷ front)
]

-- A spare buffer that went to the front end is replaced by the last one written, emptied.
pub refill : Option FixedBuffer → List FixedBuffer → Option (Option FixedBuffer × List FixedBuffer)
unfolding take_back
refill (some b) bs = some (some b, bs)
refill none bs = Option.map (λ p. (some (FixedBuffer.reset p.0), p.1)) (take_back bs)

infixl 5 ◌>>=◌
abbrev pub ◌>>=◌ {ℓ κ} : {A : Type ℓ} {B : Type κ} → Option A → (A → Option B) → Option B
none >>= f = none
some a >>= f = f a

-- The part behind the writing: at most two buffers are kept, and serve as the new spare ones.
pub recycle : Backend → Option Backend
recycle t = do
  (first, rest) ←
      refill t.new_buffer1 (
        if ltb 2 (length t.buffers_to_write) then take 2 t.buffers_to_write else t.buffers_to_write)
  (second, others) ← refill t.new_buffer2 rest
  some (record { new_buffer1 = first; new_buffer2 = second; buffers_to_write = [] })
