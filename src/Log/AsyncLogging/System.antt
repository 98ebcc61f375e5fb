-- ===== src/Log/AsyncLogging/System.antt =====
-- The front ends and the back end as steps that interleave, and the invariant of every state.
use kama_webserver.Prelude.{
  ℕ, ◌≤◌, ◌≡◌, true, false, Option, none, some, List, [], ◌∷◌, ◌++◌, length, ltb, if◌then◌else◌,
}
use kama_webserver.Log.FixedBuffer.{FixedBuffer, IsValid, to_string}
use kama_webserver.Log.AsyncLogging.{
  AsyncLogging, Backend, init, start, stop, init_backend, append, collect, bytes_of, recycle,
}

-- Where `threadFunc` stands: at the test of `running_`, before the locked part (where it may wait
-- with the lock released), before the writing, behind it, or past the loop.
pub data Phase : Type 0 where
  testing waiting writing recycling finished : Phase

-- `file` is what was handed to the log file; `logged` is a ghost: what the front ends logged.
pub record System : Type 0 where
  pub front : AsyncLogging
  pub back : Backend
  pub phase : Phase
  pub file : List ℕ
  pub logged : List ℕ

-- A message as long as a whole buffer fits in none.
abbrev pub accepted : ℕ → List ℕ → List ℕ
accepted buffer_size logline = if ltb (length logline) buffer_size then logline else []

abbrev pub started : ℕ → System
started buffer_size = record {
  front = start (init buffer_size);
  back = init_backend buffer_size;
  phase = testing;
  file = [];
  logged = [];
}

pub data Step (s : System) : System → Type 0 where
  logs :
      (logline : List ℕ) {l : AsyncLogging}
      → append s.front logline ≡ some l
      → Step s (record s { front = l; logged = s.logged ++ accepted s.front.buffer_size logline })
  stops : Step s (record s { front = stop s.front })
  goes_on : s.phase ≡ testing → s.front.running ≡ true → Step s (record s { phase = waiting })
  collects :
      {l : AsyncLogging} {t : Backend}
      → s.phase ≡ waiting
      → collect s.front s.back ≡ some (l, t)
      → Step s (record s { front = l; back = t; phase = writing })
  writes :
      s.phase ≡ writing
      → Step s (record s { phase = recycling; file = s.file ++ bytes_of s.back.buffers_to_write })
  recycles :
      {t : Backend}
      → s.phase ≡ recycling
      → recycle s.back ≡ some t
      → Step s (record s { back = t; phase = testing })
  ends : s.phase ≡ testing → s.front.running ≡ false → Step s (record s { phase = finished })

pub data Reach (buffer_size : ℕ) : System → Type 0 where
  begin : Reach buffer_size (started buffer_size)
  next : {s t : System} → Reach buffer_size s → Step s t → Reach buffer_size t

-- A buffer with nothing in it.
pub record IsEmpty (capacity : ℕ) (b : FixedBuffer) : Type 0 where
  pub valid : IsValid capacity b
  pub nothing : b.size ≡ 0

abbrev pub AllValid : ℕ → List FixedBuffer → Type 0
AllValid capacity [] = Unit
AllValid capacity (b ∷ bs) = IsValid capacity b × AllValid capacity bs

-- A spare buffer is empty; where it is gone, at least `n` buffers are full.
abbrev pub Spare : ℕ → ℕ → Option FixedBuffer → List FixedBuffer → Type 0
Spare capacity n (some b) bs = IsEmpty capacity b
Spare capacity n none bs = n ≤ length bs

abbrev pub Ready : ℕ → Option FixedBuffer → Type 0
Ready capacity (some b) = IsEmpty capacity b
Ready capacity none = ⊥

pub record FrontInv (capacity : ℕ) (l : AsyncLogging) (current : FixedBuffer) : Type 0 where
  pub same_size : l.buffer_size ≡ capacity
  pub is_current : l.current_buffer ≡ some current
  pub current_valid : IsValid capacity current
  pub spare : Spare capacity 1 l.next_buffer l.buffers
  pub all_valid : AllValid capacity l.buffers

-- Between rounds both spare buffers of the back end are there; in a round the first is lent, and
-- the second only if there are two buffers to write.
abbrev pub BackInv : ℕ → Phase → Backend → Type 0
BackInv capacity writing t =
    (t.new_buffer1 ≡ none)
    × AllValid capacity t.buffers_to_write
    × (1 ≤ length t.buffers_to_write)
    × Spare capacity 2 t.new_buffer2 t.buffers_to_write
BackInv capacity recycling t =
    (t.new_buffer1 ≡ none)
    × AllValid capacity t.buffers_to_write
    × (1 ≤ length t.buffers_to_write)
    × Spare capacity 2 t.new_buffer2 t.buffers_to_write
BackInv capacity _ t =
    Ready capacity t.new_buffer1 × Ready capacity t.new_buffer2 × (t.buffers_to_write ≡ [])

-- What the front end holds, in the order in which it was logged.
abbrev pub held : AsyncLogging → FixedBuffer → List ℕ
held l current = bytes_of l.buffers ++ to_string current

-- What the back end has taken over and not yet written.
abbrev pub in_flight : Phase → Backend → List ℕ
in_flight writing t = bytes_of t.buffers_to_write
in_flight _ t = []

pub record Inv (capacity : ℕ) (s : System) (current : FixedBuffer) : Type 0 where
  pub front : FrontInv capacity s.front current
  pub back : BackInv capacity s.phase s.back
  pub order : s.logged ≡ s.file ++ (in_flight s.phase s.back ++ held s.front current)
