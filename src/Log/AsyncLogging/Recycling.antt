-- ===== src/Log/AsyncLogging/Recycling.antt =====
-- What the recycling of buffers does: it does not fault, and keeps its share of the invariant.
use kama_webserver.Prelude.{
  ℕ, ◌≤◌, ◌<◌, ◌≡◌, refl, inl, inr, Option, none, some, List, [], ◌∷◌, length, take, arith, ltb,
  Bool-cases, ltb→lt, length-take, zero, suc,
}
use kama_webserver.Log.FixedBuffer
use kama_webserver.Log.FixedBuffer.{
  FixedBuffer, IsValid, to_string, append_lem, to_string-eq-nil, avail_lem, size-init, size-reset,
  init-IsValid, reset-IsValid,
}
use kama_webserver.Log.AsyncLogging.{Backend, ◌>>=◌, take_back, refill, recycle}
use kama_webserver.Log.AsyncLogging.System.{testing, recycling, IsEmpty, AllValid, Spare, BackInv}

-- `back()` and `pop_back()` on a vector that is not empty.
take_back-some :
    (capacity : ℕ) (b : FixedBuffer) (bs : List FixedBuffer)
    → AllValid capacity (b ∷ bs)
    → (last : FixedBuffer) × (front : List FixedBuffer) × (take_back (b ∷ bs) ≡ some (last, front))
      × IsValid capacity last
      × AllValid capacity front
      × (length front ≡ length bs)
unfolding take_back
take_back-some capacity b [] vs = (b, [], refl, vs.0, tt, refl)
take_back-some capacity b (x ∷ bs) vs =
    let (last, front, run, valid, valids, size) = take_back-some capacity x bs vs.1 in
    (last, b ∷ front, ground (arith, run), valid, (vs.0, valids), omega arith)

emptied :
    {capacity : ℕ} {b : FixedBuffer} → IsValid capacity b → IsEmpty capacity (FixedBuffer.reset b)
emptied {b} v = record { valid = reset-IsValid v; nothing = size-reset b }

refill-none :
    (capacity : ℕ) (b : FixedBuffer) (bs : List FixedBuffer)
    → AllValid capacity (b ∷ bs)
    → (last : FixedBuffer) × (front : List FixedBuffer) × (refill none (b ∷ bs)
        ≡ some (some last, front))
      × IsEmpty capacity last
      × AllValid capacity front
      × (length front ≡ length bs)
unfolding refill
refill-none capacity b bs vs =
    let (last, front, run, valid, valids, size) = take_back-some capacity b bs vs in
    (FixedBuffer.reset last, front, rw run, emptied valid, valids, size)

abbrev both : Option FixedBuffer → List FixedBuffer → Option Backend
both second bs = do
  (first, rest) ← refill none bs
  (second', others) ← refill second rest
  some (record { new_buffer1 = first; new_buffer2 = second'; buffers_to_write = [] })

-- The second spare buffer, from what is left behind the first.
refill-second :
    (capacity : ℕ) (second : Option FixedBuffer) (bs : List FixedBuffer)
    → AllValid capacity bs
    → Spare capacity 1 second bs
    → (b : FixedBuffer) × (others : List FixedBuffer) × (refill second bs ≡ some (some b, others))
      × IsEmpty capacity b
unfolding refill
refill-second capacity (some b) bs vs s = (b, bs, refl, s)
refill-second capacity none [] vs s = absurd (omega arith)
refill-second capacity none (b ∷ bs) vs s =
    let (last, front, run, empty, valids, size) = refill-none capacity b bs vs in
    (last, front, run, empty)

Spare-shorter :
    (capacity : ℕ) (second : Option FixedBuffer) (bs cs : List FixedBuffer)
    → length bs ≡ suc (length cs)
    → Spare capacity 2 second bs
    → Spare capacity 1 second cs
Spare-shorter capacity (some b) bs cs e s = s
Spare-shorter capacity none bs cs e s = omega arith

-- The first spare buffer is always gone and is taken from the last written; the second, if it is
-- gone too, from the one before.
both-BackInv :
    (capacity : ℕ) (second : Option FixedBuffer) (bs : List FixedBuffer)
    → AllValid capacity bs
    → 1 ≤ length bs
    → Spare capacity 2 second bs
    → (t : Backend) × (both second bs ≡ some t) × BackInv capacity testing t
both-BackInv capacity second [] vs few s = absurd (omega arith)
both-BackInv capacity second (b ∷ bs) vs few s =
    let (b1, rest, run, empty, valids, size) = refill-none capacity b bs vs in
    let (b2, others, run', empty') =
      refill-second capacity second rest valids
        (Spare-shorter capacity second (b ∷ bs) rest (omega arith) s) in
    (
      record { new_buffer1 = some b1; new_buffer2 = some b2; buffers_to_write = [] },
      rw (run, run'),
      (empty, empty', refl),
    )

AllValid-take :
    (capacity n : ℕ) (bs : List FixedBuffer) → AllValid capacity bs → AllValid capacity (take n bs)
AllValid-take capacity zero bs vs = tt
AllValid-take capacity (suc n) [] vs = tt
AllValid-take capacity (suc n) (b ∷ bs) vs = (vs.0, AllValid-take capacity n bs vs.1)

Spare-take :
    (capacity : ℕ) (second : Option FixedBuffer) (bs : List FixedBuffer)
    → 2 < length bs
    → Spare capacity 2 second bs
    → Spare capacity 2 second (take 2 bs)
Spare-take capacity (some b) bs more s = s
Spare-take capacity none bs more s = omega (arith, length-take 2 bs)

-- Recycling never takes from an empty vector, and leaves two empty spare buffers.
pub recycle-BackInv :
    (capacity : ℕ) (t : Backend)
    → BackInv capacity recycling t
    → (t' : Backend) × (recycle t ≡ some t') × BackInv capacity testing t'
unfolding recycle
recycle-BackInv capacity t b = elim (Bool-cases (ltb 2 (length t.buffers_to_write))) [
  | inl more ↦
      rw (b.0, more)
        (both-BackInv capacity t.new_buffer2 (take 2 t.buffers_to_write)
          (AllValid-take capacity 2 t.buffers_to_write b.1)
          (omega
            (arith, length-take 2 t.buffers_to_write, ltb→lt 2 (length t.buffers_to_write) more))
          (Spare-take capacity t.new_buffer2 t.buffers_to_write
            (ltb→lt 2 (length t.buffers_to_write) more) b.3))
  | inr few ↦ rw (b.0, few) (both-BackInv capacity t.new_buffer2 t.buffers_to_write b.1 b.2 b.3)
]
