-- ===== src/Log/FixedBuffer.antt =====
-- include/FixedBuffer.h: a byte array of fixed size that is filled from the front.
use mathlib.Core.List.{append-nil}
use kama_webserver.Prelude.{
  ℕ, ◌+◌, ◌-◌, ◌≤◌, ◌≡◌, refl, ap, ap₂, ◌∙◌, List, [], ◌++◌, length, replicate, length-replicate,
  arith, ltb, if◌then◌else◌,
}
use kama_webserver.Prelude.Bytes.{
  store, window, length-store, window-store_front, window-store_before, window-append,
}

-- `cur_` is the offset from `data_`; `capacity` is the template parameter `buffer_size`.
pub record FixedBuffer : Type 0 where
  pub capacity : ℕ
  pub array : List ℕ
  pub cur : ℕ
  pub size : ℕ

unfoldable pub init : ℕ → FixedBuffer
init capacity = record { capacity = capacity; array = replicate capacity 0; cur = 0; size = 0 }

unfoldable pub avail : FixedBuffer → ℕ
avail b = b.capacity - b.size

unfoldable pub add : FixedBuffer → ℕ → FixedBuffer
add b len = record b { cur = b.cur + len; size = b.size + len }

-- `memcpy(cur_, bytes, len)`.
unfoldable pub write_at_cur : FixedBuffer → List ℕ → FixedBuffer
write_at_cur b bytes = record b { array = store b.array b.cur bytes }

-- A message that does not fit is dropped without notice.
unfoldable pub append : FixedBuffer → List ℕ → FixedBuffer
unfolding avail add write_at_cur
append b bytes =
    if ltb (length bytes) (avail b) then add (write_at_cur b bytes) (length bytes) else b

unfoldable pub reset : FixedBuffer → FixedBuffer
reset b = record b { cur = 0; size = 0 }

-- `std::string(data_, length())`.
unfoldable pub to_string : FixedBuffer → List ℕ
to_string b = window b.array 0 b.size

pub record IsValid (capacity : ℕ) (b : FixedBuffer) : Type 0 where
  pub same_capacity : b.capacity ≡ capacity
  pub array_size : length b.array ≡ capacity
  pub at_size : b.cur ≡ b.size
  pub within : b.size ≤ capacity

pub init-IsValid : (capacity : ℕ) → IsValid capacity (init capacity)
unfolding init
init-IsValid capacity = record {
  same_capacity = refl;
  array_size = length-replicate capacity 0;
  at_size = refl;
  within = omega arith;
}

pub to_string-init : (capacity : ℕ) → to_string (init capacity) ≡ []
unfolding to_string init window
to_string-init capacity = refl

pub reset-IsValid :
    {capacity : ℕ} {b : FixedBuffer} → IsValid capacity b → IsValid capacity (reset b)
unfolding reset
reset-IsValid v = ground arith

pub to_string-reset : (b : FixedBuffer) → to_string (reset b) ≡ []
unfolding to_string reset window
to_string-reset b = refl

-- Writing at the current position and moving it on puts the bytes behind those already there; the
-- bytes written past the new position do not count.
pub put_lem :
    {capacity : ℕ} {b : FixedBuffer} (bytes more : List ℕ)
    → IsValid capacity b
    → b.size + length bytes ≤ capacity
    → (to_string (add (write_at_cur b (bytes ++ more)) (length bytes)) ≡ to_string b ++ bytes)
      × IsValid capacity (add (write_at_cur b (bytes ++ more)) (length bytes))
unfolding to_string add write_at_cur
put_lem {capacity} {b} bytes more v room = (
  window-append (store b.array b.cur (bytes ++ more)) 0 b.size (length bytes)
      ∙ ap₂ ◌++◌
          (window-store_before b.array b.cur (bytes ++ more) 0 b.size (omega (arith, v.at_size)))
          (ap (λ t. window (store b.array b.cur (bytes ++ more)) t (length bytes)) at_end
            ∙ window-store_front b.array b.cur bytes more (omega (arith, v.at_size, v.array_size))),
  record {
    same_capacity = v.same_capacity;
    array_size = length-store b.array b.cur (bytes ++ more) ∙ v.array_size;
    at_size = omega (arith, v.at_size);
    within = omega arith;
  },
)
  where
    at_end : 0 + b.size ≡ b.cur
    at_end = omega (arith, v.at_size)

-- `append` takes a message that is shorter than the space left, and otherwise does nothing.
pub append_lem :
    {capacity : ℕ} {b : FixedBuffer} (bytes : List ℕ)
    → IsValid capacity b
    → IsValid capacity (append b bytes)
      × (to_string (append b bytes)
          ≡ (if ltb (length bytes) (capacity - b.size) then to_string b ++ bytes else to_string b))
unfolding append
append_lem {capacity} {b} bytes v = ground (arith, put_lem bytes [] v, append-nil bytes)

pub to_string-eq-nil : (b : FixedBuffer) → b.size ≡ 0 → to_string b ≡ []
unfolding to_string window
to_string-eq-nil b e = rw e

pub size-init : (capacity : ℕ) → (init capacity).size ≡ 0
unfolding init
size-init capacity = refl

pub size-reset : (b : FixedBuffer) → (reset b).size ≡ 0
unfolding reset
size-reset b = refl

pub avail_lem : {capacity : ℕ} {b : FixedBuffer} → IsValid capacity b → avail b ≡ capacity - b.size
unfolding avail
avail_lem v = omega (arith, v.same_capacity)
