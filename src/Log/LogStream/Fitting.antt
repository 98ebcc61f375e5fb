-- ===== src/Log/LogStream/Fitting.antt =====
-- What a number adds to the stream.
use kama_webserver.Prelude.{
  ℕ, ◌-◌, ◌^◌, ◌≤◌, ◌<◌, ◌≡◌, some, List, [], ◌∷◌, ◌++◌, length, arith, leb, if◌then◌else◌,
  length-append,
}
use kama_webserver.Prelude.Int.{ℤ, magnitude}
use kama_webserver.Log.FixedBuffer
use kama_webserver.Log.FixedBuffer.{FixedBuffer, IsValid, to_string}
use kama_webserver.Log.LogStream.{max_number_size, format_integer}
use kama_webserver.Log.LogStream.Decimal.{read_integer, read_integer-integer_text}

-- Printing a number ends. With 32 bytes left, a text that reads back as the number is put behind
-- what the stream holds, and what is written, the terminating zero included, takes no more than
-- those 32 bytes. With fewer left, the stream keeps what it holds.
pub format_integer_lem :
    (capacity : ℕ) (b : FixedBuffer) (num : ℤ)
    → IsValid capacity b
    → magnitude num < 10 ^ 20
    → (text : List ℕ) × (b' : FixedBuffer) × (format_integer b num ≡ some b')
      × (read_integer text ≡ some num)
      × (length (text ++ 0 ∷ []) ≤ max_number_size)
      × IsValid capacity b'
      × (to_string b'
          ≡ (if leb max_number_size (capacity - b.size) then to_string b ++ text else to_string b))
unfolding format_integer FixedBuffer.avail
format_integer_lem capacity b num v h =
    let (text, run, reads, some_char, few) = read_integer-integer_text num h in
    (
      text,
      (if leb max_number_size (capacity - b.size)
          then FixedBuffer.add (FixedBuffer.write_at_cur b (text ++ 0 ∷ [])) (length text)
          else b),
      ground (arith, v.same_capacity),
      reads,
      omega (arith, length-append text (0 ∷ [])),
      ground (arith, FixedBuffer.put_lem text (0 ∷ []) v),
      ground (arith, FixedBuffer.put_lem text (0 ∷ []) v),
    )
