-- ===== src/Log/Logger/Holding.antt =====
-- include/LogStream.h: the text that a stream holds.
use kama_webserver.Prelude.{
  ℕ, ◌+◌, ◌^◌, ◌≤◌, ◌<◌, ◌≡◌, sym, ap, ◌∙◌, some, List, [], ◌∷◌, ◌++◌, length, length-append, arith,
}
use kama_webserver.Prelude.Int.{ℤ, magnitude}
use kama_webserver.Prelude.Bytes.{length-window}
use kama_webserver.Log.FixedBuffer
use kama_webserver.Log.FixedBuffer.{FixedBuffer, IsValid, to_string}
use kama_webserver.Log.LogStream.{small_buffer_size, format_integer, put_char, put_text}
use kama_webserver.Log.LogStream.Decimal.{read_integer}
use kama_webserver.Log.LogStream.Fitting.{format_integer_lem}

-- The buffer of a stream holds just this text.
pub record Holds (text : List ℕ) (b : FixedBuffer) : Type 0 where
  pub valid : IsValid small_buffer_size b
  pub content : to_string b ≡ text

pub same_text : {text more : List ℕ} (b : FixedBuffer) → text ≡ more → Holds text b → Holds more b
same_text b e h = record { valid = h.valid; content = h.content ∙ e }

length-content : {text : List ℕ} (b : FixedBuffer) → Holds text b → b.size ≡ length text
unfolding to_string
length-content b h = sym (length-window b.array 0 b.size) ∙ ap length h.content

pub init-Holds : Holds [] (FixedBuffer.init small_buffer_size)
init-Holds = record {
  valid = FixedBuffer.init-IsValid small_buffer_size;
  content = FixedBuffer.to_string-init small_buffer_size;
}

pub put_text-Holds :
    {text : List ℕ} (b : FixedBuffer) (bytes : List ℕ)
    → length text + length bytes < small_buffer_size
    → Holds text b
    → Holds (text ++ bytes) (put_text b bytes)
unfolding put_text
put_text-Holds {text} b bytes room h =
    let (v, e) = FixedBuffer.append_lem bytes h.valid in
    record { valid = v; content = ground (arith, e, h.content, length-content b h, room) }

pub put_char-Holds :
    {text : List ℕ} (b : FixedBuffer) (c : ℕ)
    → length text + 1 < small_buffer_size
    → Holds text b
    → Holds (text ++ c ∷ []) (put_char b c)
unfolding put_char put_text
put_char-Holds b c room h = put_text-Holds b (c ∷ []) room h

pub format_integer-Holds :
    {text : List ℕ} (b : FixedBuffer) (num : ℤ)
    → magnitude num < 10 ^ 20
    → length text + 32 ≤ small_buffer_size
    → Holds text b
    → (digits : List ℕ) × (after : FixedBuffer) × (format_integer b num ≡ some after)
      × (read_integer digits ≡ some num)
      × (length digits ≤ 31)
      × Holds (text ++ digits) after
format_integer-Holds {text} b num small room h =
    let (digits, after, result, reads, few, v, e) =
      format_integer_lem small_buffer_size b num h.valid small in
    (
      digits,
      after,
      result,
      reads,
      omega (arith, few, length-append digits (0 ∷ [])),
      record { valid = v; content = ground (arith, e, h.content, length-content b h, room) },
    )
