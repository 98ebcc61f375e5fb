-- ===== src/Log/LogStream.antt =====
-- include/LogStream.h and log/LogStream.cc: formatting into a buffer of 4096 bytes. A number is any
-- integer of magnitude below 10 ^ 20, which covers every integer type of the overloads.
pub mod Decimal
pub mod Fitting
mod Tests
use mathlib.Core.List.{reverse}
use kama_webserver.Prelude.{
  ℕ, zero, suc, ◌+◌, ◌-◌, ◌*◌, ◌^◌, Bool, true, false, Option, none, some, List, [], ◌∷◌, ◌++◌,
  length, take, get_or, leb, ◌==◌, if◌then◌else◌,
}
use mathlib.Core.Option
use kama_webserver.Prelude.Int.{ℤ, pos, negsuc, magnitude, is_negative, tdiv, tmod}
use kama_webserver.Log.FixedBuffer
use kama_webserver.Log.FixedBuffer.{FixedBuffer}

abbrev pub small_buffer_size : ℕ
small_buffer_size = 4096

abbrev pub max_number_size : ℕ
max_number_size = 32

-- The rounds of the digit loop that a 64-bit number can take.
abbrev pub max_rounds : ℕ
max_rounds = 20

abbrev digits : List ℕ
digits =
    b'9' ∷ b'8' ∷ b'7' ∷ b'6' ∷ b'5' ∷ b'4' ∷ b'3' ∷ b'2' ∷ b'1' ∷ b'0' ∷ b'1' ∷ b'2' ∷ b'3' ∷ b'4'
    ∷ b'5' ∷ b'6' ∷ b'7' ∷ b'8' ∷ b'9' ∷ []

-- `zero[remainder]` with `zero = digits + 9`.
zero_at : ℤ → ℕ
zero_at (pos r) = get_or digits (9 + r) 0
zero_at (negsuc r) = get_or digits (9 - suc r) 0

-- The do-while loop: the characters in the order in which they are written, last digit first.
digit_loop : ℕ → ℤ → Option (List ℕ)
unfolding zero_at
digit_loop zero num = none
digit_loop (suc fuel) num =
    let rest = Option.map (◌∷◌ (zero_at (tmod num 10))) (digit_loop fuel (tdiv num 10)) in
    if magnitude (tdiv num 10) == 0 then some (zero_at (tmod num 10) ∷ []) else rest

-- The text of a number, behind `std::reverse`.
pub integer_text : ℤ → Option (List ℕ)
integer_text num =
    Option.map (λ cs. reverse (if is_negative num then cs ++ b'-' ∷ [] else cs))
      (digit_loop max_rounds num)

-- `formatInteger`. The terminating zero is written and not counted.
pub format_integer : FixedBuffer → ℤ → Option FixedBuffer
format_integer b num =
    if leb max_number_size (FixedBuffer.avail b)
    then Option.map
        (λ text. FixedBuffer.add (FixedBuffer.write_at_cur b (text ++ 0 ∷ [])) (length text))
        (integer_text num)
    else some b

-- The other overloads of `operator<<`; a text is what its pointer and length stand for.
pub put_bool : FixedBuffer → Bool → FixedBuffer
put_bool b express =
    FixedBuffer.append b
      (if express then b't' ∷ b'r' ∷ b'u' ∷ b'e' ∷ [] else b'f' ∷ b'a' ∷ b'l' ∷ b's' ∷ b'e' ∷ [])

unfoldable pub put_char : FixedBuffer → ℕ → FixedBuffer
put_char b c = FixedBuffer.append b (c ∷ [])

unfoldable pub put_text : FixedBuffer → List ℕ → FixedBuffer
put_text b text = FixedBuffer.append b text

-- `print` gives the text of `%.12g`, of which snprintf keeps what fits beside the terminating zero.
pub put_double {ℓ} : {A : Type ℓ} → (A → List ℕ) → FixedBuffer → A → FixedBuffer
unfolding put_text
put_double print b number = put_text b (take 31 (print number))
