-- ===== src/Log/LogStream/Tests.antt =====
-- Numbers and texts in a stream, and the theorems at a concrete stream.
use kama_webserver.Prelude.{
  ℕ, ◌-◌, ◌≤◌, ◌<◌, ◌≡◌, refl, true, some, List, [], ◌∷◌, ◌++◌, length, arith, leb, if◌then◌else◌,
}
use kama_webserver.Prelude.Bytes.{store, window}
use kama_webserver.Prelude.Int.{pos, negsuc}
use kama_webserver.Log.FixedBuffer
use kama_webserver.Log.FixedBuffer.{FixedBuffer, IsValid, to_string, init-IsValid}
use kama_webserver.Log.LogStream.{
  digit_loop, zero_at, integer_text, format_integer, put_bool, put_char, max_number_size,
}
use kama_webserver.Log.LogStream.Decimal.{read_integer, read_integer-integer_text}
use kama_webserver.Log.LogStream.Fitting.{format_integer_lem}

lowest :
    integer_text (negsuc 0x7fff_ffff_ffff_ffff)
    ≡ some (
        b'-' ∷ b'9' ∷ b'2' ∷ b'2' ∷ b'3' ∷ b'3' ∷ b'7' ∷ b'2' ∷ b'0' ∷ b'3' ∷ b'6' ∷ b'8' ∷ b'5'
        ∷ b'4' ∷ b'7' ∷ b'7' ∷ b'5' ∷ b'8' ∷ b'0' ∷ b'8' ∷ [])
unfolding integer_text digit_loop zero_at
lowest = refl

zero_text : integer_text (pos 0) ≡ some (b'0' ∷ [])
unfolding integer_text digit_loop zero_at
zero_text = refl

abbrev stream : FixedBuffer
stream = FixedBuffer.init 40

mixed : to_string (put_char (put_bool stream true) b';') ≡ b't' ∷ b'r' ∷ b'u' ∷ b'e' ∷ b';' ∷ []
unfolding put_char put_bool FixedBuffer.init FixedBuffer.append to_string store window
mixed = refl

read_integer-integer_text_example :
    (text : List ℕ) × (integer_text (negsuc 41) ≡ some text)
    × (read_integer text ≡ some (negsuc 41))
    × (0 < length text)
    × (length text ≤ 21)
read_integer-integer_text_example = read_integer-integer_text (negsuc 41) (omega arith)

format_integer_lem_example :
    (text : List ℕ) × (b' : FixedBuffer) × (format_integer stream (negsuc 41) ≡ some b')
    × (read_integer text ≡ some (negsuc 41))
    × (length (text ++ 0 ∷ []) ≤ max_number_size)
    × IsValid 40 b'
    × (to_string b' ≡ (
        if leb max_number_size (40 - stream.size)
        then to_string stream ++ text
        else to_string stream))
format_integer_lem_example =
    format_integer_lem 40 stream (negsuc 41) (init-IsValid 40) (omega arith)
