-- ===== src/Log/LogStream/Decimal.antt =====
-- The text of a number reads back as that number.
use mathlib.Core.List.{reverse, reverse-cons, reverse-append}
use mathlib.Core.Option
use native.Mathlib.Nat.{pow-suc}
use kama_webserver.Prelude.{
  ℕ, zero, suc, ◌+◌, ◌-◌, ◌*◌, ◌/◌, ◌%◌, ◌^◌, ◌≤◌, ◌<◌, ◌≡◌, refl, ◌∙◌, inl, inr, true, false, ◌&&◌,
  Option, none, some, List, [], ◌∷◌, ◌++◌, length, leb, ◌==◌, if◌then◌else◌, arith, Bool-cases,
  ℕ_discrete, length-append,
}
use kama_webserver.Prelude.Int.{ℤ, pos, negsuc, neg, magnitude, tdiv, tmod, magnitude-neg}
use kama_webserver.Log.LogStream.{zero_at, digit_loop, integer_text}

-- A reader of decimal numbers, written without regard to the code: digits, or `-` and digits.
abbrev pub read_digits : ℕ → List ℕ → Option ℕ
read_digits acc [] = some acc
read_digits acc (c ∷ cs) =
    if leb b'0' c && leb c b'9' then read_digits (acc * 10 + (c - b'0')) cs else none

abbrev pub read_negative : List ℕ → Option ℤ
read_negative [] = none
read_negative (c ∷ cs) = if c == b'-' then Option.map neg (read_digits 0 cs) else none

pub read_integer : List ℕ → Option ℤ
read_integer cs = elim (read_digits 0 cs) [ some n ↦ some (pos n) | none ↦ read_negative cs ]

-- The characters of the remainders below `n`, of one sign.
abbrev DigitTable : (ℕ → ℤ) → ℕ → Type 0
DigitTable sign zero = Unit
DigitTable sign (suc r) = (zero_at (sign r) ≡ b'0' + r) × DigitTable sign r

table_entry : (sign : ℕ → ℤ) (n r : ℕ) → DigitTable sign n → r < n → zero_at (sign r) ≡ b'0' + r
table_entry sign zero r t h = absurd (omega arith)
table_entry sign (suc n) r t h = elim (ℕ_discrete r n) [
  | yes e ↦ rw e t.0
  | no ne ↦ table_entry sign n r t.1 (omega arith)
]

positive_table : DigitTable pos 10
unfolding zero_at
positive_table = omega arith

negative_table : DigitTable neg 10
unfolding zero_at
negative_table = omega arith

-- The table gives the digit of a remainder of either sign.
zero_at-tmod : (num : ℤ) → zero_at (tmod num 10) ≡ b'0' + magnitude num % 10
zero_at-tmod (pos n) = table_entry pos 10 (n % 10) positive_table (omega arith)
zero_at-tmod (negsuc n) = table_entry neg 10 (suc n % 10) negative_table (omega arith)

magnitude-tdiv : (num : ℤ) → magnitude (tdiv num 10) ≡ magnitude num / 10
magnitude-tdiv (pos n) = refl
magnitude-tdiv (negsuc n) = magnitude-neg (suc n / 10)

-- The value of digits written last first; `Digits` says that they are digits.
abbrev value : List ℕ → ℕ
value [] = 0
value (c ∷ cs) = c - b'0' + 10 * value cs

abbrev Digits : List ℕ → Type 0
Digits [] = Unit
Digits (c ∷ cs) = (b'0' ≤ c) × (c ≤ b'9') × Digits cs

digit : (num : ℤ) → (b'0' ≤ zero_at (tmod num 10)) × (zero_at (tmod num 10) ≤ b'9')
digit num = (omega (arith, zero_at-tmod num), omega (arith, zero_at-tmod num))

abbrev Outcome : ℕ → ℕ → Option (List ℕ) → Type 0
Outcome n fuel r =
    (cs : List ℕ) × (r ≡ some cs)
    × (value cs ≡ n)
    × Digits cs
    × (0 < length cs)
    × (length cs ≤ fuel)

last_digit :
    (fuel : ℕ) (num : ℤ)
    → (magnitude (tdiv num 10) == 0) ≡ true
    → Outcome (magnitude num) (suc fuel) (digit_loop (suc fuel) num)
unfolding digit_loop
last_digit fuel num done = (
  zero_at (tmod num 10) ∷ [],
  rw done,
  ground (arith, zero_at-tmod num, magnitude-tdiv num),
  ((digit num).0, (digit num).1, tt),
  omega arith,
  omega arith,
)

next_digit :
    (fuel : ℕ) (num : ℤ)
    → (magnitude (tdiv num 10) == 0) ≡ false
    → Outcome (magnitude (tdiv num 10)) fuel (digit_loop fuel (tdiv num 10))
    → Outcome (magnitude num) (suc fuel) (digit_loop (suc fuel) num)
unfolding digit_loop
next_digit fuel num more (cs, run, is, ds, some_digit, few) = (
  zero_at (tmod num 10) ∷ cs,
  rw (more, run),
  ground (arith, zero_at-tmod num, magnitude-tdiv num),
  ((digit num).0, (digit num).1, ds),
  omega arith,
  omega arith,
)

-- Enough rounds: the loop ends with the digits of the magnitude.
digit_loop_lem :
    (fuel : ℕ) (num : ℤ)
    → magnitude num < 10 ^ suc fuel
    → Outcome (magnitude num) (suc fuel) (digit_loop (suc fuel) num)
digit_loop_lem zero num h =
    last_digit zero num (ground (arith, magnitude-tdiv num, pow-suc 10 zero))
digit_loop_lem (suc fuel) num h = elim (Bool-cases (magnitude (tdiv num 10) == 0)) [
  | inl done ↦ last_digit (suc fuel) num done
  | inr more ↦
      next_digit (suc fuel) num more (
        digit_loop_lem fuel (tdiv num 10)
          (omega (arith, magnitude-tdiv num, pow-suc 10 (suc fuel))))
]

read_digits-append :
    (acc a : ℕ) (xs ys : List ℕ)
    → read_digits acc xs ≡ some a
    → read_digits acc (xs ++ ys) ≡ read_digits a ys
read_digits-append acc a [] ys h = ground arith
read_digits-append acc a (x ∷ xs) ys h =
    ground (arith, read_digits-append (acc * 10 + (x - b'0')) a xs ys)

read_digits-reverse : (cs : List ℕ) → Digits cs → read_digits 0 (reverse cs) ≡ some (value cs)
read_digits-reverse [] d = refl
read_digits-reverse (c ∷ cs) d = rw (reverse-cons c cs) (
    read_digits-append 0 (value cs) (reverse cs) (c ∷ []) (read_digits-reverse cs d.2)
    ∙ ground (arith, d))

length-reverse : (cs : List ℕ) → length (reverse cs) ≡ length cs
length-reverse [] = refl
length-reverse (c ∷ cs) =
    rw (reverse-cons c cs) (omega (arith, length-append (reverse cs) (c ∷ []), length-reverse cs))

-- Every number of a 64-bit type, signed or unsigned, is printed in full: the loop ends, the text
-- reads back as the number, and it takes at most 21 characters.
pub read_integer-integer_text :
    (num : ℤ)
    → magnitude num < 10 ^ 20
    → (text : List ℕ) × (integer_text num ≡ some text)
      × (read_integer text ≡ some num)
      × (0 < length text)
      × (length text ≤ 21)
unfolding integer_text read_integer
read_integer-integer_text (pos n) h =
    let (cs, run, is, ds, some_digit, few) = digit_loop_lem 19 (pos n) h in
    (
      reverse cs,
      rw run,
      ground (arith, read_digits-reverse cs ds),
      omega (arith, length-reverse cs),
      omega (arith, length-reverse cs),
    )
read_integer-integer_text (negsuc n) h =
    let (cs, run, is, ds, some_digit, few) = digit_loop_lem 19 (negsuc n) h in
    (
      reverse (cs ++ b'-' ∷ []),
      rw run,
      rw (reverse-append cs (b'-' ∷ [])) (ground (arith, read_digits-reverse cs ds)),
      omega (arith, length-reverse (cs ++ b'-' ∷ []), length-append cs (b'-' ∷ [])),
      omega (arith, length-reverse (cs ++ b'-' ∷ []), length-append cs (b'-' ∷ [])),
    )
