-- ===== src/Log/Logger.antt =====
-- include/Logger.h and src/Logger.cc: one line of the log, from the constructor of a Logger to its
-- destructor. `localtime` and `strerror_r` are arguments: the calendar time and the message they give.
pub mod Holding
pub mod Line
mod Tests
use mathlib.Core.Option
use kama_webserver.Prelude.{
  ℕ, zero, suc, ◌+◌, ◌/◌, ◌%◌, Bool, true, false, Option, none, some, List, [], ◌∷◌, ◌++◌, length,
  take, ◌==◌, if◌then◌else◌,
}
use kama_webserver.Prelude.Int.{ℤ, pos, magnitude}
use kama_webserver.Log.FixedBuffer
use kama_webserver.Log.FixedBuffer.{FixedBuffer}
use kama_webserver.Log.LogStream.{small_buffer_size, format_integer, put_char, put_text}

pub data LogLevel : Type 0 where
  trace : LogLevel
  debug : LogLevel
  info : LogLevel
  warn : LogLevel
  error : LogLevel
  fatal : LogLevel

unfoldable pub level_name : LogLevel → List ℕ
level_name trace = b'T' ∷ b'R' ∷ b'A' ∷ b'C' ∷ b'E' ∷ b' ' ∷ []
level_name debug = b'D' ∷ b'E' ∷ b'B' ∷ b'U' ∷ b'G' ∷ b' ' ∷ []
level_name info = b'I' ∷ b'N' ∷ b'F' ∷ b'O' ∷ b' ' ∷ b' ' ∷ []
level_name warn = b'W' ∷ b'A' ∷ b'R' ∷ b'N' ∷ b' ' ∷ b' ' ∷ []
level_name error = b'E' ∷ b'R' ∷ b'R' ∷ b'O' ∷ b'R' ∷ b' ' ∷ []
level_name fatal = b'F' ∷ b'A' ∷ b'T' ∷ b'A' ∷ b'L' ∷ b' ' ∷ []

-- What `localtime` gives, with the microseconds of the second.
pub record Time : Type 0 where
  pub year : ℕ
  pub month : ℕ
  pub day : ℕ
  pub hour : ℕ
  pub minute : ℕ
  pub second : ℕ
  pub microseconds : ℕ

-- `%02d` and `%06d` for numbers of at most that many digits, and `%4d` for years from 1000 to 9999.
pub padded : ℕ → ℕ → List ℕ
padded zero n = []
padded (suc width) n = padded width (n / 10) ++ (b'0' + n % 10) ∷ []

pub timer_text : Time → List ℕ
unfolding padded
timer_text t =
    padded 4 t.year
    ++ b'/' ∷ padded 2 t.month
    ++ b'/' ∷ padded 2 t.day
    ++ b' ' ∷ padded 2 t.hour
    ++ b':' ∷ padded 2 t.minute
    ++ b':' ∷ padded 2 t.second

-- The part of a path behind its last slash.
pub base_name : List ℕ → List ℕ
base_name [] = []
base_name (c ∷ cs) =
    let rest = base_name cs in if has_slash cs then rest else if c == b'/' then cs else c ∷ cs
  where
    has_slash : List ℕ → Bool
    has_slash [] = false
    has_slash (d ∷ ds) = let more = has_slash ds in if d == b'/' then true else more

-- `Impl`.
pub record Logger : Type 0 where
  pub stream : FixedBuffer
  pub level : LogLevel
  pub line : ℤ
  pub basename : List ℕ

-- Seventeen characters of the time are written.
pub format_time : Time → FixedBuffer → FixedBuffer
unfolding timer_text
format_time t b =
    put_text (put_text b (take 17 (timer_text t))) (take 7 (padded 6 t.microseconds ++ b' ' ∷ []))

pub put_errno : ℤ → List ℕ → FixedBuffer → Option FixedBuffer
put_errno saved_errno message b =
    Option.map (λ c. put_text c (b')' ∷ b' ' ∷ []))
      (format_integer
        (put_text (put_text b message) (b' ' ∷ b'(' ∷ b'e' ∷ b'r' ∷ b'r' ∷ b'n' ∷ b'o' ∷ b'=' ∷ []))
        saved_errno)

-- `Impl::Impl`. The constructor of Logger passes 0 for `saved_errno`.
pub construct : Time → ℤ → List ℕ → LogLevel → List ℕ → ℤ → Option Logger
unfolding format_time base_name put_errno
construct t saved_errno message level filename line =
    let titled = put_text (format_time t (FixedBuffer.init small_buffer_size)) (level_name level) in
    Option.map
      (λ b. record { stream = b; level = level; line = line; basename = base_name filename })
      (if magnitude saved_errno == 0 then some titled else put_errno saved_errno message titled)

-- What the users of the stream put in, one text after the other.
pub put_all : List (List ℕ) → Logger → Logger
put_all [] l = l
put_all (text ∷ texts) l = put_all texts (record l { stream = put_text l.stream text })

pub finish : Logger → Option Logger
finish l =
    let named = put_text (put_text l.stream (b' ' ∷ b'-' ∷ b' ' ∷ [])) l.basename in
    Option.map (λ b. record l { stream = put_char b b'\n' })
      (format_integer (put_char named b':') l.line)

-- What `g_output` got, how much of it `g_flush` has flushed, and whether `abort` was called.
pub record Output : Type 0 where
  pub lines : List (List ℕ)
  pub flushed : ℕ
  pub aborted : Bool

unfoldable pub is_fatal : LogLevel → Bool
is_fatal trace = false
is_fatal debug = false
is_fatal info = false
is_fatal warn = false
is_fatal error = false
is_fatal fatal = true

abbrev pub output : List ℕ → Output → Output
output text o = record o { lines = o.lines ++ text ∷ [] }

abbrev pub flush_and_abort : Output → Output
flush_and_abort o = record o { flushed = length o.lines; aborted = true }

-- `Logger::~Logger`.
pub destruct : Logger → Output → Option Output
unfolding finish
destruct l o =
    Option.map
      (λ finished.
        let written = output (FixedBuffer.to_string finished.stream) o in
        if is_fatal l.level then flush_and_abort written else written)
      (finish l)

-- What is done with a Logger: the texts, and the destructor.
pub put_out : List (List ℕ) → Output → Option Logger → Option Output
put_out texts o none = none
put_out texts o (some l) = destruct (put_all texts l) o

-- `Logger(filename, line, level).stream() << texts`.
pub log : Time → LogLevel → List ℕ → ℤ → List (List ℕ) → Output → Option Output
log t level filename line texts o = put_out texts o (construct t (pos 0) [] level filename line)
