-- ===== src/Log/Logger/Line.antt =====
-- src/Logger.cc: what a line of the log holds.
use kama_webserver.Prelude.{ℕ, true, List, [], ◌∷◌, ◌++◌, length}
use kama_webserver.Log.FixedBuffer
use kama_webserver.Log.FixedBuffer.{FixedBuffer, IsValid}
use kama_webserver.Log.Logger.{LogLevel, level_name, Time, padded, Logger, Output}

-- A line as its reader sees it: date, hour and minute, the microseconds of the second, the level, the
-- texts, the name of the file and its line. There is no second.
unfoldable pub minute_text : Time → List ℕ
minute_text t =
    padded 4 t.year
    ++ b'/' ∷ padded 2 t.month
    ++ b'/' ∷ padded 2 t.day
    ++ b' ' ∷ padded 2 t.hour
    ++ b':' ∷ padded 2 t.minute
    ++ b':' ∷ []

unfoldable pub concat : List (List ℕ) → List ℕ
concat [] = []
concat (text ∷ texts) = text ++ concat texts

unfoldable pub title : Time → LogLevel → List ℕ
title t level = (minute_text t ++ padded 6 t.microseconds ++ b' ' ∷ []) ++ level_name level

unfoldable pub line_text : Time → LogLevel → List ℕ → List ℕ → List ℕ → List ℕ
line_text t level message basename digits =
    title t level ++ message ++ b' ' ∷ b'-' ∷ b' ' ∷ basename ++ b':' ∷ digits ++ b'\n' ∷ []

-- What a line does to the output: a fatal one leaves everything flushed and the program aborted.
unfoldable pub written : LogLevel → List ℕ → Output → Output
written LogLevel.trace text o = record o { lines = o.lines ++ text ∷ [] }
written LogLevel.debug text o = record o { lines = o.lines ++ text ∷ [] }
written LogLevel.info text o = record o { lines = o.lines ++ text ∷ [] }
written LogLevel.warn text o = record o { lines = o.lines ++ text ∷ [] }
written LogLevel.error text o = record o { lines = o.lines ++ text ∷ [] }
written LogLevel.fatal text o = record {
  lines = o.lines ++ text ∷ [];
  flushed = length (o.lines ++ text ∷ []);
  aborted = true;
}
