-- ===== src/Log/Logger/Tests.antt =====
-- Runs of src/Logger.cc.
use kama_webserver.Prelude.{ℕ, ◌≡◌, refl, List, [], ◌∷◌, false}
use kama_webserver.Log.Logger.{Time, base_name, Output}

abbrev noon : Time
noon = record {
  year = 2026;
  month = 3;
  day = 9;
  hour = 12;
  minute = 4;
  second = 59;
  microseconds = 70;
}

-- `a/b.c`
abbrev path : List ℕ
path = b'a' ∷ b'/' ∷ b'b' ∷ b'.' ∷ b'c' ∷ []

abbrev nothing_yet : Output
nothing_yet = record { lines = []; flushed = 0; aborted = false }

base_name_test : base_name path ≡ b'b' ∷ b'.' ∷ b'c' ∷ []
unfolding base_name
base_name_test = refl

abbrev greetings : List (List ℕ)
greetings = (b'h' ∷ b'i' ∷ []) ∷ []
