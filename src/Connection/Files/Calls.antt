-- ===== src/Connection/Files/Calls.antt =====
-- src/TcpConnection.cc: what one call of `sendFileInLoop` sends and queues.
use kama_webserver.Prelude.{
  ℕ, suc, ◌+◌, ◌-◌, ◌≤◌, ◌<◌, ◌^◌, ◌≡◌, inl, inr, refl, sym, ap, ◌∙◌, Bool, true, false, Bool-cases,
  Option, none, some, List, [], ◌∷◌, ◌++◌, length, drop, ◌==◌, if◌then◌else◌, arith,
}
use mathlib.Core.Path.{subst}
use mathlib.Core.List.{append_assoc, append-nil}
use kama_webserver.Buffer.{Written, wrote, write_error, readable_bytes, sub_size}
use kama_webserver.Channel.{is_writing}
use kama_webserver.Connection.{
  TcpConnection, Effect, eagain, is_fault, is_disconnecting, emit, send_file_queued, file_sent,
  error_logged, write_complete_queued, channel_updated, channel_removed, connection_called,
  message_called, close_called, high_water_queued,
}
use kama_webserver.Connection.Files.{Task, queued_calls, run_calls, file_rest, send_file_in_loop}

-- Nothing waits to be written, and nobody shut the connection down.
abbrev pub IsIdle : TcpConnection → Type 0
IsIdle c =
    (is_disconnecting c.state ≡ false)
    × (is_writing c.events ≡ false)
    × (readable_bytes c.output_buffer ≡ 0)

-- `sendfile` sends no more than it was asked to, and the connection does not break.
abbrev pub Obeys : ℕ → Written → Type 0
Obeys count (wrote n) = n ≤ count
Obeys count (write_error e) = is_fault e ≡ false

-- What a call adds to the trace.
unfoldable pub effects : Task → Bool → Written → List Effect
effects t callback (wrote n) =
    file_sent t.descriptor t.offset n
    ∷ (if t.count - n == 0
        then (if callback then write_complete_queued ∷ [] else [])
        else send_file_queued t.descriptor (t.offset + n) (t.count - n) ∷ [])
effects t callback (write_error e) =
    (if e == eagain then [] else error_logged ∷ [])
    ++ (if t.count == 0 then [] else send_file_queued t.descriptor t.offset t.count ∷ [])

abbrev pub extend : TcpConnection → List Effect → TcpConnection
extend c es = record c { trace = c.trace ++ es }

pub extend-extend :
    (c : TcpConnection) (es fs : List Effect) → extend (extend c es) fs ≡ extend c (es ++ fs)
extend-extend c es fs = ap (λ tr. record c { trace = tr }) (append_assoc c.trace es fs)

pub extend-nil : (c : TcpConnection) → c ≡ extend c []
extend-nil c = ap (λ tr. record c { trace = tr }) (sym (append-nil c.trace))

-- One effect in one of the cases.
extend-then :
    (b : Bool) (e : Effect) (c : TcpConnection)
    → (if b then emit e c else c) ≡ extend c (if b then e ∷ [] else [])
extend-then true e c = refl
extend-then false e c = extend-nil c

extend-else :
    (b : Bool) (e : Effect) (c : TcpConnection)
    → (if b then c else emit e c) ≡ extend c (if b then [] else e ∷ [])
extend-else true e c = extend-nil c
extend-else false e c = refl

extend-if :
    (b : Bool) (c : TcpConnection) (es fs : List Effect)
    → (if b then extend c es else extend c fs) ≡ extend c (if b then es else fs)
extend-if true c es fs = refl
extend-if false c es fs = refl

sub_size-exact : (a b : ℕ) → b ≤ a → a < 2 ^ 64 → sub_size a b ≡ a - b
sub_size-exact a b h k = omega arith

pub file_rest-effects :
    (t : Task) (c : TcpConnection) (answer : Written)
    → t.count < 2 ^ 64
    → Obeys t.count answer
    → file_rest t.descriptor t.offset t.count c answer
      ≡ extend c (effects t c.write_complete_callback answer)
unfolding file_rest effects
file_rest-effects t c (wrote n) bound ok =
    let sent = extend c (file_sent t.descriptor t.offset n ∷ []) in
    let ended = if c.write_complete_callback then write_complete_queued ∷ [] else [] in
    let again = send_file_queued t.descriptor (t.offset + n) (t.count - n) ∷ [] in
    rw (sub_size-exact t.count n ok bound) (
      ap (λ d. if t.count - n == 0 then d else extend sent again)
        (extend-then c.write_complete_callback write_complete_queued sent)
      ∙ extend-if (t.count - n == 0) sent ended again
      ∙ extend-extend c (file_sent t.descriptor t.offset n ∷ [])
          (if t.count - n == 0 then ended else again))
file_rest-effects t c (write_error e) bound ok =
    let logged = if e == eagain then [] else error_logged ∷ [] in
    let again = send_file_queued t.descriptor t.offset t.count in
    rw (ok) (
      ap (λ d. if t.count == 0 then d else emit again d) (extend-else (e == eagain) error_logged c)
      ∙ extend-else (t.count == 0) again (extend c logged)
      ∙ extend-extend c logged (if t.count == 0 then [] else again ∷ []))

pub send_file_in_loop-idle :
    (t : Task) (c : TcpConnection) (sendfile : ℕ → Written)
    → IsIdle c
    → send_file_in_loop sendfile t.descriptor t.offset t.count c
      ≡ file_rest t.descriptor t.offset t.count c (sendfile t.count)
unfolding send_file_in_loop
send_file_in_loop-idle t c sendfile (up, quiet, empty) = ground (arith, up, quiet, empty)

pub send_file_in_loop-effects :
    (t : Task) (c : TcpConnection) (sendfile : ℕ → Written)
    → IsIdle c
    → t.count < 2 ^ 64
    → Obeys t.count (sendfile t.count)
    → send_file_in_loop sendfile t.descriptor t.offset t.count c
      ≡ extend c (effects t c.write_complete_callback (sendfile t.count))
unfolding send_file_in_loop
send_file_in_loop-effects t c sendfile (up, quiet, empty) bound ok =
    send_file_in_loop-idle t c sendfile (up, quiet, empty)
    ∙ file_rest-effects t c (sendfile t.count) bound ok

-- The calls for one file.
unfoldable pub calls_of : ℕ → List Task → List Task
calls_of d [] = []
calls_of d (t ∷ ts) = let rest = calls_of d ts in if t.descriptor == d then t ∷ rest else rest

pub calls_of-append :
    (d : ℕ) (ts us : List Task) → calls_of d (ts ++ us) ≡ calls_of d ts ++ calls_of d us
unfolding calls_of
calls_of-append d [] us = refl
calls_of-append d (t ∷ ts) us = elim (Bool-cases (t.descriptor == d)) [
  | inl mine ↦ rw (mine) (ap (λ l. t ∷ l) (calls_of-append d ts us))
  | inr other ↦ rw (other) (calls_of-append d ts us)
]

-- Where a file has got to, from `pos`: its pieces must follow on each other.
pub moved : ℕ → ℕ → Effect → Option ℕ
moved d pos (file_sent f o n) =
    if f == d then if o == pos then some (pos + n) else none else some pos
moved d pos (channel_updated events) = some pos
moved d pos channel_removed = some pos
moved d pos connection_called = some pos
moved d pos message_called = some pos
moved d pos close_called = some pos
moved d pos write_complete_queued = some pos
moved d pos (high_water_queued size) = some pos
moved d pos (send_file_queued f o n) = some pos
moved d pos error_logged = some pos

unfoldable pub sent_to : ℕ → ℕ → List Effect → Option ℕ
unfolding moved
sent_to d pos [] = some pos
sent_to d pos (e ∷ es) = elim (moved d pos e) [ none ↦ none | some next ↦ sent_to d next es ]

pub sent_to-append :
    (d pos m : ℕ) (es fs : List Effect)
    → sent_to d pos es ≡ some m
    → sent_to d pos (es ++ fs) ≡ sent_to d m fs
unfolding sent_to
sent_to-append d pos m [] fs eq =
    ap (λ o. elim o as (λ p. Option ℕ) [ none ↦ none | some n ↦ sent_to d n fs ]) eq
sent_to-append d pos m (e ∷ es) fs eq = go (moved d pos e) (λ n. sent_to-append d n m es fs) eq
  where
    go :
        (next : Option ℕ)
        → ((n : ℕ) → sent_to d n es ≡ some m → sent_to d n (es ++ fs) ≡ sent_to d m fs)
        → elim next as (λ o. Option ℕ) [ none ↦ none | some n ↦ sent_to d n es ] ≡ some m
        → elim next as (λ o. Option ℕ) [ none ↦ none | some n ↦ sent_to d n (es ++ fs) ]
          ≡ sent_to d m fs
    go none ih bad = absurd (ground (arith, bad))
    go (some n) ih rest = ih n rest

-- What a call leaves to do.
unfoldable pub rest_of : Task → Written → List Task
rest_of t (wrote n) =
    if t.count - n == 0
    then []
    else record { descriptor = t.descriptor; offset = t.offset + n; count = t.count - n } ∷ []
rest_of t (write_error e) = if t.count == 0 then [] else t ∷ []

pub queued_calls-effects :
    (t : Task) (b : Bool) (answer : Written) → queued_calls (effects t b answer) ≡ rest_of t answer
unfolding effects rest_of queued_calls
queued_calls-effects t true (wrote n) = ground arith
queued_calls-effects t false (wrote n) = ground arith
queued_calls-effects t b (write_error e) = ground arith

pub sent_to-other :
    (d m : ℕ) (t : Task) (b : Bool) (answer : Written)
    → (t.descriptor == d) ≡ false
    → sent_to d m (effects t b answer) ≡ some m
unfolding effects sent_to moved
sent_to-other d m t true (wrote n) other = ground (arith, other)
sent_to-other d m t false (wrote n) other = ground (arith, other)
sent_to-other d m t b (write_error e) other = ground (arith, other)

abbrev pub sent_by : Written → ℕ
sent_by (wrote n) = n
sent_by (write_error e) = 0

pub sent_to-mine :
    (d : ℕ) (t : Task) (b : Bool) (answer : Written)
    → (t.descriptor == d) ≡ true
    → sent_to d t.offset (effects t b answer) ≡ some (t.offset + sent_by answer)
unfolding effects sent_to moved
sent_to-mine d t true (wrote n) mine = ground (arith, mine)
sent_to-mine d t false (wrote n) mine = ground (arith, mine)
sent_to-mine d t b (write_error e) mine = ground (arith, mine)

drop-length {ℓ} : {A : Type ℓ} (xs ys : List A) → drop (length xs) (xs ++ ys) ≡ ys
drop-length [] ys = refl
drop-length (x ∷ xs) ys = drop-length xs ys

-- One step of the loop.
pub run_calls-step :
    (fuel k : ℕ) (sendfile : ℕ → ℕ → Written) (t : Task) (ts : List Task) (c : TcpConnection)
    (answer : Written)
    → IsIdle c
    → t.count < 2 ^ 64
    → sendfile k t.count ≡ answer
    → Obeys t.count answer
    → run_calls (suc fuel) k sendfile (t ∷ ts) c
      ≡ run_calls fuel
          (suc k)
          sendfile
          (ts ++ rest_of t answer)
          (extend c (effects t c.write_complete_callback answer))
unfolding run_calls
run_calls-step fuel k sendfile t ts c answer idle bound same ok =
    let es = effects t c.write_complete_callback answer in
    let obeyed = subst (Obeys t.count) (sym same) ok in
    let after =
      send_file_in_loop-effects t c (sendfile k) idle bound obeyed
      ∙ ap (λ a. extend c (effects t c.write_complete_callback a)) same in
    ap (λ a. run_calls fuel (suc k) sendfile (ts ++ queued_calls (drop (length c.trace) a.trace)) a)
      after
    ∙ ap (λ q. run_calls fuel (suc k) sendfile (ts ++ q) (extend c es))
        (ap queued_calls (drop-length c.trace es)
          ∙ queued_calls-effects t c.write_complete_callback answer)
