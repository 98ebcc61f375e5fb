-- ===== src/Log/AsyncLogging/Collecting.antt =====
-- What append and the swap do: they do not fault, and keep their share of the invariant.
use mathlib.Core.List.{append_assoc, append-nil}
use kama_webserver.Prelude.{
  ℕ, ◌≡◌, refl, ap, sym, ◌∙◌, true, inl, inr, Option, none, some, List, [], ◌∷◌, ◌++◌, length,
  arith, ltb, Bool-cases, length-append,
}
use kama_webserver.Log.FixedBuffer
use kama_webserver.Log.FixedBuffer.{
  FixedBuffer, IsValid, to_string, append_lem, to_string-eq-nil, avail_lem, size-init, size-reset,
  init-IsValid, reset-IsValid,
}
use kama_webserver.Log.AsyncLogging.{
  AsyncLogging, Backend, spare, rotate, append_to, append, collect_from, collect, bytes_of,
}
use kama_webserver.Log.AsyncLogging.System.{
  waiting, writing, accepted, IsEmpty, AllValid, Spare, Ready, FrontInv, BackInv, held,
}

bytes_of-append :
    (bs : List FixedBuffer) (b : FixedBuffer) → bytes_of (bs ++ b ∷ []) ≡ bytes_of bs ++ to_string b
bytes_of-append [] b = append-nil (to_string b)
bytes_of-append (x ∷ bs) b =
    ap (λ t. to_string x ++ t) (bytes_of-append bs b)
    ∙ sym (append_assoc (to_string x) (bytes_of bs) (to_string b))

AllValid-append :
    (capacity : ℕ) (bs : List FixedBuffer) (b : FixedBuffer)
    → AllValid capacity bs
    → IsValid capacity b
    → AllValid capacity (bs ++ b ∷ [])
AllValid-append capacity [] b vs v = (v, tt)
AllValid-append capacity (x ∷ bs) b vs v = (vs.0, AllValid-append capacity bs b vs.1 v)

-- A fresh buffer takes a message unless it is as long as the buffer.
append-IsEmpty :
    {capacity : ℕ} {b : FixedBuffer} (logline : List ℕ)
    → IsEmpty capacity b
    → IsValid capacity (FixedBuffer.append b logline)
      × (to_string (FixedBuffer.append b logline) ≡ accepted capacity logline)
append-IsEmpty {capacity} {b} logline e =
    ground (arith, append_lem logline e.valid, to_string-eq-nil b e.nothing)

spare-IsEmpty :
    (capacity : ℕ) (l : AsyncLogging) (next : Option FixedBuffer)
    → l.next_buffer ≡ next
    → l.buffer_size ≡ capacity
    → Spare capacity 1 next l.buffers
    → IsEmpty capacity (spare l)
spare-IsEmpty capacity l (some b) e size s = rw e s
spare-IsEmpty capacity l none e size s =
    rw (e, size) (record { valid = init-IsValid capacity; nothing = size-init capacity })

-- The outcome of logging one message.
abbrev pub Logged : ℕ → AsyncLogging → FixedBuffer → List ℕ → AsyncLogging → Type 0
Logged capacity l current logline l' =
    (current' : FixedBuffer) × FrontInv capacity l' current'
    × (held l' current' ≡ held l current ++ accepted capacity logline)

fits-Logged :
    {capacity : ℕ} {l : AsyncLogging} {current : FixedBuffer} (logline : List ℕ)
    → FrontInv capacity l current
    → ltb (length logline) (FixedBuffer.avail current) ≡ true
    → Logged capacity l current logline
        (record l { current_buffer = some (FixedBuffer.append current logline) })
fits-Logged {capacity} {l} {current} logline v fits = (
  FixedBuffer.append current logline,
  record {
    same_size = v.same_size;
    is_current = refl;
    current_valid = (append_lem logline v.current_valid).0;
    spare = v.spare;
    all_valid = v.all_valid;
  },
  rw text (sym (append_assoc (bytes_of l.buffers) (to_string current) (accepted capacity logline))),
)
  where
    text :
        to_string (FixedBuffer.append current logline)
        ≡ to_string current ++ accepted capacity logline
    text = ground (arith, append_lem logline v.current_valid, avail_lem v.current_valid)

rotate-Logged :
    {capacity : ℕ} {l : AsyncLogging} {current : FixedBuffer} (logline : List ℕ)
    → FrontInv capacity l current
    → Logged capacity l current logline (rotate l current logline)
rotate-Logged {capacity} {l} {current} logline v =
    let fresh = spare-IsEmpty capacity l l.next_buffer refl v.same_size v.spare in
    let (valid, text) = append-IsEmpty logline fresh in
    (
      FixedBuffer.append (spare l) logline,
      record {
        same_size = v.same_size;
        is_current = refl;
        current_valid = valid;
        spare = omega (arith, length-append l.buffers (current ∷ []));
        all_valid = AllValid-append capacity l.buffers current v.all_valid v.current_valid;
      },
      rw (text, bytes_of-append l.buffers current),
    )

pub append_to-Logged :
    {capacity : ℕ} {l : AsyncLogging} {current : FixedBuffer} (logline : List ℕ)
    → FrontInv capacity l current
    → Logged capacity l current logline (append_to l logline current)
unfolding append_to
append_to-Logged {capacity} {l} {current} logline v =
    elim (Bool-cases (ltb (length logline) (FixedBuffer.avail current))) [
      | inl fits ↦ rw fits (fits-Logged logline v fits)
      | inr full ↦ rw full (rotate-Logged logline v)
    ]

-- Logging never faults: the current buffer is always there.
pub append-Logged :
    {capacity : ℕ} {l : AsyncLogging} {current : FixedBuffer} (logline : List ℕ)
    → FrontInv capacity l current
    → (l' : AsyncLogging) × (append l logline ≡ some l') × Logged capacity l current logline l'
unfolding append
append-Logged {capacity} {l} {current} logline v =
    (append_to l logline current, rw v.is_current, append_to-Logged logline v)

-- The outcome of the locked part: the front end starts on an empty buffer with an empty queue, and
-- what it held is in the hands of the back end.
abbrev pub Collected : ℕ → AsyncLogging → FixedBuffer → AsyncLogging × Backend → Type 0
Collected capacity l current (l', t') =
    (current' : FixedBuffer) × FrontInv capacity l' current'
    × BackInv capacity writing t'
    × (held l' current' ≡ [])
    × (bytes_of t'.buffers_to_write ≡ held l current)

collect_from-Collected :
    {capacity : ℕ} {l : AsyncLogging} {t : Backend} {current : FixedBuffer}
    (next first second : Option FixedBuffer)
    → l.next_buffer ≡ next
    → t.new_buffer1 ≡ first
    → t.new_buffer2 ≡ second
    → FrontInv capacity l current
    → Ready capacity first
    → Ready capacity second
    → t.buffers_to_write ≡ []
    → Spare capacity 1 next l.buffers
    → Collected capacity l current (collect_from l t current)
unfolding collect_from
collect_from-Collected {capacity} {l} {t} {current} (some b) (some b1) (some b2) e e1 e2 v r1 r2
      none_left s =
    rw (e, collect_from)
      (
        b1,
        record {
          same_size = v.same_size;
          is_current = e1;
          current_valid = r1.valid;
          spare = rw e s;
          all_valid = rw none_left tt;
        },
        (
          refl,
          AllValid-append capacity l.buffers current v.all_valid v.current_valid,
          omega (arith, length-append l.buffers (current ∷ [])),
          rw e2 r2,
        ),
        rw none_left (to_string-eq-nil b1 r1.nothing),
        bytes_of-append l.buffers current,
      )
collect_from-Collected {capacity} {l} {t} {current} none (some b1) (some b2) e e1 e2 v r1 r2
      none_left s =
    rw (e, collect_from)
      (
        b1,
        record {
          same_size = v.same_size;
          is_current = e1;
          current_valid = r1.valid;
          spare = rw e2 r2;
          all_valid = rw none_left tt;
        },
        (
          refl,
          AllValid-append capacity l.buffers current v.all_valid v.current_valid,
          omega (arith, length-append l.buffers (current ∷ [])),
          omega (arith, length-append l.buffers (current ∷ [])),
        ),
        rw none_left (to_string-eq-nil b1 r1.nothing),
        bytes_of-append l.buffers current,
      )
collect_from-Collected (some b) (some b1) none e e1 e2 v r1 r2 none_left s = absurd r2
collect_from-Collected (some b) none second e e1 e2 v r1 r2 none_left s = absurd r1
collect_from-Collected none (some b1) none e e1 e2 v r1 r2 none_left s = absurd r2
collect_from-Collected none none second e e1 e2 v r1 r2 none_left s = absurd r1

pub collect-Collected :
    {capacity : ℕ} {l : AsyncLogging} (t : Backend) {current : FixedBuffer}
    → FrontInv capacity l current
    → BackInv capacity waiting t
    → (r : AsyncLogging × Backend) × (collect l t ≡ some r) × Collected capacity l current r
unfolding collect
collect-Collected {l} t {current} v b = (
  collect_from l t current,
  rw v.is_current,
  collect_from-Collected l.next_buffer t.new_buffer1 t.new_buffer2 refl refl refl v b.0 b.1 b.2
      v.spare,
)
