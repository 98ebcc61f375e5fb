-- ===== src/Log/AsyncLogging/Order.antt =====
-- No fault and no loss: the invariant along every history.
use mathlib.Core.List.{append_assoc, append-nil}
use kama_webserver.Prelude.{ℕ, ◌≡◌, refl, ap, sym, ◌∙◌, some, List, [], ◌++◌}
use mathlib.Core.Path.{subst}
use mathlib.Core.Option.{some-injective}
use kama_webserver.Log.FixedBuffer
use kama_webserver.Log.FixedBuffer.{
  FixedBuffer, IsValid, to_string, init-IsValid, size-init, to_string-init,
}
use kama_webserver.Log.AsyncLogging.{
  AsyncLogging, Backend, init, start, stop, init_backend, append, collect, bytes_of, recycle,
}
use kama_webserver.Log.AsyncLogging.System.{
  Phase, testing, waiting, writing, recycling, finished, System, started, Step, logs, stops,
  goes_on, collects, writes, recycles, ends, Reach, begin, next, accepted, FrontInv, BackInv,
  IsEmpty, held, in_flight, Inv,
}
use kama_webserver.Log.AsyncLogging.Collecting.{append-Logged, Collected, collect-Collected}
use kama_webserver.Log.AsyncLogging.Recycling.{recycle-BackInv}

module _ (capacity : ℕ) where
  -- The invariant, with the current buffer left open.
  abbrev pub IsSound : System → Type 0
  IsSound s = (current : FixedBuffer) × Inv capacity s current

  started-IsSound : IsSound (started capacity)
  unfolding init start init_backend
  started-IsSound = (
    current,
    record {
      front = record {
        same_size = refl;
        is_current = refl;
        current_valid = init-IsValid capacity;
        spare = empty;
        all_valid = tt;
      };
      back = (empty, empty, refl);
      order = sym (to_string-init capacity);
    },
  )
    where
      current : FixedBuffer
      current = FixedBuffer.init capacity

      empty : IsEmpty capacity current
      empty = record { valid = init-IsValid capacity; nothing = size-init capacity }

  logs-IsSound :
      {s : System} (logline : List ℕ) {l : AsyncLogging}
      → append s.front logline ≡ some l
      → IsSound s
      → IsSound (record s { front = l; logged = s.logged ++ accepted s.front.buffer_size logline })
  logs-IsSound {s} logline {l} run (current, v) =
      let (l', run', (current', front, text)) = append-Logged logline v.front in
      let same = some-injective l' l (sym run' ∙ run) in
      let front' = subst (λ k. FrontInv capacity k current') same front in
      let text' =
        subst (λ k. held k current' ≡ held s.front current ++ accepted capacity logline) same
          text in
      (
        current',
        record {
          front = front';
          back = v.back;
          order =
              rw (v.front.same_size, v.order, text')
                (append_assoc s.file _ _
                  ∙ ap (λ t. s.file ++ t) (append_assoc (in_flight s.phase s.back) _ _));
        },
      )

  collects-IsSound :
      {s : System} {l : AsyncLogging} {t : Backend}
      → s.phase ≡ waiting
      → collect s.front s.back ≡ some (l, t)
      → IsSound s
      → IsSound (record s { front = l; back = t; phase = writing })
  collects-IsSound {s} {l} {t} at_wait run (current, v) =
      let (r, run', out) =
        collect-Collected s.back v.front (subst (λ p. BackInv capacity p s.back) at_wait v.back) in
      let (current', front, back, nothing, taken) =
        subst (Collected capacity s.front current) (some-injective r (l, t) (sym run' ∙ run)) out in
      (
        current',
        record {
          front = front;
          back = back;
          order =
              v.order
              ∙ ap (λ p. s.file ++ (in_flight p s.back ++ held s.front current)) at_wait
              ∙ ap (λ x. s.file ++ x)
                  (sym taken
                    ∙ sym (append-nil _)
                    ∙ ap (λ x. bytes_of t.buffers_to_write ++ x) (sym nothing));
        },
      )

  writes-IsSound :
      {s : System}
      → s.phase ≡ writing
      → IsSound s
      → IsSound (record s { phase = recycling; file = s.file ++ bytes_of s.back.buffers_to_write })
  writes-IsSound {s} at_write (current, v) = (
    current,
    record {
      front = v.front;
      back = subst (λ p. BackInv capacity p s.back) at_write v.back;
      order =
          v.order
          ∙ ap (λ p. s.file ++ (in_flight p s.back ++ held s.front current)) at_write
          ∙ sym (append_assoc s.file (bytes_of s.back.buffers_to_write) (held s.front current));
    },
  )

  recycles-IsSound :
      {s : System} {t : Backend}
      → s.phase ≡ recycling
      → recycle s.back ≡ some t
      → IsSound s
      → IsSound (record s { back = t; phase = testing })
  recycles-IsSound {s} {t} at_recycle run (current, v) =
      let (t', run', back) =
        recycle-BackInv capacity s.back
          (subst (λ p. BackInv capacity p s.back) at_recycle v.back) in
      (
        current,
        record {
          front = v.front;
          back = subst (BackInv capacity testing) (some-injective t' t (sym run' ∙ run)) back;
          order =
              v.order ∙ ap (λ p. s.file ++ (in_flight p s.back ++ held s.front current)) at_recycle;
        },
      )

  moves-IsSound :
      {s : System} (p : Phase)
      → s.phase ≡ testing
      → (BackInv capacity testing s.back → BackInv capacity p s.back)
      → in_flight p s.back ≡ []
      → IsSound s
      → IsSound (record s { phase = p })
  moves-IsSound {s} p at_test keep nothing (current, v) = (
    current,
    record {
      front = v.front;
      back = keep (subst (λ q. BackInv capacity q s.back) at_test v.back);
      order =
          v.order
          ∙ ap (λ q. s.file ++ (in_flight q s.back ++ held s.front current)) at_test
          ∙ ap (λ x. s.file ++ (x ++ held s.front current)) (sym nothing);
    },
  )

  Step-IsSound : {s t : System} → Step s t → IsSound s → IsSound t
  Step-IsSound (logs logline run) h = logs-IsSound logline run h
  Step-IsSound {s} stops (current, v) = (
    current,
    unfold stop in
        record {
          front = record {
            same_size = v.front.same_size;
            is_current = v.front.is_current;
            current_valid = v.front.current_valid;
            spare = v.front.spare;
            all_valid = v.front.all_valid;
          };
          back = v.back;
          order = v.order;
        },
  )
  Step-IsSound (goes_on p r) h = moves-IsSound waiting p (λ b. b) refl h
  Step-IsSound (collects p run) h = collects-IsSound p run h
  Step-IsSound (writes p) h = writes-IsSound p h
  Step-IsSound (recycles p run) h = recycles-IsSound p run h
  Step-IsSound (ends p r) h = moves-IsSound finished p (λ b. b) refl h

  pub Reach-IsSound : {s : System} → Reach capacity s → IsSound s
  Reach-IsSound begin = started-IsSound
  Reach-IsSound (next r st) = Step-IsSound st (Reach-IsSound r)

-- In every reachable state a message can be logged, and the back end can do its next step: neither
-- reads through a null pointer or takes a buffer from an empty vector.
abbrev pub CanRun : Phase → System → Type 0
CanRun waiting s = (r : AsyncLogging × Backend) × (collect s.front s.back ≡ some r)
CanRun recycling s = (t : Backend) × (recycle s.back ≡ some t)
CanRun _ s = Unit {0}

can_run :
    (capacity : ℕ) (s : System) (current : FixedBuffer) (p : Phase)
    → s.phase ≡ p
    → Inv capacity s current
    → CanRun p s
can_run capacity s current waiting e v =
    let (r, run, _) =
      collect-Collected s.back v.front (subst (λ p. BackInv capacity p s.back) e v.back) in
    (r, run)
can_run capacity s current recycling e v =
    let (t, run, _) =
      recycle-BackInv capacity s.back (subst (λ p. BackInv capacity p s.back) e v.back) in
    (t, run)
can_run capacity s current testing e v = tt
can_run capacity s current writing e v = tt
can_run capacity s current finished e v = tt

-- Whatever the interleaving of loggers, back end and `stop`, logging a message does not fault, nor
-- does the next step of the back end: no null buffer is read, and no empty vector is taken from.
pub no_fault :
    (capacity : ℕ) (s : System) (logline : List ℕ)
    → Reach capacity s
    → ((l : AsyncLogging) × (append s.front logline ≡ some l)) × CanRun s.phase s
no_fault capacity s logline r =
    let (current, v) = Reach-IsSound capacity r in
    let (l, run, _) = append-Logged logline v.front in
    ((l, run), can_run capacity s current s.phase refl v)

-- In every reachable state the bytes of the accepted messages are, in the order in which they were
-- logged: those in the file, those that the back end is about to write, those in the full buffers
-- and those in the current buffer. None is lost, doubled or out of order.
pub nothing_lost :
    (capacity : ℕ) (s : System)
    → Reach capacity s
    → (current : FixedBuffer) × (s.front.current_buffer ≡ some current)
      × (s.logged ≡ s.file ++ (in_flight s.phase s.back ++ held s.front current))
nothing_lost capacity s r =
    let (current, v) = Reach-IsSound capacity r in (current, v.front.is_current, v.order)
