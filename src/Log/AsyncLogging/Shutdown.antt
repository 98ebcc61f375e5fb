-- ===== src/Log/AsyncLogging/Shutdown.antt =====
-- What `stop` leaves behind.
use kama_webserver.Prelude.{ℕ, ◌<◌, ◌≡◌, refl, List, [], ◌++◌, length, lt→ltb}
use kama_webserver.Log.AsyncLogging.{init, start, stop}
use kama_webserver.Log.AsyncLogging.System.{
  finished, System, started, Step, logs, stops, goes_on, collects, writes, recycles, ends, Reach,
  begin, next, accepted,
}
use kama_webserver.Log.AsyncLogging.Order.{no_fault}

-- Past its loop the back end writes nothing any more.
pub finished_keeps_file :
    {s t : System} → Step s t → s.phase ≡ finished → (t.file ≡ s.file) × (t.phase ≡ finished)
finished_keeps_file (logs logline run) e = (refl, e)
finished_keeps_file stops e = (refl, e)
finished_keeps_file (goes_on p r) e = absurd (cc)
finished_keeps_file (collects p run) e = absurd (cc)
finished_keeps_file (writes p) e = absurd (cc)
finished_keeps_file (recycles p run) e = absurd (cc)
finished_keeps_file (ends p r) e = absurd (cc)

-- Every message that a buffer could take can be lost: it is logged before `stop`, and the back end
-- ends without having written it.
pub shutdown_loses :
    (capacity : ℕ) (logline : List ℕ)
    → length logline < capacity
    → (s : System) × Reach capacity s × (s.phase ≡ finished) × (s.logged ≡ logline) × (s.file ≡ [])
unfolding init start stop
shutdown_loses capacity logline fits =
    let ((l, run), _) = no_fault capacity (started capacity) logline begin in
    (
      record {
        front = stop l;
        back = (started capacity).back;
        phase = finished;
        file = [];
        logged = [] ++ accepted capacity logline;
      },
      next (next (next begin (logs logline run)) stops) (ends refl refl),
      refl,
      rw (lt→ltb (length logline) capacity fits),
      refl,
    )
