-- ===== src/Channel/Dispatch.antt =====
-- src/Channel.cc: which callbacks an event runs, and in what order.
use kama_webserver.Prelude.{
  ℕ, ◌≡◌, ◌⊎◌, ◌↔◌, inl, inr, sym, ap, ◌∙◌, Bool, Bool-cases, true, false, ◌||◌, List, [], ◌∷◌, ltb,
  arith, if◌then◌else◌,
}
use kama_webserver.Channel.{
  Channel, Callback, close, error, read, write, handle_event, handle_event_with_guard,
}

-- The order that a connection needs: it is closed before anything is done to it.
pub rank : Callback → ℕ
rank close = 0
rank error = 1
rank read = 2
rank write = 3

abbrev pub is_same : Callback → Callback → Bool
is_same close close = true
is_same error error = true
is_same read read = true
is_same write write = true
is_same k l = false

abbrev pub runs : Callback → List Callback → Bool
runs k [] = false
runs k (l ∷ ls) = is_same k l || runs k ls

-- In this order, and none twice.
unfoldable pub is_ordered : List Callback → Bool
is_ordered [] = true
is_ordered (k ∷ []) = true
is_ordered (k ∷ l ∷ ls) =
    let rest = is_ordered (l ∷ ls) in if ltb (rank k) (rank l) then rest else false

-- Why a callback is to be run: a hang-up with nothing left to read, an error, data, urgent data, room.
pub data Calls (c : Channel) : Callback → Type 0 where
  hangs_up :
      c.revents.epollhup ≡ true
      → c.revents.epollin ≡ false
      → c.close_callback ≡ true
      → Calls c close
  fails : c.revents.epollerr ≡ true → c.error_callback ≡ true → Calls c error
  has_data : c.revents.epollin ≡ true → c.read_callback ≡ true → Calls c read
  has_urgent : c.revents.epollpri ≡ true → c.read_callback ≡ true → Calls c read
  has_room : c.revents.epollout ≡ true → c.write_callback ≡ true → Calls c write

module _ (c : Channel) where
  guarded-is_ordered : is_ordered (handle_event_with_guard c) ≡ true
  unfolding handle_event_with_guard is_ordered rank
  guarded-is_ordered = ground arith

  guarded-runs : (k : Callback) → Calls c k → runs k (handle_event_with_guard c) ≡ true
  unfolding handle_event_with_guard
  guarded-runs k (hangs_up a b h) = ground (arith, a, b, h)
  guarded-runs k (fails a h) = ground (arith, a, h)
  guarded-runs k (has_data a h) = ground (arith, a, h)
  guarded-runs k (has_urgent a h) = ground (arith, a, h)
  guarded-runs k (has_room a h) = ground (arith, a, h)

  runs-Calls : (k : Callback) → runs k (handle_event_with_guard c) ≡ true → Calls c k
  unfolding handle_event_with_guard
  runs-Calls close h = hangs_up (ground (arith, h)) (ground (arith, h)) (ground (arith, h))
  runs-Calls error h = fails (ground (arith, h)) (ground (arith, h))
  runs-Calls read h = elim (Bool-cases c.revents.epollin) [
    | inl data_in ↦ has_data data_in (ground (arith, h))
    | inr urgent ↦ has_urgent (ground (arith, h, urgent)) (ground (arith, h))
  ]
  runs-Calls write h = has_room (ground (arith, h)) (ground (arith, h))

module _ (alive : Bool) (c : Channel) where
  alive-handle_event :
      (c.tied ≡ false) ⊎ (alive ≡ true) → handle_event alive c ≡ handle_event_with_guard c
  unfolding handle_event
  alive-handle_event (inl untied) = ground (arith, untied)
  alive-handle_event (inr living) = ground (arith, living)

  gone-handle_event : c.tied ≡ true → alive ≡ false → handle_event alive c ≡ []
  unfolding handle_event
  gone-handle_event tied gone = ground (arith, tied, gone)

  guarded :
      (k : Callback) → runs k (handle_event alive c) ≡ true → (c.tied ≡ false) ⊎ (alive ≡ true)
  guarded k h = elim (Bool-cases c.tied) [
    | inr untied ↦ inl untied
    | inl tied ↦ elim (Bool-cases alive) [
      | inl living ↦ inr living
      | inr gone ↦ absurd (ground (arith, h, ap (runs k) (gone-handle_event tied gone)))
    ]
  ]

-- handleEvent runs its callbacks in the order close, error, read, write, none twice; and it runs a callback
-- exactly if the channel is untied or tied to an object that is alive, and there is a reason to: a hang-up
-- with no data to read closes, an error reports, data or urgent data reads, room writes, each if it is set.
pub handle_event-is_ordered :
    (alive : Bool) (c : Channel) (k : Callback)
    → (is_ordered (handle_event alive c) ≡ true)
      × ((runs k (handle_event alive c) ≡ true) ↔ (((c.tied ≡ false) ⊎ (alive ≡ true)) × Calls c k))
unfolding handle_event is_ordered
handle_event-is_ordered alive c k = (
  ground (arith, guarded-is_ordered c),
  (
    λ h.
        let live = guarded alive c k h in
        (live, runs-Calls c k (ap (runs k) (sym (alive-handle_event alive c live)) ∙ h)),
    λ (live, called). ap (runs k) (alive-handle_event alive c live) ∙ guarded-runs c k called,
  ),
)
