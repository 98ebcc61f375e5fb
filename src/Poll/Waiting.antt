-- ===== src/Poll/Waiting.antt =====
-- src/EPollPoller.cc: the events epoll waits for after an update, and what `poll` brings back.
use kama_webserver.Prelude.{
  ℕ, ◌*◌, ◌≡◌, refl, ap, false, Option, none, some, List, [], ◌∷◌, ◌==◌, length, map, arith,
  if◌then◌else◌,
}
use kama_webserver.Channel.{Channel, Events, is_none_event}
use kama_webserver.Poll.{
  Ctl, ctl_add, ctl_mod, ctl_del, Poller, set_channel, update, set_index, update_channel,
  set_events, fill_active_channels, poll, take_answer, happened, wait_error, Waited,
}

-- The events that came with a descriptor last, if it is registered.
unfoldable pub interest : List Ctl → ℕ → Option Events
interest [] fd = none
interest (c ∷ cs) fd =
    let before = interest cs fd in
    if c.fd == fd
    then elim c.operation [ ctl_add ↦ some c.events | ctl_mod ↦ some c.events | ctl_del ↦ none ]
    else before

-- A change of a channel's events that leaves some to wait for, followed by update, registers
-- exactly the changed events, whatever the channel's index was.
interest-update_channel :
    (p : Poller) (a : ℕ) (change : Events → Events)
    → is_none_event (change (p.store a).events) ≡ false
    → interest (update_channel a (set_events a change p)).calls (p.store a).fd
      ≡ some (change (p.store a).events)
unfolding interest update_channel set_events update set_index set_channel
interest-update_channel p a change some_event = ground (arith, some_event)

-- The events that the answers set for a channel, the last ones of it.
pub answered : List (Events × ℕ) → ℕ → Events → Events
answered [] b revents = revents
answered ((e, a) ∷ answers) b revents = answered answers b (if b == a then e else revents)

active-fill :
    (answers : List (Events × ℕ)) (store : ℕ → Channel)
    → (fill_active_channels answers store).0 ≡ map (λ x. x.1) answers
unfolding fill_active_channels
active-fill [] store = refl
active-fill ((e, a) ∷ answers) store = ap (◌∷◌ a) (active-fill answers _)

store-fill :
    (answers : List (Events × ℕ)) (store : ℕ → Channel) (b : ℕ)
    → (fill_active_channels answers store).1 b
      ≡ record (store b) { revents = answered answers b (store b).revents }
unfolding fill_active_channels answered set_channel
store-fill [] store b = refl
store-fill ((e, a) ∷ answers) store b =
    ground (arith, store-fill answers (set_channel store a (record (store a) { revents = e })) b)

-- What `poll` owes for an answer of epoll_wait.
pub IsAnswered : Waited → Poller → List ℕ × Poller → Type 0
unfolding answered
IsAnswered (wait_error e) p r = r ≡ ([], p)
IsAnswered (happened answers) p r =
    (r.0 ≡ map (λ x. x.1) answers)
    × ((b : ℕ)
        → r.1.store b ≡ record (p.store b) { revents = answered answers b (p.store b).revents })
    × (r.1.channels ≡ p.channels)
    × (r.1.calls ≡ p.calls)
    × (r.1.revents_size
        ≡ (if length answers == p.revents_size then p.revents_size * 2 else p.revents_size))

take_answer_lem : (w : Waited) (p : Poller) → IsAnswered w p (take_answer p w)
unfolding take_answer IsAnswered
take_answer_lem (wait_error e) p = refl
take_answer_lem (happened answers) p =
    (active-fill answers p.store, store-fill answers p.store, refl, refl, refl)

-- When epoll_wait answers with events, poll returns the channels of the answers in order; changes
-- of each channel only revents_, to the last events answered for it; keeps the map; makes no call
-- of epoll_ctl; and doubles the event list exactly if it was full. On an error it returns no
-- channel and changes nothing.
pub poll_lem :
    (epoll_wait : ℕ → Waited) (p : Poller)
    → IsAnswered (epoll_wait p.revents_size) p (poll epoll_wait p)
unfolding poll
poll_lem epoll_wait p = take_answer_lem (epoll_wait p.revents_size) p
