-- ===== src/Poll.antt =====
-- src/EPollPoller.cc and src/Poller.cc: which channels are registered with epoll. Channels are
-- objects in a store, by address. A call of `epoll_ctl` is written down in `calls`, the last one
-- first; what the kernel answers changes nothing but the log. `epoll_wait` is an argument.
pub mod Protocol
pub mod Waiting
mod Tests
use kama_webserver.Prelude.{
  ℕ, ◌+◌, ◌*◌, ◌%◌, Bool, true, false, Option, none, some, List, [], ◌∷◌, ◌==◌, length, map,
  if◌then◌else◌,
}
use kama_webserver.Channel
use kama_webserver.Channel.{Channel, Events, new, added, deleted}

pub data Operation : Type 0 where
  ctl_add : Operation
  ctl_mod : Operation
  ctl_del : Operation

-- `event.data.ptr` is the channel's address.
pub record Ctl : Type 0 where
  pub operation : Operation
  pub fd : ℕ
  pub events : Events
  pub ptr : ℕ

pub record Poller : Type 0 where
  pub channels : List (ℕ × ℕ)
  pub store : ℕ → Channel
  pub calls : List Ctl
  pub revents_size : ℕ

-- `kInitEventListSize` is 16.
unfoldable pub init : (ℕ → ℕ) → Poller
init fd = record { channels = []; store = λ a. Channel.init (fd a); calls = []; revents_size = 16 }

pub find : List (ℕ × ℕ) → ℕ → Option ℕ
find [] fd = none
find ((k, a) ∷ xs) fd = if k == fd then some a else find xs fd

pub erase : List (ℕ × ℕ) → ℕ → List (ℕ × ℕ)
erase [] fd = []
erase ((k, a) ∷ xs) fd = let rest = erase xs fd in if k == fd then rest else (k, a) ∷ rest

abbrev pub insert : List (ℕ × ℕ) → ℕ → ℕ → List (ℕ × ℕ)
insert xs fd a = (fd, a) ∷ erase xs fd

unfoldable pub set_channel : (ℕ → Channel) → ℕ → Channel → ℕ → Channel
set_channel store a c b = if b == a then c else store b

pub has_channel : Poller → ℕ → Bool
unfolding find
has_channel p a = elim (find p.channels (p.store a).fd) [ none ↦ false | some b ↦ b == a ]

-- `update`: the call of `epoll_ctl`.
unfoldable pub update : Operation → ℕ → Poller → Poller
update operation a p = record p {
  calls =
      record { operation = operation; fd = (p.store a).fd; events = (p.store a).events; ptr = a }
      ∷ p.calls;
}

unfoldable pub set_index : ℕ → Channel.Index → Poller → Poller
unfolding set_channel
set_index a index p = record p {
  store = set_channel p.store a (record (p.store a) { index = index });
}

unfoldable pub update_channel : ℕ → Poller → Poller
unfolding update set_index
update_channel a p = elim (p.store a).index [
  | new ↦
      update ctl_add a
        (set_index a added (record p { channels = insert p.channels (p.store a).fd a }))
  | deleted ↦ update ctl_add a (set_index a added p)
  | added ↦
      if Channel.is_none_event (p.store a).events
      then set_index a deleted (update ctl_del a p)
      else update ctl_mod a p
]

unfoldable pub remove_channel : ℕ → Poller → Poller
unfolding update set_index erase
remove_channel a p = set_index a new (elim (p.store a).index [
  | added ↦ update ctl_del a (record p { channels = erase p.channels (p.store a).fd })
  | new ↦ record p { channels = erase p.channels (p.store a).fd }
  | deleted ↦ record p { channels = erase p.channels (p.store a).fd }
])

-- A channel's own calls: a change of its event mask, then `update` through the loop.
unfoldable pub set_events : ℕ → (Events → Events) → Poller → Poller
unfolding set_channel
set_events a change p = record p {
  store = set_channel p.store a (record (p.store a) { events = change (p.store a).events });
}

pub data Call : Type 0 where
  enable_et : Call
  enable_reading : Call
  disable_reading : Call
  enable_writing : Call
  disable_writing : Call
  disable_all : Call
  remove : Call

unfoldable pub apply : Call → ℕ → Poller → Poller
unfolding set_events update_channel remove_channel
apply enable_et a p = set_events a Channel.enable_et p
apply enable_reading a p = update_channel a (set_events a Channel.enable_reading p)
apply disable_reading a p = update_channel a (set_events a Channel.disable_reading p)
apply enable_writing a p = update_channel a (set_events a Channel.enable_writing p)
apply disable_writing a p = update_channel a (set_events a Channel.disable_writing p)
apply disable_all a p = update_channel a (set_events a (λ e. Channel.none_event) p)
apply remove a p = remove_channel a p

pub run : List (Call × ℕ) → Poller → Poller
unfolding apply
run [] p = p
run ((call, a) ∷ calls) p = run calls (apply call a p)

-- `fillActiveChannels`: the events of each answer go to its channel; the channels, in order.
pub fill_active_channels : List (Events × ℕ) → (ℕ → Channel) → List ℕ × (ℕ → Channel)
unfolding set_channel
fill_active_channels [] store = ([], store)
fill_active_channels ((events, a) ∷ answers) store =
    let rest =
      fill_active_channels answers (set_channel store a (record (store a) { revents = events })) in
    (a ∷ rest.0, rest.1)

-- What `epoll_wait` answers for a list of the given size: the events, or an errno.
pub data Waited : Type 0 where
  happened : List (Events × ℕ) → Waited
  wait_error : ℕ → Waited

pub take_answer : Poller → Waited → List ℕ × Poller
unfolding fill_active_channels
take_answer p (wait_error e) = ([], p)
take_answer p (happened answers) =
    let filled = fill_active_channels answers p.store in
    (
      filled.0,
      record p {
        store = filled.1;
        revents_size =
            if length answers == p.revents_size then p.revents_size * 2 else p.revents_size;
      },
    )

pub poll : (ℕ → Waited) → Poller → List ℕ × Poller
unfolding take_answer
poll epoll_wait p = take_answer p (epoll_wait p.revents_size)
