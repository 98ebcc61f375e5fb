-- ===== src/Server/Acceptor/Listening.antt =====
-- src/Acceptor.cc: what is registered of the listening descriptor.
use kama_webserver.Prelude.{◌≡◌, refl, true, false, none, some, arith}
use kama_webserver.Channel
use kama_webserver.Channel.{Channel, Events, is_none_event}
use kama_webserver.Poll.{
  Poller, set_channel, update, set_index, update_channel, remove_channel, set_events, apply,
  enable_et, enable_reading,
}
use kama_webserver.Poll.Waiting.{interest}
use kama_webserver.Server.Acceptor.{Acceptor, listen, destroy}

-- If the listening channel asks for no EPOLLET before, then listen registers its descriptor for reading
-- without EPOLLET, while the channel's own events have it; the other order, that of connectEstablished,
-- registers it. Behind the destructor the descriptor is not registered.
pub listen_lem :
    (a : Acceptor) (p : Poller)
    → (p.store a.accept_channel).events.epollet ≡ false
    → (registered : Events) × (interest (listen a p).1.calls (p.store a.accept_channel).fd
        ≡ some registered)
      × (registered.epollin ≡ true)
      × (registered.epollet ≡ false)
      × (((listen a p).1.store a.accept_channel).events.epollet ≡ true)
      × (interest
            (apply enable_reading a.accept_channel (apply enable_et a.accept_channel p)).calls
            (p.store a.accept_channel).fd
          ≡ some (Channel.enable_et registered))
      × (interest (destroy (listen a p).0 (listen a p).1).calls (p.store a.accept_channel).fd
          ≡ none)
unfolding listen destroy interest apply update_channel remove_channel set_events update set_index
    set_channel
listen_lem a p level = (
  Channel.enable_reading (p.store a.accept_channel).events,
  ground (arith, level),
  refl,
  level,
  ground (arith, level),
  ground (arith, level),
  ground (arith, level),
)
