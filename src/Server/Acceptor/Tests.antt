-- ===== src/Server/Acceptor/Tests.antt =====
-- A run of src/Acceptor.cc.
use kama_webserver.Prelude.{◌≡◌, refl, none, some, true, false}
use kama_webserver.Channel
use kama_webserver.Channel.{Events}
use kama_webserver.Poll
use kama_webserver.Poll.{Poller, apply, enable_et, enable_reading}
use kama_webserver.Poll.Waiting.{interest}
use kama_webserver.Server.Acceptor.{init, listen, destroy}
use kama_webserver.Server.Acceptor.Listening.{listen_lem}

abbrev poller : Poller
poller = Poll.init (λ a. a)

listen_lem_example :
    (registered : Events) × (interest (listen (init 5) poller).1.calls 5 ≡ some registered)
    × (registered.epollin ≡ true)
    × (registered.epollet ≡ false)
    × (((listen (init 5) poller).1.store 5).events.epollet ≡ true)
    × (interest (apply enable_reading 5 (apply enable_et 5 poller)).calls 5
        ≡ some (Channel.enable_et registered))
    × (interest (destroy (listen (init 5) poller).0 (listen (init 5) poller).1).calls 5 ≡ none)
unfolding Poll.init
listen_lem_example = listen_lem (init 5) poller refl
