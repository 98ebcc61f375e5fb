-- ===== src/Server/Acceptor.antt =====
-- src/Acceptor.cc: the listening descriptor and its registration. The socket's own calls are the kernel's.
pub mod Listening
mod Tests
use kama_webserver.Prelude.{ℕ, Bool, true, false}
use kama_webserver.Poll.{Poller, apply, enable_et, enable_reading, disable_all, remove}

-- `accept_channel` is the address of the channel in the poller's store.
pub record Acceptor : Type 0 where
  pub accept_channel : ℕ
  pub listenning : Bool

abbrev pub init : ℕ → Acceptor
init accept_channel = record { accept_channel = accept_channel; listenning = false }

pub listen : Acceptor → Poller → Acceptor × Poller
listen a p = (
  record a { listenning = true },
  apply enable_et a.accept_channel (apply enable_reading a.accept_channel p),
)

pub destroy : Acceptor → Poller → Poller
destroy a p = apply remove a.accept_channel (apply disable_all a.accept_channel p)
