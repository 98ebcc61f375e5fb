-- ===== src/Server.antt =====
-- src/TcpServer.cc, src/Acceptor.cc and src/EventLoopThreadPool.cc: accepting connections and
-- spreading them over the loops. Loops, descriptors and connections are numbers; a connection is
-- known by the number in its name, which is the only part that differs. `accept` is a list of the
-- kernel's answers.
pub mod RoundRobin
pub mod Connections
pub mod Acceptor
mod Tests
use mathlib.Core.Option
use kama_webserver.Prelude.{
  ℕ, zero, suc, ◌+◌, ◌%◌, ◌^◌, Bool, true, false, not, Option, none, some, List, [], ◌∷◌, ◌++◌,
  length, get_or, map, leb, ◌==◌, if◌then◌else◌,
}

pub record EventLoopThreadPool : Type 0 where
  pub base_loop : ℕ
  pub started : Bool
  pub num_threads : ℕ
  pub next : ℕ
  pub loops : List ℕ

pub init_pool : ℕ → ℕ → EventLoopThreadPool
init_pool base_loop num_threads = record {
  base_loop = base_loop;
  started = false;
  num_threads = num_threads;
  next = 0;
  loops = [];
}

-- `start_loop i` is the loop of the `i`-th thread.
pub start_loops : (ℕ → ℕ) → ℕ → List ℕ
start_loops start_loop zero = []
start_loops start_loop (suc n) = start_loops start_loop n ++ start_loop n ∷ []

pub start_pool : (ℕ → ℕ) → EventLoopThreadPool → EventLoopThreadPool
unfolding start_loops
start_pool start_loop p = record p {
  started = true;
  loops = p.loops ++ start_loops start_loop p.num_threads;
}

abbrev pub is_empty : List ℕ → Bool
is_empty [] = true
is_empty (x ∷ xs) = false

pub get_next_loop : EventLoopThreadPool → ℕ × EventLoopThreadPool
get_next_loop p = if is_empty p.loops then (p.base_loop, p) else (
  get_or p.loops p.next p.base_loop,
  record p { next = if leb (length p.loops) (p.next + 1) then 0 else p.next + 1 },
)

pub get_all_loops : EventLoopThreadPool → List ℕ
get_all_loops p = if is_empty p.loops then p.base_loop ∷ [] else p.loops

-- A connection: its number, its descriptor, its loop.
pub record Connection : Type 0 where
  pub id : ℕ
  pub sockfd : ℕ
  pub io_loop : ℕ

-- What the server asks of the loops.
pub data Request : Type 0 where
  listen : ℕ → Request
  establish : ℕ → Connection → Request
  destroy : ℕ → Connection → Request

pub record TcpServer : Type 0 where
  pub loop : ℕ
  pub thread_pool : EventLoopThreadPool
  pub next_conn_id : ℕ
  pub started : ℕ
  pub connections : List Connection
  pub requests : List Request

pub init : ℕ → ℕ → TcpServer
unfolding init_pool
init loop num_threads = record {
  loop = loop;
  thread_pool = init_pool loop num_threads;
  next_conn_id = 1;
  started = 0;
  connections = [];
  requests = [];
}

abbrev pub ask : Request → TcpServer → TcpServer
ask r s = record s { requests = s.requests ++ r ∷ [] }

pub start : (ℕ → ℕ) → TcpServer → TcpServer
unfolding start_pool
start start_loop s =
    let counted = record s { started = s.started + 1 } in
    if s.started == 0
    then ask (listen s.loop) (record counted { thread_pool = start_pool start_loop s.thread_pool })
    else counted

-- `erase` by name.
pub erase : List Connection → ℕ → List Connection
erase [] id = []
erase (c ∷ cs) id = let rest = erase cs id in if c.id == id then rest else c ∷ rest

-- `connections_[connName] = conn`.
pub insert : List Connection → Connection → List Connection
unfolding erase
insert cs c = c ∷ erase cs c.id

-- `nextConnId_` is an `int`, given by its 32 bits; C++ leaves its overflow undefined, and here it wraps.
pub new_connection : ℕ → TcpServer → TcpServer
unfolding insert
new_connection sockfd s =
    let (io_loop, pool) = get_next_loop s.thread_pool in
    let conn : Connection = record { id = s.next_conn_id; sockfd = sockfd; io_loop = io_loop } in
    ask (establish io_loop conn) (record s {
      thread_pool = pool;
      next_conn_id = (s.next_conn_id + 1) % 2 ^ 32;
      connections = insert s.connections conn;
    })

pub remove_connection_in_loop : Connection → TcpServer → TcpServer
unfolding erase
remove_connection_in_loop conn s =
    ask (destroy conn.io_loop conn) (record s { connections = erase s.connections conn.id })

-- The destructor's requests.
pub destroy_all : TcpServer → TcpServer
destroy_all s = record s { requests = s.requests ++ map (λ c. destroy c.io_loop c) s.connections }

-- The answers of `accept`, until an error ends the loop.
pub data Accepted : Type 0 where
  accepted : ℕ → Accepted
  accept_error : ℕ → Accepted

-- With the server's callback set.
pub accept_loop : List Accepted → TcpServer → TcpServer
unfolding new_connection
accept_loop [] s = s
accept_loop (accept_error e ∷ answers) s = s
accept_loop (accepted connfd ∷ answers) s = accept_loop answers (new_connection connfd s)
