-- ===== src/Server/Tests.antt =====
-- Runs of src/TcpServer.cc and src/EventLoopThreadPool.cc.
use kama_webserver.Prelude.{ℕ, ◌+◌, ◌≡◌, List, [], ◌∷◌, map, arith}
use kama_webserver.Server.{Accepted, accepted, accept_error, init, accept_loop}
use kama_webserver.Server.Connections.{AreBelow, none_below, accepted_before, accept_loop_lem}

abbrev loop_of : ℕ → ℕ
loop_of i = i + 100

abbrev answers : List Accepted
answers = accepted 5 ∷ accepted 6 ∷ accept_error 11 ∷ []

accept_loop_lem_example :
    (map (λ c. c.sockfd) (accept_loop answers (init 9 3)).connections
      ≡ accepted_before answers (map (λ c. c.sockfd) (init 9 3).connections))
    × AreBelow
        (accept_loop answers (init 9 3)).next_conn_id
        (accept_loop answers (init 9 3)).connections
unfolding init
accept_loop_lem_example = accept_loop_lem answers (init 9 3) none_below (omega arith)
