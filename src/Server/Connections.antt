-- ===== src/Server/Connections.antt =====
-- src/TcpServer.cc and src/Acceptor.cc: the table of connections.
use mathlib.Core.Path.{subst}
use kama_webserver.Prelude.{
  ℕ, length, sym, ◌^◌, ◌+◌, ◌<◌, ◌≡◌, refl, ap, ◌∙◌, Bool-cases, inl, inr, List, [], ◌∷◌, map, ◌==◌,
  arith,
}
use kama_webserver.Server.{
  TcpServer, Connection, Accepted, accepted, accept_error, erase, insert, new_connection,
  accept_loop,
}

-- Every number in the table was given out before.
pub data AreBelow (n : ℕ) : List Connection → Type 0 where
  none_below : AreBelow n []
  one_below :
      (c : Connection) (cs : List Connection) → c.id < n → AreBelow n cs → AreBelow n (c ∷ cs)

erase-fresh : (cs : List Connection) (n : ℕ) → AreBelow n cs → erase cs n ≡ cs
unfolding erase
erase-fresh [] n below = refl
erase-fresh (c ∷ cs) n (one_below d ds h below) = ground (arith, erase-fresh cs n below)

AreBelow-suc : (n : ℕ) (cs : List Connection) → AreBelow n cs → AreBelow (n + 1) cs
AreBelow-suc n [] below = none_below
AreBelow-suc n (c ∷ cs) (one_below d ds h below) =
    one_below c cs (omega arith) (AreBelow-suc n cs below)

erase-AreBelow : (n id : ℕ) (cs : List Connection) → AreBelow n cs → AreBelow n (erase cs id)
unfolding erase
erase-AreBelow n id [] below = none_below
erase-AreBelow n id (c ∷ cs) (one_below d ds h below) = elim (Bool-cases (c.id == id)) [
  | inl same ↦ simp same (erase-AreBelow n id cs below)
  | inr other ↦ simp other (one_below c (erase cs id) h (erase-AreBelow n id cs below))
]

-- The descriptors accepted before the first error, the last one first, in front of others.
pub accepted_before : List Accepted → List ℕ → List ℕ
accepted_before [] fds = fds
accepted_before (accept_error e ∷ answers) fds = fds
accepted_before (accepted fd ∷ answers) fds = accepted_before answers (fd ∷ fds)

module _ (s : TcpServer) (below : AreBelow s.next_conn_id s.connections) (fd : ℕ)
    (fits : s.next_conn_id + 1 < 2 ^ 31) where
  next-new_connection : (new_connection fd s).next_conn_id ≡ s.next_conn_id + 1
  unfolding new_connection
  next-new_connection = omega (arith, fits)

  connections-new_connection :
      map (λ c. c.sockfd) (new_connection fd s).connections ≡ fd ∷ map (λ c. c.sockfd) s.connections
  unfolding new_connection insert
  connections-new_connection =
      ap (λ cs. fd ∷ map (λ c. c.sockfd) cs) (erase-fresh s.connections s.next_conn_id below)

  new_connection-AreBelow :
      AreBelow (new_connection fd s).next_conn_id (new_connection fd s).connections
  unfolding new_connection insert
  new_connection-AreBelow =
      subst (λ n. AreBelow n (new_connection fd s).connections) (sym next-new_connection)
        (one_below _ _ (omega arith) (
          erase-AreBelow (s.next_conn_id + 1) s.next_conn_id s.connections
            (AreBelow-suc s.next_conn_id s.connections below)))

-- If all numbers in the table were given out before, and the `int` that numbers the connections does not
-- overflow, then the loop over accept adds every connection accepted before the first error to the
-- table, once and without replacing another, and again all numbers in the table were given out before.
pub accept_loop_lem :
    (answers : List Accepted) (s : TcpServer)
    → AreBelow s.next_conn_id s.connections
    → s.next_conn_id + length answers < 2 ^ 31
    → (map (λ c. c.sockfd) (accept_loop answers s).connections
        ≡ accepted_before answers (map (λ c. c.sockfd) s.connections))
      × AreBelow (accept_loop answers s).next_conn_id (accept_loop answers s).connections
unfolding accept_loop accepted_before
accept_loop_lem [] s below fits = (refl, below)
accept_loop_lem (accept_error e ∷ answers) s below fits = (refl, below)
accept_loop_lem (accepted fd ∷ answers) s below fits =
    let one : s.next_conn_id + 1 < 2 ^ 31 = omega (arith, fits) in
    let (same, below') =
      accept_loop_lem answers (new_connection fd s) (new_connection-AreBelow s below fd one)
        (omega (arith, next-new_connection s below fd one, fits)) in
    (same ∙ ap (accepted_before answers) (connections-new_connection s below fd one), below')
