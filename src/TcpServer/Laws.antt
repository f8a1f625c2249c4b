-- ===== src/TcpServer/Laws.antt =====
-- The ids of addresses, and the end of a connection (wetland/server/tcpServer.py).
use wetland.Prelude.{
  Bytes, bytes_eq, bytes_eq_refl, List, [], ◌∷◌, none, ◌≡◌, refl, arith, Bool, true, false, not,
  ◌||◌, Bool-cases, inl, inr, if◌then◌else◌,
}
use wetland.Prelude.Py.{Outcome, returned, raised, PyError, ssh_exception, channel_exception}
use wetland.TcpServer.{lookup, session_uid, Accept, serving, is_ssh_exception, accept_loop, handle}

-- An address keeps its id: when it comes again, whatever id is drawn, it has the one it got at
-- first, and no other address has changed its own.
session_uid_stable :
    (addr other fresh again : Bytes) (m : List (Bytes × Bytes))
    → (session_uid addr again (session_uid addr fresh m).1 ≡ session_uid addr fresh m)
      × ((if bytes_eq addr other then none else lookup other (session_uid addr fresh m).1)
          ≡ (if bytes_eq addr other then none else lookup other m))
unfolding session_uid lookup
session_uid_stable addr other fresh again m = (stable, ground arith)
  where
    stable : session_uid addr again (session_uid addr fresh m).1 ≡ session_uid addr fresh m
    stable = ground (arith, bytes_eq_refl addr)

-- While the handler runs the transport is open, and at the end of the loop it is closed.
accept_loop_open :
    (rounds : List Accept)
    → (accept_loop rounds serving).docker_open ≡ not (accept_loop rounds serving).ended
unfolding accept_loop
accept_loop_open [] = refl
accept_loop_open (a ∷ rest) = ground (arith, accept_loop_open rest)

-- What `except SSHException` takes.
abbrev pub caught : Outcome (Unit {0}) → Bool
caught (returned x) = false
caught (raised ssh_exception) = true
caught (raised channel_exception) = true
caught (raised e) = false

caught_by : (e : PyError) → caught (raised e) ≡ is_ssh_exception e
caught_by e = ground arith

-- The transport to the container is open exactly while the handler runs, or if start_server raised
-- an exception that `except SSHException` takes, ChannelException among them.
pub handle_leaks :
    (o : Outcome (Unit {0})) (rounds : List Accept)
    → (handle o rounds serving).docker_open ≡ (caught o || not (handle o rounds serving).ended)
unfolding handle
handle_leaks (returned x) rounds = accept_loop_open rounds
handle_leaks (raised e) rounds = elim (Bool-cases (is_ssh_exception e)) [
  | inl k ↦ rw (caught_by e, k) refl
  | inr k ↦ rw (caught_by e, k) refl
]
