-- ===== src/TcpServer.antt =====
-- One connection: `tcp_handler.handle` (wetland/server/tcpServer.py). Keys, banner and transport
-- are paramiko's; what the handler asks of them are the arguments below.
pub mod Laws
pub mod Start
pub mod Handler
pub mod Threads
pub mod Updates
pub mod Running
mod Tests
use wetland.Prelude.{
  ℕ, Bytes, bytes_eq, Bool, true, false, List, [], ◌∷◌, ◌++◌, Option, none, some, if◌then◌else◌,
}
use wetland.Prelude.Py.{PyError, Outcome, returned, raised, ssh_exception, channel_exception}

-- `server.sessions`: an address and its id
unfoldable pub lookup : Bytes → List (Bytes × Bytes) → Option Bytes
lookup addr [] = none
lookup addr ((a, uid) ∷ m) = if bytes_eq a addr then some uid else lookup addr m

-- Lines 62 to 67: the id of an address, with a fresh one if it is new.
abbrev pub sessions_with :
    Option Bytes → Bytes → Bytes → List (Bytes × Bytes) → Bytes × List (Bytes × Bytes)
sessions_with none addr fresh m = (fresh, (addr, fresh) ∷ m)
sessions_with (some uid) addr fresh m = (uid, m)

unfoldable pub session_uid : Bytes → Bytes → List (Bytes × Bytes) → Bytes × List (Bytes × Bytes)
session_uid addr fresh m = sessions_with (lookup addr m) addr fresh m

-- What `transport.accept(60)` did in a round, and whether channels are left after it.
pub record Accept : Type 0 where
  pub outcome : Outcome (Unit {0})
  pub channels : Bool

-- Whether the handler has ended, and whether `sServer.docker_trans` is open.
pub record Connection : Type 0 where
  pub ended : Bool
  pub docker_open : Bool

abbrev pub serving : Connection
serving = record { ended = false; docker_open = true }

-- sServer.docker_trans.close()
abbrev close : Connection → Connection
close c = record c { docker_open = false }

abbrev finish : Connection → Connection
finish c = record c { ended = true }

-- Lines 83 to 91: `while True`, with `finally: sServer.docker_trans.close()`. Where the rounds end
-- the handler waits in `accept`.
unfoldable pub accept_loop : List Accept → Connection → Connection
accept_loop [] c = c
accept_loop (a ∷ rest) c = let more = accept_loop rest c in after a.outcome a.channels more
  where
    after : Outcome (Unit {0}) → Bool → Connection → Connection
    after (raised e) channels more = finish (close c)
    after (returned x) true more = more
    after (returned x) false more = finish (close c)

-- Whether `except paramiko.SSHException` takes an exception: paramiko derives ChannelException from
-- SSHException.
abbrev pub is_ssh_exception : PyError → Bool
is_ssh_exception ssh_exception = true
is_ssh_exception channel_exception = true
is_ssh_exception e = false

-- Lines 73 to 91, with the outcome of `transport.start_server`.
unfoldable pub handle : Outcome (Unit {0}) → List Accept → Connection → Connection
unfolding accept_loop
handle (raised e) rounds c = if is_ssh_exception e then finish c else finish (close c)
handle (returned x) rounds c = accept_loop rounds c
