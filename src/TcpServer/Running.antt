-- ===== src/TcpServer/Running.antt =====
-- main.py over the rounds of the server's loop.
use wetland.Prelude.{Bool, true, false, List, none, All, ◌≡◌, refl, ◌∙◌, arith}
use wetland.Prelude.Py.{Outcome, returned, raised}
use wetland.SocketServer.{Address, Answers, Server, tcp_server_init}
use wetland.SocketServer.Loop.{Round, serve_forever}
use wetland.SocketServer.Survives.{IsQuiet, served, serve_forever_runs}
use wetland.TcpServer.Start.{
  Attributes, Mqtt, Options, Program, empty_attributes, run, tcp_server, main,
}

init_flag :
    {A : Type 0} (reuse : Bool) (address : Address) (a : A) (os : Answers)
    → (tcp_server_init reuse address a os).1.shutdown_request ≡ false
unfolding tcp_server_init
init_flag true address a os = ground arith
init_flag false address a os = ground arith

-- The program as the thread of main.py leaves it, before the loop.
abbrev pub started : Options → Answers → Mqtt → Server Attributes
started o os m = record (tcp_server (o.wetland_addr, o.wetland_port) o os m).1.server {
  is_shut_down = false;
}

tcp_server_flag :
    (o : Options) (os : Answers) (m : Mqtt)
    → (tcp_server (o.wetland_addr, o.wetland_port) o os m).0 ≡ returned tt
    → (tcp_server (o.wetland_addr, o.wetland_port) o os m).1.server.shutdown_request ≡ false
unfolding tcp_server
tcp_server_flag o os m h =
    rw h (init_flag true (o.wetland_addr, o.wetland_port) empty_attributes os)

run_returned :
    (r : Outcome (Unit {0}) × Program) (rounds : List Round)
    → r.0 ≡ returned tt
    → run r rounds ≡ serve_forever rounds r.1.server
run_returned (returned u, p) rounds h = refl
run_returned (raised e, p) rounds h = cc

-- Once its constructor returned, main.py runs on and has served the requests of every round, in
-- order, if in each nobody asks for a shutdown, select answers after any number of interrupts, and
-- accept gives a connection or an error of the socket; whether or not the threads start.
pub main_runs :
    (o : Options) (os : Answers) (m : Mqtt) (rounds : List Round) (q : All IsQuiet rounds)
    → (tcp_server (o.wetland_addr, o.wetland_port) o os m).0 ≡ returned tt
    → main o os m rounds ≡ (none, served rounds q (started o os m))
unfolding main
main_runs o os m rounds q h =
    let start = tcp_server (o.wetland_addr, o.wetland_port) o os m in
    run_returned start rounds h
    ∙ serve_forever_runs rounds q start.1.server (tcp_server_flag o os m h)
