-- ===== src/SocketServer/Tests.antt =====
-- A server with one connection.
use wetland.Prelude.{ℕ, ◌+◌, codes, true, [], ◌∷◌, ◌++◌, none, some, ◌≡◌, refl}
use wetland.Prelude.Py.{Py, returned, raised, io_error, other_error}
use wetland.SocketServer.{Address, Answers, Server, tcp_server_init}
use wetland.SocketServer.Requests.{
  Arrival, process_request, handle_request_noblock, process_request_thread,
}
use wetland.SocketServer.Closed.{
  on_attributes, Reach, here, next, arrives, ends, Reach-IsAccounted, total, count, accepted_call,
  closed_call,
}

abbrev address : Address
address = (codes "0.0.0.0", 22)

abbrev fine : Answers
fine = record {
  created = returned tt;
  reuse_set = returned tt;
  bound = returned tt;
  name = returned address;
  listened = returned tt;
}

-- A connection whose thread starts, and one whose thread does not.
abbrev first : Arrival
first = record {
  request = 5;
  client_address = codes "10.0.0.1";
  started = returned tt;
  shut = none;
}

abbrev second : Arrival
second = record {
  request = 6;
  client_address = codes "10.0.0.1";
  started = raised (io_error 11);
  shut = some 107;
}

abbrev listening : Server ℕ
unfolding tcp_server_init
listening = (tcp_server_init true address 0 fine).1

abbrev accepted : Server ℕ
unfolding handle_request_noblock
accepted = (handle_request_noblock (returned first) listening).1

abbrev refused : Server ℕ
unfolding handle_request_noblock
refused = (handle_request_noblock (returned second) accepted).1

-- The handler of the first connection raises.
abbrev failing : Py ℕ (Unit {0})
failing n = (raised other_error, n + 1)

abbrev ended : Server ℕ
unfolding process_request_thread
ended = (process_request_thread (on_attributes failing) 5 none (record refused { running = [] })).1

running_one : refused.running ≡ [] ++ 5 ∷ []
unfolding refused accepted listening handle_request_noblock tcp_server_init process_request
running_one = refl

reached : Reach listening ended
unfolding ended accepted handle_request_noblock
reached =
    next
      (next (next here (arrives listening (returned first))) (arrives accepted (returned second)))
      (ends refused failing 5 none [] [] running_one)

Reach-IsAccounted_example :
    total (accepted_call 5) ended.calls ≡ total (closed_call 5) ended.calls + count 5 ended.running
unfolding listening ended
Reach-IsAccounted_example = Reach-IsAccounted true address 0 fine reached 5
