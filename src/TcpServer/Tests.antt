-- ===== src/TcpServer/Tests.antt =====
-- Connections that end in given ways, and a program that starts.
use wetland.Prelude.{codes, [], ◌∷◌, ◌≡◌, not, ◌||◌, true, false, none, some, refl}
use wetland.Prelude.Py.{returned, raised, channel_exception, io_error}
use wetland.SocketServer.{Address, Answers, Server, closes, reports, shuts, base_server}
use wetland.SocketServer.Requests.{process_request_thread}
use wetland.SocketServer.Loop.{Round}
use wetland.SocketServer.Closed.{on_attributes}
use wetland.SocketServer.Survives.{IsQuiet, answers, interrupts, served}
use wetland.TcpServer.{handle, serving}
use wetland.TcpServer.Laws.{caught, handle_leaks}
use wetland.TcpServer.Start.{
  Attributes, Mqtt, Options, empty_attributes, tcp_server, connects, message, notify_all, main,
}
use wetland.TcpServer.Handler.{SshOptions, Peer, handler}
use wetland.TcpServer.Threads.{thread_closes}
use wetland.TcpServer.Updates.{whitelist_follows, last_message}
use wetland.TcpServer.Running.{main_runs, started}

handle_leaks_example : (handle (raised channel_exception) [] serving).docker_open ≡ (
    caught (raised channel_exception) || not (handle (raised channel_exception) [] serving).ended)
handle_leaks_example = handle_leaks (raised channel_exception) []

abbrev address : Address
address = (codes "0.0.0.0", 22)

abbrev fine : Answers
fine = record {
  created = returned tt;
  reuse_set = returned tt;
  bound = returned tt;
  name = returned address;
  listened = returned tt;
}

abbrev options : Options
options = record {
  whitelist = true;
  mqtt = true;
  wetland_addr = codes "0.0.0.0";
  wetland_port = 22;
}

abbrev client : Mqtt
client = record { subscriptions = []; callbacks = false }

starts_up : (tcp_server address options fine client).0 ≡ returned tt
unfolding tcp_server
starts_up = refl

whitelist_follows_example :
    (notify_all
      (message (codes "10.0.0.9" ∷ []) ∷ connects ∷ [])
      (tcp_server address options fine client).1).server.attributes.whitelist
    ≡ some (codes "10.0.0.9" ∷ [])
unfolding last_message
whitelist_follows_example =
    whitelist_follows address options fine client (message (codes "10.0.0.9" ∷ []) ∷ connects ∷ [])
      refl starts_up

-- `select` is interrupted once, and then a connection comes whose thread does not start.
abbrev round : Round
round = record {
  stops = false;
  selects = raised (io_error 4) ∷ returned true ∷ [];
  accepted = returned (record {
    request = 5;
    client_address = codes "10.0.0.1";
    started = raised (io_error 11);
    shut = none;
  });
}

abbrev round-IsQuiet : IsQuiet round
round-IsQuiet = record {
  ready = true;
  goes_on = refl;
  selected = interrupts 4 refl (answers true []);
  accept = tt;
}

main_runs_example :
    main options fine client (round ∷ [])
    ≡ (none, served (round ∷ []) (round-IsQuiet, tt) (started options fine client))
main_runs_example = main_runs options fine client (round ∷ []) (round-IsQuiet, tt) starts_up

abbrev keys : SshOptions
keys = record {
  private_rsa = codes "data/id_rsa";
  private_dsa = codes "data/id_dsa";
  banner = codes "SSH-2.0-OpenSSH_6.7p1";
}

-- The container does not answer: the constructor of ssh_server raises.
abbrev no_container : Peer
no_container = record {
  transport = returned tt;
  rsa_key = returned tt;
  dsa_key = returned tt;
  address = returned (codes "10.0.0.1");
  fresh = codes "1";
  ssh_server = raised (io_error 111);
  start_server = returned tt;
  rounds = [];
}

abbrev server : Server Attributes
unfolding base_server
server = base_server address empty_attributes

thread_closes_example :
    ((process_request_thread (on_attributes (handler keys no_container)) 5 none server).1.calls
      ≡ reports 5 ∷ shuts 5 ∷ closes 5 ∷ [])
    × ((process_request_thread
          (on_attributes (handler keys no_container))
          5
          none
          server).1.attributes.blacklist
        ≡ server.attributes.blacklist)
    × ((process_request_thread
          (on_attributes (handler keys no_container))
          5
          none
          server).1.attributes.whitelist
        ≡ server.attributes.whitelist)
unfolding base_server server
thread_closes_example = thread_closes keys no_container 5 none server (λ e. cc)
