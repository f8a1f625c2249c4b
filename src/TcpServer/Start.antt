-- ===== src/TcpServer/Start.antt =====
-- The start: main.py, and `tcp_server.__init__` with its MQTT callbacks
-- (wetland/server/tcpServer.py).
use wetland.Prelude.{
  ℕ, Bytes, codes, Bool, true, ◌&&◌, List, [], ◌∷◌, ◌++◌, Option, none, some, if◌then◌else◌,
}
use wetland.Prelude.Py.{Outcome, returned, raised}
use wetland.Auth.{Blacklist, no_entries}
use wetland.Whitelist.{initial_whitelist, updated}
use wetland.SocketServer.{Address, Answers, Server, tcp_server_init}
use wetland.SocketServer.Loop.{Round, serve_forever}

-- The attributes that the connections share.
pub record Attributes : Type 0 where
  pub whitelist : Option (List Bytes)
  pub blacklist : Blacklist
  pub sessions : List (Bytes × Bytes)

-- What the program asks of the MQTT client: its subscriptions, and whether both callbacks are set.
pub record Mqtt : Type 0 where
  pub subscriptions : List Bytes
  pub callbacks : Bool

-- The options `whitelist` of the section wetland and `mqtt` of output, and the address.
pub record Options : Type 0 where
  pub whitelist : Bool
  pub mqtt : Bool
  pub wetland_addr : Bytes
  pub wetland_port : ℕ

abbrev pub whitelist_topic : Bytes
whitelist_topic = codes "ck/ctr/wetland/whitelist"

unfoldable pub subscribe : Bytes → Mqtt → Mqtt
subscribe topic m = record m { subscriptions = m.subscriptions ++ topic ∷ [] }

-- The callback on_connect.
unfoldable pub on_connect : Mqtt → Mqtt
unfolding subscribe
on_connect m = subscribe whitelist_topic m

-- Lines 41 to 43.
unfoldable pub register : Mqtt → Mqtt
unfolding subscribe
register m = record (subscribe whitelist_topic m) { callbacks = true }

abbrev pub empty_attributes : Attributes
empty_attributes = record { whitelist = none; blacklist = no_entries; sessions = [] }

-- Lines 20 to 27.
unfoldable pub initial_attributes : Options → Attributes
unfolding initial_whitelist
initial_attributes o = record empty_attributes { whitelist = initial_whitelist o.whitelist o.mqtt }

-- A started program: its server and the MQTT client.
pub record Program : Type 0 where
  pub server : Server Attributes
  pub client : Mqtt

-- What the constructor does once the inherited one returned.
abbrev pub complete : Outcome (Unit {0}) → Options → Mqtt → Server Attributes → Program
complete (raised e) o m s = record { server = s; client = m }
complete (returned u) o m s = record {
  server = record s { attributes = initial_attributes o };
  client = if o.whitelist && o.mqtt then register m else m;
}

-- allow_reuse_address of tcp_server
abbrev pub allow_reuse_address : Bool
allow_reuse_address = true

unfoldable pub tcp_server : Address → Options → Answers → Mqtt → Outcome (Unit {0}) × Program
unfolding tcp_server_init initial_attributes register
tcp_server address o os m =
    let r = tcp_server_init allow_reuse_address address empty_attributes os in
    (r.0, complete r.0 o m r.1)

-- What the MQTT client calls: on_connect, or on_message with a list of addresses.
pub data Notice : Type 0 where
  connects : Notice
  message : List Bytes → Notice

-- Callbacks that are not set are not called.
unfoldable pub notify : Notice → Program → Program
unfolding on_connect updated
notify connects p = if p.client.callbacks then record p { client = on_connect p.client } else p
notify (message new) p =
    if p.client.callbacks
    then record p {
      server = record p.server {
        attributes = record p.server.attributes {
          whitelist = updated new p.server.attributes.whitelist;
        };
      };
    }
    else p

unfoldable pub notify_all : List Notice → Program → Program
unfolding notify
notify_all [] p = p
notify_all (n ∷ ns) p = notify_all ns (notify n p)

abbrev pub run :
    Outcome (Unit {0}) × Program → List Round → Option (Outcome (Unit {0})) × Server Attributes
run (raised e, p) rounds = (some (raised e), p.server)
run (returned u, p) rounds = serve_forever rounds p.server

-- main.py: the constructor, then serve_forever; `none` while it runs.
unfoldable pub main :
    Options → Answers → Mqtt → List Round → Option (Outcome (Unit {0})) × Server Attributes
unfolding tcp_server serve_forever
main o os m rounds = run (tcp_server (o.wetland_addr, o.wetland_port) o os m) rounds
