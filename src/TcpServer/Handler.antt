-- ===== src/TcpServer/Handler.antt =====
-- The whole of `tcp_handler.handle` (wetland/server/tcpServer.py) on the shared attributes. What
-- the calls of paramiko and the constructor of `ssh_server` do are arguments.
use wetland.Prelude.{Bytes, codes, List, [], ◌∷◌, ◌++◌}
use wetland.Prelude.Py.{Outcome, returned, raised, Py, pure, lift, ◌>>=◌, ◌>>◌}
use wetland.TcpServer.{session_uid, Accept, Connection, serving}
use wetland.TcpServer as Loop
use wetland.TcpServer.Start.{Attributes}

-- The options of the section ssh.
pub record SshOptions : Type 0 where
  pub private_rsa : Bytes
  pub private_dsa : Bytes
  pub banner : Bytes

-- What the calls do: the transport, the two key files, the address of the peer, the id that is
-- drawn, the constructor of ssh_server, start_server, and the rounds of accept.
pub record Peer : Type 0 where
  pub transport : Outcome (Unit {0})
  pub rsa_key : Outcome (Unit {0})
  pub dsa_key : Outcome (Unit {0})
  pub address : Outcome Bytes
  pub fresh : Bytes
  pub ssh_server : Outcome (Unit {0})
  pub start_server : Outcome (Unit {0})
  pub rounds : List Accept

-- What the handler sets on the transport: key files, banner and subsystems.
pub record Transport : Type 0 where
  pub server_keys : List Bytes
  pub local_version : Bytes
  pub subsystems : List Bytes

abbrev pub new_transport : Transport
new_transport = record { server_keys = []; local_version = []; subsystems = [] }

pub record Handling : Type 0 where
  pub attributes : Attributes
  pub transport : Transport

unfoldable pub add_server_key : Bytes → Py Handling (Unit {0})
add_server_key key h = (
  returned tt,
  record h { transport = record h.transport { server_keys = h.transport.server_keys ++ key ∷ [] } },
)

unfoldable pub set_version : Bytes → Py Handling (Unit {0})
set_version banner h =
    (returned tt, record h { transport = record h.transport { local_version = banner } })

unfoldable pub set_subsystem_handler : Bytes → Py Handling (Unit {0})
set_subsystem_handler name h = (
  returned tt,
  record h { transport = record h.transport { subsystems = h.transport.subsystems ++ name ∷ [] } },
)

-- Lines 63 to 67.
unfoldable pub take_uid : Bytes → Bytes → Py Handling Bytes
unfolding session_uid
take_uid addr fresh h =
    let r = session_uid addr fresh h.attributes.sessions in
    (returned r.0, record h { attributes = record h.attributes { sessions = r.1 } })

-- Lines 48 to 60.
unfoldable pub configure : SshOptions → Peer → Py Handling (Unit {0})
unfolding add_server_key set_version set_subsystem_handler
configure o p = do
  lift p.transport
  lift p.rsa_key
  lift p.dsa_key
  add_server_key o.private_rsa
  add_server_key o.private_dsa
  set_version o.banner
  set_subsystem_handler (codes "sftp")

-- The method: the state of the transport to the container at its end.
unfoldable pub handle : SshOptions → Peer → Py Handling Connection
unfolding configure take_uid Loop.handle
handle o p = do
  configure o p
  addr ← lift p.address
  uid ← take_uid addr p.fresh
  lift p.ssh_server
  pure (Loop.handle p.start_server p.rounds serving)

abbrev pub ignore : Outcome Connection → Outcome (Unit {0})
ignore (returned c) = returned tt
ignore (raised e) = raised e

-- The method as the thread of a request sees it.
unfoldable pub handler : SshOptions → Peer → Py Attributes (Unit {0})
unfolding handle
handler o p a =
    let r = handle o p (record { attributes = a; transport = new_transport }) in
    (ignore r.0, r.1.attributes)
