-- ===== src/SocketServer.antt =====
-- The server that tcp_server inherits from: the constructor of TCPServer and its socket
-- (wetland/services/SocketServer.py, the edition of Python's module that the program runs). What the
-- operating system answers to a call is an argument.
pub mod Requests
pub mod Loop
pub mod Setup
pub mod Closed
pub mod Survives
mod Tests
use wetland.Prelude.{
  ℕ, Bytes, Bool, true, false, List, [], ◌∷◌, ◌++◌, Option, none, some, ◌==◌, if◌then◌else◌,
}
use wetland.Prelude.Py.{
  Outcome, returned, raised, Py, pure, raise, lift, ◌>>=◌, ◌>>◌, try_except_else, io_error,
}

abbrev pub Address : Type 0
Address = Bytes × ℕ

-- The calls of sockets and threads; a connection is named by its descriptor.
pub data Call : Type 0 where
  creates sets_reuse closes_server : Call
  binds : Address → Call
  listens : ℕ → Call
  accepts starts shuts closes reports : ℕ → Call

-- The attributes of BaseServer and TCPServer, those of a subclass, the calls made, and the requests
-- whose threads run.
pub record Server (A : Type 0) : Type 0 where
  pub server_address : Address
  pub is_shut_down : Bool
  pub shutdown_request : Bool
  pub attributes : A
  pub calls : List Call
  pub running : List ℕ

-- Attributes of the class TCPServer; tcp_server sets allow_reuse_address.
abbrev pub request_queue_size : ℕ
request_queue_size = 5

-- What the calls of the constructor do.
pub record Answers : Type 0 where
  pub created : Outcome (Unit {0})
  pub reuse_set : Outcome (Unit {0})
  pub bound : Outcome (Unit {0})
  pub name : Outcome Address
  pub listened : Outcome (Unit {0})

-- BaseServer.__init__
unfoldable pub base_server : {A : Type 0} → Address → A → Server A
base_server address a = record {
  server_address = address;
  is_shut_down = false;
  shutdown_request = false;
  attributes = a;
  calls = [];
  running = [];
}

module _ {A : Type 0} where
  -- A call, noted whether or not it raises.
  abbrev pub call : Call → Outcome (Unit {0}) → Py (Server A) (Unit {0})
  call c r s = (r, record s { calls = s.calls ++ c ∷ [] })

  abbrev get_address : Py (Server A) Address
  get_address s = (returned s.server_address, s)

  abbrev set_address : Address → Py (Server A) (Unit {0})
  set_address a s = (returned tt, record s { server_address = a })

  -- TCPServer.server_bind
  unfoldable pub server_bind : Bool → Answers → Py (Server A) (Unit {0})
  server_bind allow_reuse_address os = do
    if allow_reuse_address then call sets_reuse os.reuse_set else pure tt
    address ← get_address
    call (binds address) os.bound
    name ← lift os.name
    set_address name

  -- TCPServer.server_activate
  unfoldable pub server_activate : Answers → Py (Server A) (Unit {0})
  server_activate os = call (listens request_queue_size) os.listened

  -- TCPServer.server_close
  unfoldable pub server_close : Py (Server A) (Unit {0})
  server_close = call closes_server (returned tt)

  -- TCPServer.__init__ after BaseServer.__init__, with bind_and_activate
  unfoldable pub open_socket : Bool → Answers → Py (Server A) (Unit {0})
  unfolding server_bind server_activate server_close
  open_socket reuse os = do
    call creates os.created
    try_except_else (do server_bind reuse os; server_activate os) (λ e. server_close >> raise e)
        (λ done. pure tt)

  unfoldable pub tcp_server_init : Bool → Address → A → Answers → Outcome (Unit {0}) × Server A
  unfolding base_server open_socket
  tcp_server_init reuse address a os = open_socket reuse os (base_server address a)

-- except (OSError, select.error) as e: if e.args[0] != errno.EINTR: raise
abbrev pub retry {ℓ} : {B : Type ℓ} → ℕ → Option (Outcome B) → Option (Outcome B)
retry errno again = if errno == 4 then again else some (raised (io_error errno))

-- _eintr_retry: what each call of the function does, in order. At their end the call waits.
unfoldable pub eintr_retry {ℓ} : {B : Type ℓ} → List (Outcome B) → Option (Outcome B)
eintr_retry [] = none
eintr_retry (returned b ∷ rest) = some (returned b)
eintr_retry (raised (io_error errno) ∷ rest) = let again = eintr_retry rest in retry errno again
eintr_retry (raised e ∷ rest) = some (raised e)
