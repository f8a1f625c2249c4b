-- ===== src/SocketServer/Setup.antt =====
-- How the constructor ends (wetland/services/SocketServer.py).
use wetland.Prelude.{Bool, true, false, List, [], ◌∷◌, ◌++◌, ◌≡◌, if◌then◌else◌, arith}
use wetland.Prelude.Py.{returned, raised, PyError}
use wetland.SocketServer.{
  Address, Answers, Call, creates, sets_reuse, binds, listens, closes_server, tcp_server_init,
  request_queue_size,
}

abbrev pub reuse_calls : Bool → List Call
reuse_calls reuse = if reuse then sets_reuse ∷ [] else []

-- A constructor that returns has bound the address that it was given and then listens, in this
-- order, and the server's address is the one that the socket names.
pub init_listens :
    {A : Type 0} (reuse : Bool) (address : Address) (a : A) (os : Answers)
    → (tcp_server_init reuse address a os).0 ≡ returned tt
    → ((tcp_server_init reuse address a os).1.calls
        ≡ creates ∷ (reuse_calls reuse ++ binds address ∷ listens request_queue_size ∷ []))
      × (os.name ≡ returned (tcp_server_init reuse address a os).1.server_address)
unfolding tcp_server_init
init_listens true address a os h = ground arith
init_listens false address a os h = ground arith

-- The calls behind `socket.socket` up to the first that raises.
abbrev pub set_up_calls : Bool → Address → Answers → List Call
set_up_calls reuse address os =
    if reuse
    then sets_reuse ∷ elim os.reuse_set [ raised e ↦ [] | returned u ↦ bind_calls ]
    else bind_calls
  where
    bind_calls : List Call
    bind_calls = binds address ∷ elim os.bound [
      | raised e ↦ []
      | returned u ↦ elim os.name [ raised e ↦ [] | returned n ↦ listens request_queue_size ∷ [] ]
    ]

-- Whatever raises behind `socket.socket`, no further call is made but the one that closes the
-- socket, and the exception goes on.
pub init_closes :
    {A : Type 0} (reuse : Bool) (address : Address) (a : A) (os : Answers) (e : PyError)
    → os.created ≡ returned tt
    → (tcp_server_init reuse address a os).0 ≡ raised e
    → (tcp_server_init reuse address a os).1.calls
      ≡ creates ∷ (set_up_calls reuse address os ++ closes_server ∷ [])
unfolding tcp_server_init
init_closes true address a os e c h = ground arith
init_closes false address a os e c h = ground arith
