-- ===== src/TcpServer/Threads.antt =====
-- A connection in its thread: `tcp_handler.handle` run by the server that tcp_server inherits
-- from (wetland/server/tcpServer.py, wetland/services/SocketServer.py).
use wetland.Prelude.{
  ℕ, Bytes, List, [], ◌∷◌, ◌++◌, Option, ◌≡◌, ◌≢◌, refl, ap, ◌∙◌, arith, append_assoc,
}
use wetland.Prelude.Py.{Outcome, returned, raised}
use wetland.SocketServer.{Server, Call, reports, shuts, closes}
use wetland.SocketServer.Requests.{process_request_thread}
use wetland.SocketServer.Closed.{on_attributes, after_thread, thread_lem}
use wetland.TcpServer as Loop
use wetland.TcpServer.{serving}
use wetland.TcpServer.Start.{Attributes}
use wetland.TcpServer.Handler.{SshOptions, Peer, handler}

abbrev pub both : Outcome (Unit {0}) → Outcome (Unit {0}) → Outcome (Unit {0})
both (returned u) r = r
both (raised e) r = raised e

abbrev pub discard : Outcome Bytes → Outcome (Unit {0})
discard (returned a) = returned tt
discard (raised e) = raised e

-- The first of the calls before start_server that raises.
abbrev pub set_up : Peer → Outcome (Unit {0})
set_up p =
    both p.transport (both p.rsa_key (both p.dsa_key (both (discard p.address) p.ssh_server)))

-- The calls on the connection with which its thread ends.
abbrev pub last_calls : Outcome (Unit {0}) → ℕ → List Call
last_calls (returned u) r = shuts r ∷ closes r ∷ []
last_calls (raised e) r = reports r ∷ shuts r ∷ closes r ∷ []

handler_outcome : (o : SshOptions) (p : Peer) (a : Attributes) → (handler o p a).0 ≡ set_up p
unfolding handler
handler_outcome o p a = ground arith

handler_lists :
    (o : SshOptions) (p : Peer) (a : Attributes)
    → ((handler o p a).1.blacklist ≡ a.blacklist) × ((handler o p a).1.whitelist ≡ a.whitelist)
unfolding handler
handler_lists o p a = ground arith

after_thread_calls :
    (r : ℕ) (s : Server Attributes) (x : Outcome (Unit {0}))
    → (after_thread x r s).calls ≡ s.calls ++ last_calls x r
after_thread_calls r s (returned u) = append_assoc s.calls (shuts r ∷ []) (closes r ∷ [])
after_thread_calls r s (raised e) =
    append_assoc (s.calls ++ reports r ∷ []) (shuts r ∷ []) (closes r ∷ [])
    ∙ append_assoc s.calls (reports r ∷ []) (shuts r ∷ closes r ∷ [])

after_thread_attributes :
    (r : ℕ) (s : Server Attributes) (x : Outcome (Unit {0}))
    → (after_thread x r s).attributes ≡ s.attributes
after_thread_attributes r s (returned u) = refl
after_thread_attributes r s (raised e) = refl

-- The thread of a connection whose handler has ended shuts the connection down and closes it, once,
-- whatever paramiko and the constructor of ssh_server did; it prints a traceback exactly if one of
-- the calls before start_server raised, and leaves both lists as they were.
pub thread_closes :
    (o : SshOptions) (p : Peer) (r : ℕ) (shut : Option ℕ) (s : Server Attributes)
    → (set_up p ≡ returned tt → Loop.handle p.start_server p.rounds serving ≢ serving)
    → ((process_request_thread (on_attributes (handler o p)) r shut s).1.calls
        ≡ s.calls ++ last_calls (set_up p) r)
      × ((process_request_thread (on_attributes (handler o p)) r shut s).1.attributes.blacklist
          ≡ s.attributes.blacklist)
      × ((process_request_thread (on_attributes (handler o p)) r shut s).1.attributes.whitelist
          ≡ s.attributes.whitelist)
thread_closes o p r shut s ended =
    let h = handler_outcome o p s.attributes in
    let t = record s { attributes = (handler o p s.attributes).1 } in
    let after = thread_lem (handler o p) r shut s (set_up p) h in
    let lists = handler_lists o p s.attributes in
    let kept = after_thread_attributes r t (set_up p) in
    (
      ap (λ u. u.calls) after ∙ after_thread_calls r t (set_up p),
      ap (λ u. u.attributes.blacklist) after ∙ (ap (λ u. u.blacklist) kept ∙ lists.0),
      ap (λ u. u.attributes.whitelist) after ∙ (ap (λ u. u.whitelist) kept ∙ lists.1),
    )
