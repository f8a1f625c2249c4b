-- ===== src/TcpServer/Updates.antt =====
-- The whitelist of a running program (wetland/server/tcpServer.py).
use wetland.Prelude.{
  Bytes, codes, true, false, ◌&&◌, List, [], ◌∷◌, none, some, ◌≡◌, refl, ◌∙◌, ap, Bool-cases, inl,
  inr, if◌then◌else◌, arith,
}
use wetland.Prelude.Py.{returned}
use wetland.Whitelist.{replace_whitelist-eq}
use wetland.SocketServer.{Address, Answers}
use wetland.TcpServer.Start.{
  Mqtt, Options, Program, Notice, connects, message, notify, notify_all, tcp_server,
}

-- The last list that was sent, or the first one.
unfoldable pub last_message : List Bytes → List Notice → List Bytes
last_message l [] = l
last_message l (connects ∷ ns) = last_message l ns
last_message l (message new ∷ ns) = last_message new ns

notify_set :
    (n : Notice) (p : Program) (l : List Bytes)
    → p.client.callbacks ≡ true
    → p.server.attributes.whitelist ≡ some l
    → ((notify n p).client.callbacks ≡ true)
      × ((notify n p).server.attributes.whitelist ≡ some (last_message l (n ∷ [])))
unfolding notify last_message
notify_set connects p l c w = ground arith
notify_set (message new) p l c w = ground (arith, replace_whitelist-eq new l)

notify_unset : (n : Notice) (p : Program) → p.client.callbacks ≡ false → notify n p ≡ p
unfolding notify
notify_unset connects p c = ground arith
notify_unset (message new) p c = ground arith

notify_all_set :
    (ns : List Notice) (p : Program) (l : List Bytes)
    → p.client.callbacks ≡ true
    → p.server.attributes.whitelist ≡ some l
    → (notify_all ns p).server.attributes.whitelist ≡ some (last_message l ns)
unfolding notify_all last_message
notify_all_set [] p l c w = w
notify_all_set (connects ∷ ns) p l c w =
    let h = notify_set connects p l c w in notify_all_set ns (notify connects p) l h.0 h.1
notify_all_set (message new ∷ ns) p l c w =
    let h = notify_set (message new) p l c w in
    notify_all_set ns (notify (message new) p) new h.0 h.1

notify_all_unset :
    (ns : List Notice) (p : Program) → p.client.callbacks ≡ false → notify_all ns p ≡ p
unfolding notify_all
notify_all_unset [] p c = refl
notify_all_unset (n ∷ ns) p c =
    let same = notify_unset n p c in ap (notify_all ns) same ∙ notify_all_unset ns p c

-- Once the server is made, with an MQTT client that had no callbacks, and whatever messages and
-- connects come: with both options the whitelist holds exactly the addresses of the last message,
-- or the local one before the first; without one of them there is none.
pub whitelist_follows :
    (address : Address) (o : Options) (os : Answers) (m : Mqtt) (ns : List Notice)
    → m.callbacks ≡ false
    → (tcp_server address o os m).0 ≡ returned tt
    → (notify_all ns (tcp_server address o os m).1).server.attributes.whitelist
      ≡ (if o.whitelist && o.mqtt then some (last_message (codes "127.0.0.1" ∷ []) ns) else none)
unfolding tcp_server
whitelist_follows address o os m ns c h = elim (Bool-cases (o.whitelist && o.mqtt)) [
  | inl on ↦ rw (h, on) (notify_all_set ns _ (codes "127.0.0.1" ∷ []) refl refl)
  | inr off ↦ rw (h, off) (ap (λ p. p.server.attributes.whitelist) (notify_all_unset ns _ c))
]
