-- ===== src/Whitelist.antt =====
-- The whitelist of `tcp_server`, and its update by an MQTT message (wetland/server/tcpServer.py).
use wetland.Prelude.{
  ℕ, zero, suc, Bytes, codes, Bool, ◌&&◌, List, [], ◌∷◌, ◌++◌, Option, none, some, length,
  if◌then◌else◌, ◌≡◌, refl, sym, ◌∙◌, append-nil, append_assoc,
}
use wetland.Auth.{Shared}

-- Lines 24 to 27: with both options the list starts with the local address.
unfoldable pub initial_whitelist : Bool → Bool → Option (List Bytes)
initial_whitelist whitelist_option mqtt_option =
    if whitelist_option && mqtt_option then some (codes "127.0.0.1" ∷ []) else none

-- for _ in range(n): del l[0]
unfoldable pub delete_first : ℕ → List Bytes → List Bytes
delete_first zero l = l
delete_first (suc n) [] = []
delete_first (suc n) (x ∷ l) = delete_first n l

-- for i in new: l.append(i)
unfoldable pub append_each : List Bytes → List Bytes → List Bytes
append_each [] l = l
append_each (i ∷ new) l = append_each new (l ++ i ∷ [])

unfoldable pub replace_whitelist : List Bytes → List Bytes → List Bytes
unfolding delete_first append_each
replace_whitelist new l = append_each new (delete_first (length l) l)

-- `on_message`, with the addresses of the message's JSON list. With no whitelist no handler is set.
unfoldable pub updated : List Bytes → Option (List Bytes) → Option (List Bytes)
unfolding replace_whitelist
updated new none = none
updated new (some l) = some (replace_whitelist new l)

unfoldable pub on_message : {World : Type 0} → List Bytes → Shared World → Shared World
unfolding updated
on_message new s = record s { whitelist = updated new s.whitelist }

delete_first-length : (l : List Bytes) → delete_first (length l) l ≡ []
unfolding delete_first
delete_first-length [] = refl
delete_first-length (x ∷ l) = delete_first-length l

append_each-append : (new l : List Bytes) → append_each new l ≡ l ++ new
unfolding append_each
append_each-append [] l = sym (append-nil l)
append_each-append (i ∷ new) l = append_each-append new (l ++ i ∷ []) ∙ append_assoc l (i ∷ []) new

-- The in-place loops leave exactly the addresses of the message.
pub replace_whitelist-eq : (new l : List Bytes) → replace_whitelist new l ≡ new
unfolding replace_whitelist
replace_whitelist-eq new l = rw (delete_first-length l) (append_each-append new [])
