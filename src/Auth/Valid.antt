-- ===== src/Auth/Valid.antt =====
-- The shape of the shared blacklist (wetland/server/tcpServer.py), which every login keeps.
use wetland.Prelude.{Bytes, Bool, List, [], Option, none, some, ℕ, ◌+◌, ◌≡◌, ◌≢◌, refl, arith}
use wetland.Docker.{Docker}
use wetland.Auth.{
  admitted, ip, Entry, count, address, Shared, Blacklist, store, add_one, check_auth_password,
  whitelist_login, blacklist_login, open_login, login, no_entries,
}

abbrev pub IsCount : Entry → Type 0
IsCount (count n) = Unit
IsCount (address a) = ⊥

-- Nobody has come in, or the address of the one who came in last.
abbrev pub IsOwner : Entry → Type 0
IsOwner (count n) = n ≡ 0
IsOwner (address a) = a ≢ []

pub record IsValid (b : Blacklist) : Type 0 where
  pub counts : (a : Bytes) → IsCount (b (ip a))
  pub owner : IsOwner (b admitted)

pub no_entries-IsValid : IsValid no_entries
no_entries-IsValid = record { counts = λ a. tt; owner = refl }

store-admitted-IsValid :
    (a : Bytes) (l : Blacklist) → a ≢ [] → IsValid l → IsValid (store admitted (address a) l)
unfolding store
store-admitted-IsValid a l h v = record { counts = v.counts; owner = h }

store-ip-IsValid :
    (a : Bytes) (n : ℕ) (l : Blacklist) → IsValid l → IsValid (store (ip a) (count n) l)
unfolding store
store-ip-IsValid a n l v = record { counts = λ c. ground (arith, v.counts c); owner = v.owner }

add_one-IsValid :
    {W : Type 0} (a : Bytes) (e : Entry) (s : Shared W)
    → IsValid s.blacklist
    → IsValid (add_one (ip a) e s).1.blacklist
unfolding add_one
add_one-IsValid a (count n) s v = store-ip-IsValid a (n + 1) s.blacklist v
add_one-IsValid a (address c) s v = v

module _ (D : Docker) (option : Bool) (b u p : Bytes) (named : b ≢ []) where
  open D use {World}

  blacklist_login-IsValid :
      (s : Shared World)
      → IsValid s.blacklist
      → IsValid (blacklist_login D option b u p s).1.blacklist
  unfolding blacklist_login
  blacklist_login-IsValid s v =
      let r = D.auth_password u p s.docker in
      unfold store in
      ground (arith, add_one-IsValid b (s.blacklist (ip b)) (record s { docker = r.1 }) v)

  open_login-IsValid :
      (s : Shared World) → IsValid s.blacklist → IsValid (open_login D option b u p s).1.blacklist
  unfolding open_login
  open_login-IsValid s v = ground (arith, store-admitted-IsValid b s.blacklist named v)

  whitelist_login-IsValid :
      (w : List Bytes) (s : Shared World)
      → IsValid s.blacklist
      → IsValid (whitelist_login D option b u p w s).1.blacklist
  unfolding whitelist_login
  whitelist_login-IsValid w s v = ground (arith, store-admitted-IsValid b s.blacklist named v)

  login-IsValid :
      (w : Option (List Bytes)) (s : Shared World)
      → IsValid s.blacklist
      → IsValid (login D option b u p w s).1.blacklist
  unfolding login
  login-IsValid none s v = ground (arith, blacklist_login-IsValid s v, open_login-IsValid s v)
  login-IsValid (some w) s v =
      ground
        (arith, blacklist_login-IsValid s v, open_login-IsValid s v, whitelist_login-IsValid w s v)

  -- A login from a nonempty address keeps the blacklist well formed: addresses have counts, and the
  -- entry of -1 is 0 or a nonempty address.
  pub check-IsValid :
      (s : Shared World)
      → IsValid s.blacklist
      → IsValid (check_auth_password D option b u p s).1.blacklist
  unfolding check_auth_password
  check-IsValid s v = login-IsValid s.whitelist s v
