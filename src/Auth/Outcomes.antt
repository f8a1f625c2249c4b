-- ===== src/Auth/Outcomes.antt =====
-- What one call of `check_auth_password` returns and reports (wetland/server/sshServer.py).
use wetland.Prelude.{
  Bytes, codes, is_in, Bool, true, false, ◌&&◌, List, [], ◌∷◌, ◌++◌, append_assoc, Option, none,
  some, ◌≡◌, ◌⊎◌, arith,
}
use wetland.Prelude.Py.{returned}
use wetland.Event.{Event, wetland_subject, content_subject, credentials}
use wetland.Docker.{Docker}
use wetland.Auth.{
  admitted, AuthResult, auth_successful, auth_failed, truthy, Shared, check_auth_password,
  whitelist_login, blacklist_login, open_login, login,
}

abbrev pub pwd_event : Bytes → Bytes → Event
pwd_event u p = record {
  subject = content_subject;
  action = codes "pwd";
  content = credentials u p;
}

abbrev pub login_event : Bytes → Bytes → Event
login_event u p = record {
  subject = wetland_subject;
  action = codes "login_successful";
  content = credentials u p;
}

-- The events of an attempt that returns: in blacklist mode a success is not reported as `pwd`.
abbrev pub report : Bool → AuthResult → Bytes → Bytes → List Event
report true auth_successful u p = login_event u p ∷ []
report false auth_successful u p = pwd_event u p ∷ login_event u p ∷ []
report _ auth_failed u p = pwd_event u p ∷ []

-- Blacklist mode, with somebody already in.
abbrev pub in_blacklist_mode : {W : Type 0} → Bool → Shared W → Bool
in_blacklist_mode option s = option && truthy (s.blacklist admitted)

module _ (D : Docker) (option : Bool) (b u p : Bytes) where
  open D use {World}

  -- A successful login was accepted by the container with the same credentials, or came from an
  -- address on the whitelist before anybody had come in.
  pub success_authorised :
      (s : Shared World)
      → (check_auth_password D option b u p s).0 ≡ returned auth_successful
      → ((D.auth_password u p s.docker).0 ≡ returned tt)
        ⊎ ((w : List Bytes) × (s.whitelist ≡ some w)
            × (is_in b w ≡ true)
            × (truthy (s.blacklist admitted) ≡ false))
  unfolding check_auth_password whitelist_login blacklist_login open_login
  success_authorised s h = ground arith

  events-blacklist_login :
      (s : Shared World) (r : AuthResult)
      → (blacklist_login D option b u p s).0 ≡ returned r
      → (blacklist_login D option b u p s).1.events ≡ s.events ++ report true r u p
  unfolding blacklist_login
  events-blacklist_login s r h = ground arith

  events-open_login :
      (s : Shared World) (r : AuthResult)
      → (open_login D option b u p s).0 ≡ returned r
      → (open_login D option b u p s).1.events ≡ s.events ++ report false r u p
  unfolding open_login
  events-open_login s r h =
      ground (arith, append_assoc s.events (pwd_event u p ∷ []) (login_event u p ∷ []))

  events-whitelist_login :
      (w : List Bytes) (s : Shared World) (r : AuthResult)
      → (whitelist_login D option b u p w s).0 ≡ returned r
      → (whitelist_login D option b u p w s).1.events ≡ s.events ++ report false r u p
  unfolding whitelist_login
  events-whitelist_login w s r h =
      ground (arith, append_assoc s.events (pwd_event u p ∷ []) (login_event u p ∷ []))

  events-login :
      (w : Option (List Bytes)) (s : Shared World) (r : AuthResult)
      → (login D option b u p w s).0 ≡ returned r
      → (login D option b u p w s).1.events ≡ s.events ++ report (in_blacklist_mode option s) r u p
  unfolding login
  events-login none s r h = ground (arith, events-blacklist_login s r, events-open_login s r)
  events-login (some w) s r h =
      ground
        (arith, events-blacklist_login s r, events-open_login s r, events-whitelist_login w s r)

  -- A login that returns emits exactly the events of its mode and result, each with the
  -- credentials: pwd for a refusal, login_successful for a success, and pwd before it unless
  -- blacklist mode is on with somebody in.
  pub events-check :
      (s : Shared World) (r : AuthResult)
      → (check_auth_password D option b u p s).0 ≡ returned r
      → (check_auth_password D option b u p s).1.events
        ≡ s.events ++ report (in_blacklist_mode option s) r u p
  unfolding check_auth_password
  events-check s = events-login s.whitelist s
