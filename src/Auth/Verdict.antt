-- ===== src/Auth/Verdict.antt =====
-- The result of `check_auth_password` outside whitelist mode (wetland/server/sshServer.py).
use wetland.Prelude.{
  Bytes, Bool, true, List, Option, none, some, ◌≡◌, ◌⊎◌, ◌&&◌, not, arith, if◌then◌else◌,
}
use wetland.Prelude.Py.{Outcome, returned, raised}
use wetland.Docker.{Docker}
use wetland.Auth.{
  admitted, ip, AuthResult, auth_successful, auth_failed, Blacklist, Shared, truthy, is_address,
  over_limit, check_auth_password, blacklist_login, open_login, login,
}
use wetland.Auth.Valid.{IsValid}

-- The container's answer as the result of the login.
abbrev pub verdict : Outcome (Unit {0}) → AuthResult
verdict (returned x) = auth_successful
verdict (raised e) = auth_failed

-- The address is not the one that came in, and failed more than three times.
abbrev pub is_banned : Bytes → Blacklist → Bool
is_banned b l = not (is_address b (l admitted)) && over_limit (l (ip b))

abbrev pub expected : Bool → Bytes → Blacklist → Outcome (Unit {0}) → AuthResult
expected option b l answer =
    if option && truthy (l admitted)
    then (if is_banned b l then auth_failed else verdict answer)
    else verdict answer

module _ (D : Docker) (option : Bool) (b u p : Bytes) where
  open D use {World}

  verdict-blacklist_login :
      (s : Shared World)
      → IsValid s.blacklist
      → (blacklist_login D option b u p s).0
        ≡ returned (
            if is_banned b s.blacklist
            then auth_failed
            else verdict (D.auth_password u p s.docker).0)
  unfolding blacklist_login
  verdict-blacklist_login s v = ground (arith, v.counts b)

  verdict-open_login :
      (s : Shared World)
      → (open_login D option b u p s).0 ≡ returned (verdict (D.auth_password u p s.docker).0)
  unfolding open_login
  verdict-open_login s = ground arith

  verdict-login :
      (w : Option (List Bytes)) (s : Shared World)
      → IsValid s.blacklist
      → (w ≡ none) ⊎ (truthy (s.blacklist admitted) ≡ true)
      → (login D option b u p w s).0
        ≡ returned (expected option b s.blacklist (D.auth_password u p s.docker).0)
  unfolding login
  verdict-login none s v k = ground (arith, verdict-blacklist_login s v, verdict-open_login s)
  verdict-login (some w) s v k = ground (arith, verdict-blacklist_login s v, verdict-open_login s)

  -- With a well-formed blacklist, and without a whitelist or once somebody has come in, a login
  -- returns and never raises: in blacklist mode with somebody in, a banned address is refused, and
  -- in all other cases the container's answer is the result.
  pub verdict-check :
      (s : Shared World)
      → IsValid s.blacklist
      → (s.whitelist ≡ none) ⊎ (truthy (s.blacklist admitted) ≡ true)
      → (check_auth_password D option b u p s).0
        ≡ returned (expected option b s.blacklist (D.auth_password u p s.docker).0)
  unfolding check_auth_password
  verdict-check s = verdict-login s.whitelist s
