-- ===== src/Auth.antt =====
-- Authentication: `ssh_server.check_auth_password` of wetland/server/sshServer.py, with the
-- blacklist and the whitelist that all connections share (wetland/server/tcpServer.py).
pub mod Outcomes
pub mod Valid
pub mod Verdict
pub mod Lockout
mod Tests
use wetland.Prelude.{
  ℕ, ◌+◌, Bytes, codes, bytes_eq, is_in, Bool, true, false, not, ◌&&◌, List, [], ◌∷◌, ◌++◌, Option,
  none, some, ltb, ◌==◌, is_empty, if◌then◌else◌,
}
use wetland.Prelude.Py.{Py, pure, returned, raised, type_error, try_except_else, ◌>>=◌, ◌>>◌}
use wetland.Event.{Event, wetland_subject, content_subject, credentials}
use wetland.Docker.{Docker}

-- The keys of `blacklist`: -1, and the addresses.
pub data Key : Type 0 where
  admitted : Key
  ip : Bytes → Key

-- The values of `blacklist`: a count, or an address.
pub data Entry : Type 0 where
  count : ℕ → Entry
  address : Bytes → Entry

pub data AuthResult : Type 0 where
  auth_successful auth_failed : AuthResult

-- get_allowed_auths
unfoldable pub get_allowed_auths : Bytes → Bytes
get_allowed_auths username = codes "password"

-- check_auth_publickey
unfoldable pub check_auth_publickey : Bytes → Bytes → AuthResult
check_auth_publickey username key = auth_failed

unfoldable pub key_eq : Key → Key → Bool
unfolding bytes_eq
key_eq admitted admitted = true
key_eq admitted (ip b) = false
key_eq (ip a) admitted = false
key_eq (ip a) (ip b) = bytes_eq a b

-- The truth value of an entry.
unfoldable pub truthy : Entry → Bool
truthy (count n) = not (n == 0)
truthy (address a) = not (is_empty a)

-- Whether an entry equals an address.
unfoldable pub is_address : Bytes → Entry → Bool
is_address b (count n) = false
is_address b (address a) = bytes_eq b a

-- entry > 3: in Python 2 every string is greater than every number.
unfoldable pub over_limit : Entry → Bool
over_limit (count n) = ltb 3 n
over_limit (address a) = true

-- A `defaultdict(lambda: 0)` that is only indexed is a total function.
abbrev pub Blacklist : Type 0
Blacklist = Key → Entry

abbrev pub no_entries : Blacklist
no_entries k = count 0

unfoldable pub store : Key → Entry → Blacklist → Blacklist
unfolding key_eq
store k e b j = if key_eq k j then e else b j

-- What a login reads and writes: the two lists, the emitted events and the container.
pub record Shared (World : Type 0) : Type 0 where
  pub blacklist : Blacklist
  pub whitelist : Option (List Bytes)
  pub events : List Event
  pub docker : World

module _ {World : Type 0} where
  -- self.opt.o(subject, action, content)
  unfoldable pub emit : Bytes → Bytes → Bytes → Py (Shared World) (Unit {0})
  emit subject action content s = (
    returned tt,
    record s {
      events = s.events ++ record { subject = subject; action = action; content = content } ∷ [];
    },
  )

  -- A call that goes to the container.
  unfoldable pub forward {ℓ} : {A : Type ℓ} → Py World A → Py (Shared World) A
  forward m s = let r = m s.docker in (r.0, record s { docker = r.1 })

  -- self.blacklist[k] = e
  unfoldable pub assign : Key → Entry → Py (Shared World) (Unit {0})
  unfolding store
  assign k e s = (returned tt, record s { blacklist = store k e s.blacklist })

  -- self.blacklist[k] += 1, where the entry is `e`
  unfoldable pub add_one : Key → Entry → Py (Shared World) (Unit {0})
  unfolding assign
  add_one k (count n) s = assign k (count (n + 1)) s
  add_one k (address a) s = (raised type_error, s)

  unfoldable pub increment : Key → Py (Shared World) (Unit {0})
  unfolding add_one
  increment k s = add_one k (s.blacklist k) s

-- `hacker_ip` of the connection, and the option `blacklist` of the section `wetland`.
module _ (D : Docker) (blacklist_option : Bool) (hacker_ip username password : Bytes) where
  open D use {World}

  -- One command as root: open_session, exec_command, close.
  unfoldable pub run_as_root : Bytes → Py (Shared World) (Unit {0})
  unfolding forward
  run_as_root command = do
    s ← forward D.open_session
    forward (D.exec_command s command)
    forward (D.close s)

  -- Lines 48 to 64: whitelist mode, and nobody has come in yet.
  unfoldable pub whitelist_login : List Bytes → Py (Shared World) AuthResult
  unfolding run_as_root emit assign
  whitelist_login whitelist = do
    emit content_subject (codes "pwd") (credentials username password)
    if not (is_in hacker_ip whitelist) then pure auth_failed else do
      forward (D.auth_password (codes "root") (codes "wetlandrootwetland"))
      run_as_root (codes "useradd -m " ++ username)
      run_as_root (codes "echo \"" ++ username ++ codes ":" ++ password ++ codes "\" | chpasswd")
      assign admitted (address hacker_ip)
      emit wetland_subject (codes "login_successful") (credentials username password)
      pure auth_successful

  -- Lines 66 to 84: blacklist mode, and somebody has come in. Lines 86 to 90 are unreachable.
  unfoldable pub blacklist_login : Py (Shared World) AuthResult
  unfolding forward emit increment is_address over_limit
  blacklist_login s =
      if not (is_address hacker_ip (s.blacklist admitted))
        && over_limit (s.blacklist (ip hacker_ip))
      then (do emit content_subject (codes "pwd") (credentials username password); pure auth_failed)
          s
      else try_except_else (forward (D.auth_password username password))
          (λ _. do
            increment (ip hacker_ip)
            emit content_subject (codes "pwd") (credentials username password)
            pure auth_failed)
          (λ _. do
            emit wetland_subject (codes "login_successful") (credentials username password)
            pure auth_successful)
          s

  -- Lines 91 to 104.
  unfoldable pub open_login : Py (Shared World) AuthResult
  unfolding forward emit assign
  open_login = do
    emit content_subject (codes "pwd") (credentials username password)
    try_except_else (forward (D.auth_password username password)) (λ _. pure auth_failed)
        (λ _. do
          emit wetland_subject (codes "login_successful") (credentials username password)
          assign admitted (address hacker_ip)
          pure auth_successful)

  -- The last branch tests `blacklist[-1]` again.
  unfoldable pub unlisted_login : Py (Shared World) AuthResult
  unfolding truthy
  unlisted_login s =
      if blacklist_option && truthy (s.blacklist admitted) then blacklist_login s else open_login s

  -- Line 47 tests `whitelist` and `blacklist[-1]`.
  unfoldable pub login : Option (List Bytes) → Py (Shared World) AuthResult
  unfolding unlisted_login
  login none s = unlisted_login s
  login (some whitelist) s =
      if not (truthy (s.blacklist admitted)) then whitelist_login whitelist s else unlisted_login s

  unfoldable pub check_auth_password : Py (Shared World) AuthResult
  unfolding login
  check_auth_password s = login s.whitelist s
