-- ===== src/Auth/Tests.antt =====
-- Logins against the container for tests.
use wetland.Prelude.{
  ℕ, Bytes, codes, Bool, true, false, not, List, [], ◌∷◌, ◌++◌, none, some, ◌≡◌, refl, inl, ◌⊎◌,
  arith, is_in, bytes_eq,
}
use wetland.Prelude.Py.{PyError, returned, raised, ssh_exception}
use wetland.Docker.Sample.{sample, accepts}
use wetland.Auth.{
  Shared, no_entries, admitted, ip, address, count, auth_successful, auth_failed,
  check_auth_password, store, Blacklist, truthy, whitelist_login, blacklist_login, open_login,
  is_address,
}
use wetland.Auth.Outcomes.{success_authorised, events-check, report, in_blacklist_mode}
use wetland.Auth.Valid.{IsValid, check-IsValid}
use wetland.Auth.Verdict.{verdict-check, expected}
use wetland.Auth.Lockout.{
  Move, attempt, new_whitelist, IsStranger, refused, serve, failures-serve, brute_force_bounded,
  OnlyBad,
}

abbrev admin : Bytes
admin = codes "admin"

abbrev secret : Bytes
secret = codes "secret"

abbrev home : Bytes
home = codes "10.0.0.1"

abbrev stranger : Bytes
stranger = codes "10.0.0.2"

abbrev fresh : Shared ℕ
fresh = record { blacklist = no_entries; whitelist = none; events = []; docker = 0 }

abbrev listed : Shared ℕ
listed = record fresh { whitelist = some (home ∷ []) }

-- The state after the first login, from `home`.
abbrev first : Blacklist
first admitted = address home
first (ip a) = count 0

abbrev entered : Shared ℕ
entered = record fresh { blacklist = first }

first_login : (check_auth_password sample true home admin secret fresh).0 ≡ returned auth_successful
unfolding check_auth_password open_login accepts
first_login = refl

whitelisted :
    (check_auth_password sample true home admin (codes "x") listed).0 ≡ returned auth_successful
unfolding check_auth_password whitelist_login is_in accepts
whitelisted = refl

not_whitelisted :
    (check_auth_password sample true stranger admin secret listed).0 ≡ returned auth_failed
unfolding check_auth_password whitelist_login is_in accepts
not_whitelisted = refl

wrong_password :
    (check_auth_password sample true stranger admin admin entered).0 ≡ returned auth_failed
unfolding check_auth_password blacklist_login accepts store
wrong_password = refl

-- Four failures from `stranger`, between them a login from `home`.
abbrev before : List Move
before =
    attempt stranger admin (codes "1")
    ∷ attempt stranger admin (codes "2")
    ∷ attempt home admin secret
    ∷ attempt stranger (codes "root") (codes "root")
    ∷ new_whitelist (stranger ∷ [])
    ∷ attempt stranger admin (codes "4")
    ∷ []

entered-IsValid : IsValid entered.blacklist
entered-IsValid = record { counts = λ a. tt; owner = λ e. cc }

bad : Bytes → Bytes → Bool
bad u p = not (accepts u p)

bad_rejected :
    (u p : Bytes) (n : ℕ)
    → bad u p ≡ true
    → (e : PyError) × ((sample.auth_password u p n).0 ≡ raised e)
unfolding bad
bad_rejected u p n h = (ssh_exception, ground arith)

entered-IsStranger : IsStranger stranger 0 entered.blacklist
unfolding store truthy is_address
entered-IsStranger = (refl, refl, refl)

before-OnlyBad : OnlyBad bad stranger before
unfolding bad accepts
before-OnlyBad = ((λ _. refl), ((λ _. refl), ((λ e. cc), ((λ _. refl), ((λ _. refl), tt)))))

-- The refused state that `before` leaves.
success_authorised_example :
    ((sample.auth_password admin (codes "x") 0).0 ≡ returned tt)
    ⊎ ((w : List Bytes) × (some (home ∷ []) ≡ some w)
        × (is_in home w ≡ true)
        × (truthy (no_entries admitted) ≡ false))
success_authorised_example =
    success_authorised sample true home admin (codes "x") listed whitelisted

events-check_example :
    (check_auth_password sample true stranger admin secret listed).1.events
    ≡ [] ++ report (in_blacklist_mode true listed) auth_failed admin secret
events-check_example =
    events-check sample true stranger admin secret listed auth_failed not_whitelisted

check-IsValid_example :
    IsValid (check_auth_password sample true stranger admin admin entered).1.blacklist
check-IsValid_example =
    check-IsValid sample true stranger admin admin (λ e. cc) entered entered-IsValid

verdict-check_example :
    (check_auth_password sample true stranger admin admin entered).0
    ≡ returned (expected true stranger entered.blacklist (sample.auth_password admin admin 0).0)
verdict-check_example =
    verdict-check sample true stranger admin admin entered entered-IsValid (inl refl)

failures-serve_example : (serve sample before entered).blacklist (ip stranger) ≡ count 4
unfolding bytes_eq
failures-serve_example =
    failures-serve sample bad bad_rejected stranger before 0 entered (omega arith) before-OnlyBad
      entered-IsStranger

brute_force_bounded_example :
    check_auth_password sample true stranger admin secret
      (serve sample [] (serve sample before entered))
    ≡ refused sample admin secret (serve sample [] (serve sample before entered))
unfolding bytes_eq
brute_force_bounded_example =
    brute_force_bounded sample bad bad_rejected stranger admin secret before [] entered
      entered-IsStranger before-OnlyBad (omega arith)
