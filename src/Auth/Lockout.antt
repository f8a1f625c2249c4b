-- ===== src/Auth/Lockout.antt =====
-- Blacklist mode over whole histories of logins from many addresses
-- (wetland/server/sshServer.py, with the state of wetland/server/tcpServer.py).
use Prim.Native.Nat.{min}
use wetland.Prelude.{
  ℕ, suc, ◌+◌, ◌≤◌, Bytes, Bool, true, false, List, [], ◌∷◌, ◌++◌, Option, none, some, ◌≡◌, refl,
  ap, ◌∙◌, arith, inl, inr, Bool-cases, if◌then◌else◌, ltb, bytes_eq, bytes_eq_refl, bytes_eq_iff,
}
use wetland.Prelude.Py.{PyError, returned, raised, Outcome}
use wetland.Docker.{Docker}
use wetland.Auth.{
  admitted, ip, Entry, count, address, AuthResult, auth_failed, Shared, Blacklist, add_one,
  check_auth_password, blacklist_login, login, truthy, is_address, over_limit,
}
use wetland.Auth.Outcomes.{pwd_event}
use wetland.Whitelist.{on_message}

-- What changes the shared state: a login on some connection, or a new whitelist.
pub data Move : Type 0 where
  attempt : Bytes → Bytes → Bytes → Move
  new_whitelist : List Bytes → Move

-- Somebody else has come in, and the address has failed more than three times.
abbrev pub IsLocked : Bytes → Blacklist → Type 0
IsLocked b l =
    (truthy (l admitted) ≡ true)
    × (is_address b (l admitted) ≡ false)
    × (over_limit (l (ip b)) ≡ true)

module _ (D : Docker) where
  open D use {World}

  unfoldable pub move : Move → Shared World → Shared World
  move (attempt b u p) s = (check_auth_password D true b u p s).1
  move (new_whitelist w) s = on_message w s

  unfoldable pub serve : List Move → Shared World → Shared World
  unfolding move
  serve [] s = s
  serve (m ∷ ms) s = serve ms (move m s)

  add_one-IsLocked :
      (b a : Bytes) (e : Entry) (s : Shared World)
      → s.blacklist (ip a) ≡ e
      → IsLocked b s.blacklist
      → IsLocked b (add_one (ip a) e s).1.blacklist
  unfolding add_one over_limit truthy is_address
  add_one-IsLocked b a (count n) s h l = ground (arith, bytes_eq_iff a b)
  add_one-IsLocked b a (address c) s h l = l

  blacklist_login-IsLocked :
      (b a u p : Bytes) (s : Shared World)
      → IsLocked b s.blacklist
      → IsLocked b (blacklist_login D true a u p s).1.blacklist
  unfolding blacklist_login
  blacklist_login-IsLocked b a u p s l =
      let r = D.auth_password u p s.docker in
      ground (arith, add_one-IsLocked b a (s.blacklist (ip a)) (record s { docker = r.1 }) refl l)

  login-IsLocked :
      (b a u p : Bytes) (w : Option (List Bytes)) (s : Shared World)
      → IsLocked b s.blacklist
      → IsLocked b (login D true a u p w s).1.blacklist
  unfolding login
  login-IsLocked b a u p none s l = ground (arith, blacklist_login-IsLocked b a u p s l)
  login-IsLocked b a u p (some w) s l = ground (arith, blacklist_login-IsLocked b a u p s l)

  move-IsLocked :
      (b : Bytes) (m : Move) (s : Shared World)
      → IsLocked b s.blacklist
      → IsLocked b (move m s).blacklist
  unfolding move check_auth_password on_message
  move-IsLocked b (attempt a u p) s l = login-IsLocked b a u p s.whitelist s l
  move-IsLocked b (new_whitelist w) s l = l

  pub serve-IsLocked :
      (b : Bytes) (ms : List Move) (s : Shared World)
      → IsLocked b s.blacklist
      → IsLocked b (serve ms s).blacklist
  unfolding serve
  serve-IsLocked b [] s l = l
  serve-IsLocked b (m ∷ ms) s l = serve-IsLocked b ms (move m s) (move-IsLocked b m s l)

  -- The answer to a locked address: nothing but the report is written.
  abbrev pub refused : Bytes → Bytes → Shared World → Outcome AuthResult × Shared World
  refused u p s = (returned auth_failed, record s { events = s.events ++ pwd_event u p ∷ [] })

  login_locked :
      (b u p : Bytes) (w : Option (List Bytes)) (s : Shared World)
      → IsLocked b s.blacklist
      → login D true b u p w s ≡ refused u p s
  unfolding login blacklist_login
  login_locked b u p none s l = ground arith
  login_locked b u p (some w) s l = ground arith

  -- In blacklist mode, with somebody else in: an address with more than three failures stays locked
  -- through any logins from any addresses and any whitelist updates; its next attempt changes
  -- nothing but to emit the pwd event, and fails.
  lockout :
      (b u p : Bytes) (ms : List Move) (s : Shared World)
      → IsLocked b s.blacklist
      → check_auth_password D true b u p (serve ms s) ≡ refused u p (serve ms s)
  unfolding check_auth_password
  lockout b u p ms s l =
      login_locked b u p (serve ms s).whitelist (serve ms s) (serve-IsLocked b ms s l)

-- Somebody else has come in, and the address has failed `n` times.
abbrev pub IsStranger : Bytes → ℕ → Blacklist → Type 0
IsStranger b n l =
    (truthy (l admitted) ≡ true) × (is_address b (l admitted) ≡ false) × (l (ip b) ≡ count n)

-- The attempts of one address in a history.
abbrev pub tries : Bytes → List Move → ℕ
tries b [] = 0
tries b (attempt a u p ∷ ms) = if bytes_eq a b then suc (tries b ms) else tries b ms
tries b (new_whitelist w ∷ ms) = tries b ms

-- Every attempt of the address in a history is with credentials that pass the test `bad`.
abbrev pub OnlyBad : (Bytes → Bytes → Bool) → Bytes → List Move → Type 0
OnlyBad bad b [] = Unit
OnlyBad bad b (attempt a u p ∷ ms) = (bytes_eq a b ≡ true → bad u p ≡ true) × OnlyBad bad b ms
OnlyBad bad b (new_whitelist w ∷ ms) = OnlyBad bad b ms

-- The count after one more rejected attempt.
abbrev next_count : ℕ → ℕ
next_count n = if ltb 3 n then n else n + 1

next_count-le : (n : ℕ) → n ≤ 4 → next_count n ≤ 4
next_count-le n h = ground arith

next_count-min : (n m : ℕ) → n ≤ 4 → min (next_count n + m) 4 ≡ min (n + suc m) 4
next_count-min n m h = ground arith

four : (m : ℕ) → 4 ≤ m → min (0 + m) 4 ≡ 4
four m h = omega arith

-- The container refuses credentials that pass the test `bad`.
module _ (D : Docker) (bad : Bytes → Bytes → Bool)
    (rejecting : (u p : Bytes) (w : D.World)
      → bad u p ≡ true
      → (e : PyError) × ((D.auth_password u p w).0 ≡ raised e)) where
  open D use {World}

  login-IsStranger :
      (b u p : Bytes) (n : ℕ) (w : Option (List Bytes)) (s : Shared World)
      → bad u p ≡ true
      → IsStranger b n s.blacklist
      → IsStranger b (next_count n) (login D true b u p w s).1.blacklist
  unfolding login blacklist_login over_limit
  login-IsStranger b u p n none s h k = ground (arith, rejecting u p s.docker h, bytes_eq_refl b)
  login-IsStranger b u p n (some w) s h k =
      ground (arith, rejecting u p s.docker h, bytes_eq_refl b)

  add_one_other :
      (b a : Bytes) (n : ℕ) (e : Entry) (s : Shared World)
      → bytes_eq a b ≡ false
      → IsStranger b n s.blacklist
      → IsStranger b n (add_one (ip a) e s).1.blacklist
  unfolding add_one
  add_one_other b a n (count m) s h k = ground arith
  add_one_other b a n (address c) s h k = k

  login_other :
      (b a u p : Bytes) (n : ℕ) (w : Option (List Bytes)) (s : Shared World)
      → bytes_eq a b ≡ false
      → IsStranger b n s.blacklist
      → IsStranger b n (login D true a u p w s).1.blacklist
  unfolding login blacklist_login
  login_other b a u p n none s h k =
      let r = D.auth_password u p s.docker in
      ground (arith, add_one_other b a n (s.blacklist (ip a)) (record s { docker = r.1 }) h k)
  login_other b a u p n (some w) s h k =
      let r = D.auth_password u p s.docker in
      ground (arith, add_one_other b a n (s.blacklist (ip a)) (record s { docker = r.1 }) h k)

  serve-IsStranger :
      (b : Bytes) (ms : List Move) (n : ℕ) (s : Shared World)
      → n ≤ 4
      → OnlyBad bad b ms
      → IsStranger b n s.blacklist
      → IsStranger b (min (n + tries b ms) 4) (serve D ms s).blacklist
  unfolding serve check_auth_password move on_message
  serve-IsStranger b [] n s h o k = (k.0, k.1, k.2 ∙ ap count (omega arith))
  serve-IsStranger b (attempt a u p ∷ ms) n s h o k = elim (Bool-cases (bytes_eq a b)) [
    | inl same ↦
        let e = (bytes_eq_iff a b).0 same in
        let stranger : IsStranger b (next_count n) (move D (attempt a u p) s).blacklist =
          rw e (login-IsStranger b u p n s.whitelist s (o.0 same) k) in
        rw (same, ← next_count-min n (tries b ms) h)
          (serve-IsStranger b ms (next_count n) (move D (attempt a u p) s) (next_count-le n h) o.1
            stranger)
    | inr other ↦ rw other (
        serve-IsStranger b ms n (move D (attempt a u p) s) h o.1
          (login_other b a u p n s.whitelist s other k))
  ]
  serve-IsStranger b (new_whitelist w ∷ ms) n s h o k =
      serve-IsStranger b ms n (on_message w s) h o k

  -- In blacklist mode, with somebody else in: after any traffic in which an address that has failed
  -- at most four times tries only credentials that the container refuses, its count has grown by
  -- one for each of its attempts, up to four.
  pub failures-serve :
      (b : Bytes) (ms : List Move) (n : ℕ) (s : Shared World)
      → n ≤ 4
      → OnlyBad bad b ms
      → IsStranger b n s.blacklist
      → (serve D ms s).blacklist (ip b) ≡ count (min (n + tries b ms) 4)
  failures-serve b ms n s h o k = (serve-IsStranger b ms n s h o k).2

  -- In blacklist mode, with somebody else in: after at least four attempts of an address that never
  -- failed before, all with credentials that the container refuses, among any other logins and
  -- whitelist updates, all one after the other, every further attempt from that address, after any
  -- later traffic, is refused without asking the container.
  pub brute_force_bounded :
      (b u p : Bytes) (before after : List Move) (s : Shared World)
      → IsStranger b 0 s.blacklist
      → OnlyBad bad b before
      → 4 ≤ tries b before
      → check_auth_password D true b u p (serve D after (serve D before s))
        ≡ refused D u p (serve D after (serve D before s))
  unfolding over_limit
  brute_force_bounded b u p before after s k o h =
      let (in_use, other, counted) = serve-IsStranger b before 0 s (omega arith) o k in
      lockout D b u p after (serve D before s)
        (in_use, other, rw counted (rw (four (tries b before) h) refl))
