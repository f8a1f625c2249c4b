-- ===== src/Shell/Exact.antt =====
-- How a trace of a shell session stands to its log (wetland/services/shell_service.py).
use wetland.Prelude.{Bytes, codes, ℕ, [], ◌∷◌, ◌++◌, Bool, true, false, ◌≡◌, refl, ◌⊎◌, inl, inr}
use wetland.Prelude.Py.{Py, Outcome, returned, raised, continue}
use wetland.Relay.{Side, hacker, docker, Effect, Trace, shutdown_write, close, send_exit_status}
use wetland.Relay.Recorded.{
  IsLogged, IsLoggedButLast, IsLogged-append, IsLoggedButLast-inert, sent_by,
}
use wetland.Shell.{Shell}
use wetland.Relay.{unless_stopped, after_round, next_round}
use wetland.Relay.{Flow, go_on, stop, Status, waiting, finished}

abbrev pub shell : Bytes
shell = codes "shell"

-- The log holds all texts of both directions, in order.
pub record IsExact (t : Trace) : Type 0 where
  pub from_docker : IsLogged shell docker hacker t
  pub from_hacker : IsLogged shell hacker docker t

-- The last text for the container may be missing, if its `sendall` raised.
pub record IsNearlyExact (answers : Trace → Outcome (Unit {0})) (t : Trace) : Type 0 where
  pub from_docker : IsLogged shell docker hacker t
  pub from_hacker : IsLogged shell hacker docker t ⊎ IsLoggedButLast shell answers hacker docker t

pub IsExact-append : (a b : Trace) → IsExact a → IsExact b → IsExact (a ++ b)
IsExact-append a b h k = record {
  from_docker = IsLogged-append shell docker hacker a b h.from_docker k.from_docker;
  from_hacker = IsLogged-append shell hacker docker a b h.from_hacker k.from_hacker;
}

pub shutdown_write-IsExact : (side : Side) → IsExact (shutdown_write side ∷ [])
shutdown_write-IsExact hacker = record {
  from_docker = record { all = refl };
  from_hacker = record { all = refl };
}
shutdown_write-IsExact docker = record {
  from_docker = record { all = refl };
  from_hacker = record { all = refl };
}

pub send_exit_status-IsExact : (side : Side) (n : ℕ) → IsExact (send_exit_status side n ∷ [])
send_exit_status-IsExact hacker n = record {
  from_docker = record { all = refl };
  from_hacker = record { all = refl };
}
send_exit_status-IsExact docker n = record {
  from_docker = record { all = refl };
  from_hacker = record { all = refl };
}

pub close-IsExact : (side : Side) → IsExact (close side ∷ [])
close-IsExact hacker = record {
  from_docker = record { all = refl };
  from_hacker = record { all = refl };
}
close-IsExact docker = record {
  from_docker = record { all = refl };
  from_hacker = record { all = refl };
}

pub sent_by_close : (side : Side) → sent_by docker (close side) ≡ []
sent_by_close hacker = refl
sent_by_close docker = refl

module _ (answers : Trace → Outcome (Unit {0})) where
  -- After a statement that raises, the loop is left.
  abbrev pub Ensures : {A : Type 0} → Outcome A × Shell → Type 0
  Ensures (returned x, s) = IsExact s.trace
  Ensures (raised e, s) = IsNearlyExact answers s.trace

  pub IsNearlyExact-exact : (t : Trace) → IsExact t → IsNearlyExact answers t
  IsNearlyExact-exact t h = record { from_docker = h.from_docker; from_hacker = inl h.from_hacker }

  pub Ensures-bind :
      {A B : Type 0} (r : Outcome A × Shell) (f : A → Py Shell B)
      → Ensures r
      → ((x : A) (s : Shell) → IsExact s.trace → Ensures (f x s))
      → Ensures (continue r.0 f r.1)
  Ensures-bind (returned x, s) f h k = k x s h
  Ensures-bind (raised e, s) f h k = h

  pub Ensures-call :
      (o : Outcome (Unit {0})) (e : Effect) (s : Shell)
      → IsExact (e ∷ [])
      → IsExact s.trace
      → Ensures (o, record s { trace = s.trace ++ e ∷ [] })
  Ensures-call (returned x) e s k h = IsExact-append s.trace (e ∷ []) h k
  Ensures-call (raised x) e s k h = IsNearlyExact-exact _ (IsExact-append s.trace (e ∷ []) h k)

  -- Whatever a call answers, the trace is `t`.
  pub either :
      (o : Outcome (Unit {0})) (t : Trace) (s : Shell) {t' : Trace}
      → IsExact t
      → t' ≡ t
      → Ensures (o, record s { trace = t' })
  either (returned x) t s h e = rw e h
  either (raised x) t s h e = rw e (IsNearlyExact-exact t h)

  pub unless_stopped-Ensures :
      (f : Flow) (m : Py Shell (Unit {0})) (s : Shell)
      → IsExact s.trace
      → Ensures (m s)
      → Ensures (unless_stopped f m s)
  unless_stopped-Ensures go_on m s h k = k
  unless_stopped-Ensures stop m s h k = h

  -- The state of the loop: while it waits, the log is exact.
  abbrev pub LoopEnsures : Status × Shell → Type 0
  LoopEnsures (waiting, s) = IsExact s.trace
  LoopEnsures (finished, s) = IsNearlyExact answers s.trace

  pub after_round-Ensures :
      (r : Outcome (Unit {0}) × Shell) (eof : Bool) (rest : Status × Shell)
      → Ensures r
      → (IsExact r.1.trace → LoopEnsures rest)
      → LoopEnsures (next_round (after_round r.0 eof) rest r.1)
  after_round-Ensures (returned x, s) true rest h k = IsNearlyExact-exact s.trace h
  after_round-Ensures (returned x, s) false rest h k = k h
  after_round-Ensures (raised e, s) eof rest h k = h

  pub IsNearlyExact-close :
      (t : Trace) (side : Side)
      → IsNearlyExact answers t
      → IsNearlyExact answers (t ++ close side ∷ [])
  IsNearlyExact-close t side h = record {
    from_docker =
        IsLogged-append shell docker hacker t _ h.from_docker (close-IsExact side).from_docker;
    from_hacker = closed h.from_hacker;
  }
    where
      closed :
          IsLogged shell hacker docker t ⊎ IsLoggedButLast shell answers hacker docker t
          → IsLogged shell hacker docker (t ++ close side ∷ [])
            ⊎ IsLoggedButLast shell answers hacker docker (t ++ close side ∷ [])
      closed (inl k) =
          inl (IsLogged-append shell hacker docker t _ k (close-IsExact side).from_hacker)
      closed (inr k) = inr (
          IsLoggedButLast-inert shell answers hacker docker t (close side) k refl
            (sent_by_close side))
