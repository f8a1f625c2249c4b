-- ===== src/Exec/Parts.antt =====
-- A trace of an exec session against its log (wetland/services/exec_service.py).
use wetland.Prelude.{
  Bytes, List, [], ◌∷◌, ◌++◌, map, Bool, true, false, bytes_eq, ◌≡◌, refl, if◌then◌else◌,
}
use wetland.Prelude.Py.{Py}
use mathlib.Core.List.{map-append}
use wetland.Event.{Event}
use wetland.Relay.{
  Side, hacker, docker, Trace, emit, send, close, shutdown_write, send_exit_status, text_event,
  report,
}
use wetland.Relay.Recorded.{IsLogged, IsLogged-append, logged, logged-append, sent, sent-append}
use wetland.Relay.Keeps.{Keeps}
use wetland.Exec.{exec, Exec, on_trace, command_event}

-- What came from the hacker, as it is logged: nothing in an upload.
abbrev pub from_hacker_log : Bool → Trace → List Event
from_hacker_log isscp t = if isscp then [] else map (text_event exec hacker) (sent docker t)

-- A part of a session after the command.
pub record IsPart (isscp : Bool) (t : Trace) : Type 0 where
  pub from_docker : IsLogged exec docker hacker t
  pub from_hacker : logged exec hacker t ≡ from_hacker_log isscp t

-- A session: the command is logged too, as the first text from the hacker.
pub record IsExecLog (cmd : Bytes) (isscp : Bool) (t : Trace) : Type 0 where
  pub from_docker : IsLogged exec docker hacker t
  pub from_hacker : logged exec hacker t ≡ text_event exec hacker cmd ∷ from_hacker_log isscp t

from_hacker_log-append :
    (isscp : Bool) (a b : Trace)
    → from_hacker_log isscp (a ++ b) ≡ from_hacker_log isscp a ++ from_hacker_log isscp b
from_hacker_log-append true a b = refl
from_hacker_log-append false a b = rw (sent-append docker a b, map-append)

module _ (cmd : Bytes) (isscp : Bool) where
  pub IsExecLog-append :
      (a b : Trace) → IsExecLog cmd isscp a → IsPart isscp b → IsExecLog cmd isscp (a ++ b)
  IsExecLog-append a b h k = record {
    from_docker = IsLogged-append exec docker hacker a b h.from_docker k.from_docker;
    from_hacker = rw (
      logged-append exec hacker a b,
      from_hacker_log-append isscp a b,
      h.from_hacker,
      k.from_hacker,
    );
  }

  abbrev pub IsLive : Exec → Type 0
  IsLive s = IsExecLog cmd isscp s.trace

  -- An effect that is logged if it has to be.
  pub report-Keeps :
      (e : Event) → IsPart isscp (emit e ∷ []) → Keeps (IsExecLog cmd isscp) (report e)
  report-Keeps e k t h = IsExecLog-append t (emit e ∷ []) h k

  pub on_trace-Keeps :
      (m : Py Trace (Unit {0})) → Keeps (IsExecLog cmd isscp) m → Keeps IsLive (on_trace m)
  unfolding on_trace
  on_trace-Keeps m k s h = k s.trace h

-- What neither logs nor sends a text.
pub quiet :
    (isscp : Bool) (t : Trace)
    → logged exec docker t ≡ []
    → sent hacker t ≡ []
    → logged exec hacker t ≡ []
    → sent docker t ≡ []
    → IsPart isscp t
quiet true t a b c d = record { from_docker = record { all = rw (a, b) }; from_hacker = c }
quiet false t a b c d = record { from_docker = record { all = rw (a, b) }; from_hacker = rw (c, d) }

pub shutdown_write-IsPart : (isscp : Bool) (side : Side) → IsPart isscp (shutdown_write side ∷ [])
shutdown_write-IsPart isscp hacker = quiet isscp _ refl refl refl refl
shutdown_write-IsPart isscp docker = quiet isscp _ refl refl refl refl

pub send_exit_status-IsPart :
    (isscp : Bool) (side : Side) → IsPart isscp (send_exit_status side 0 ∷ [])
send_exit_status-IsPart isscp hacker = quiet isscp _ refl refl refl refl
send_exit_status-IsPart isscp docker = quiet isscp _ refl refl refl refl

pub close-IsPart : (isscp : Bool) (side : Side) → IsPart isscp (close side ∷ [])
close-IsPart isscp hacker = quiet isscp _ refl refl refl refl
close-IsPart isscp docker = quiet isscp _ refl refl refl refl

pub docker_text-IsPart :
    (isscp : Bool) (text : Bytes)
    → IsPart isscp (emit (text_event exec docker text) ∷ send hacker text ∷ [])
unfolding bytes_eq
docker_text-IsPart true text = record { from_docker = record { all = refl }; from_hacker = refl }
docker_text-IsPart false text = record { from_docker = record { all = refl }; from_hacker = refl }

pub hacker_text-IsPart :
    (text : Bytes)
    → IsPart false
        (emit (text_event exec hacker text) ∷ emit (command_event text) ∷ send docker text ∷ [])
unfolding bytes_eq
hacker_text-IsPart text = record { from_docker = record { all = refl }; from_hacker = refl }
