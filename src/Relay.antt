-- ===== src/Relay.antt =====
-- What the four services of wetland/services do to the two channels and to the plugins, as a
-- trace. Channels are paramiko's: what a call on one returns is a parameter, `answers`, which may
-- depend on all that was done so far.
pub mod Recorded
pub mod Keeps
use wetland.Prelude.{
  Option, true, false, ◌||◌, Bytes, codes, hex_encode, List, [], ◌∷◌, ◌++◌, Bool, bytes_eq,
  if◌then◌else◌,
}
use wetland.Prelude.Py.{Py, Outcome, returned, raised, PyError, pure, ◌>>=◌, ◌>>◌}
use wetland.Prelude.{ℕ}
use wetland.Event.{Event, content_subject}

-- `hacker_session` or `hacker_channel`, and `docker_session` or `docker_channel`.
pub data Side : Type 0 where
  hacker docker : Side

pub data Effect : Type 0 where
  emit : Event → Effect
  send send_stderr : Side → Bytes → Effect
  shutdown_write close : Side → Effect
  send_exit_status : Side → ℕ → Effect
  exec_command : Bytes → Effect

abbrev pub Trace : Type 0
Trace = List Effect

-- '[H]:' + text.encode("hex") and '[V]:' + text.encode("hex")
abbrev pub tag : Side → Bytes
tag hacker = codes "[H]:"
tag docker = codes "[V]:"

abbrev pub content_event : Bytes → Bytes → Event
content_event action text = record { subject = content_subject; action = action; content = text }

-- "N"*20, the mark of a new session
abbrev pub marker : Bytes
marker = codes "NNNNNNNNNNNNNNNNNNNN"

-- What came from a side, as it is logged.
abbrev pub text_event : Bytes → Side → Bytes → Event
text_event action side text = content_event action (tag side ++ hex_encode text)

-- output.o(…)
abbrev pub report : Event → Py Trace (Unit {0})
report e trace = (returned tt, trace ++ emit e ∷ [])

module _ (answers : Trace → Outcome (Unit {0})) where
  -- A call on a channel.
  unfoldable pub call : Effect → Py Trace (Unit {0})
  call e trace = (answers (trace ++ e ∷ []), trace ++ e ∷ [])

  -- shutdown_write() and send_exit_status(0), at the end of the other side's input
  unfoldable pub half_close : Side → Py Trace (Unit {0})
  unfolding call
  half_close side = do call (shutdown_write side); call (send_exit_status side 0)

  -- finally: first.close(); second.close()
  unfoldable pub close_both : Side → Side → Py Trace (Unit {0})
  unfolding call
  close_both first second = do call (close first); call (close second)

-- How a service stands after the rounds that it has seen.
pub data Status : Type 0 where
  waiting finished : Status

-- The body of a loop goes on, or breaks.
pub data Flow : Type 0 where
  go_on stop : Flow

-- One pair of `epoll.poll()`, with what the channel then answers: the text that `recv` returns if
-- one is ready, and `eof_received`.
pub data Ready : Type 0 where
  hacker_in : Option Bytes → Bool → Ready
  docker_in : Option Bytes → Option Bytes → Bool → Ready
  hang_up : Side → Ready
  other : Ready

-- The events of one poll, and `eof_received` of the two sessions after them.
pub record Round : Type 0 where
  pub events : List Ready
  pub hacker_eof : Bool
  pub docker_eof : Bool

-- if test: m
abbrev pub when : {S : Type 0} → Bool → Py S (Unit {0}) → Py S (Unit {0})
when b m = if b then m else pure tt

-- After a `break` the other events of the round are left out.
abbrev pub unless_stopped : {S : Type 0} → Flow → Py S (Unit {0}) → Py S (Unit {0})
unless_stopped go_on m = m
unless_stopped stop m = pure tt

-- What follows the events of a round: an exception or the end of either input ends the loop.
abbrev pub after_round : Outcome (Unit {0}) → Bool → Flow
after_round (raised e) eof = stop
after_round (returned x) eof = if eof then stop else go_on

abbrev pub next_round : {S : Type 0} → Flow → Status × S → S → Status × S
next_round go_on rest s = rest
next_round stop rest s = (finished, s)
