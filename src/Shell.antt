-- ===== src/Shell.antt =====
-- `shell_service` (wetland/services/shell_service.py, with the table of visual.txt).
mod Exact
pub mod HighKey
pub mod Keys
pub mod Logged
pub mod Replayed
pub mod Told
mod Tests
use wetland.Prelude.{
  concat, ℕ, ◌-◌, Bytes, codes, bytes_eq, List, [], ◌∷◌, ◌++◌, get_elem?, Option, none, some, Bool,
  true, false, ◌&&◌, ◌||◌, not, ltb, ◌==◌, is_empty, if◌then◌else◌,
}
use wetland.Prelude.Py.{Py, Outcome, returned, raised, key_error, pure, raise, ◌>>=◌, ◌>>◌}
use wetland.Event.{Event, wetland_subject}
use wetland.Relay.{
  Ready, hacker_in, docker_in, hang_up, other, Round, when, unless_stopped, after_round, next_round,
  marker, Side, hacker, docker, Trace, Effect, send, send_stderr, call, half_close, close_both,
  report, content_event, text_event, Status, waiting, finished, Flow, go_on, stop, emit,
}

-- The values of visual.txt for 0 to 31.
abbrev control_names : List Bytes
control_names =
    codes "(NUL)"
    ∷ codes "(SOH)"
    ∷ codes "(STX)"
    ∷ codes "(ETX)"
    ∷ codes "(EOT)"
    ∷ codes "(ENQ)"
    ∷ codes "(ACK)"
    ∷ codes "(BEL)"
    ∷ codes "(BS)"
    ∷ codes "(HT)"
    ∷ codes "\n"
    ∷ codes "(VT)"
    ∷ codes "(FF)"
    ∷ codes "\n"
    ∷ codes "(SO)"
    ∷ codes "(SI)"
    ∷ codes "(DLE)"
    ∷ codes "(DC1)"
    ∷ codes "(DC2)"
    ∷ codes "(DC3)"
    ∷ codes "(DC4)"
    ∷ codes "(NAK)"
    ∷ codes "(SYN)"
    ∷ codes "(ETB)"
    ∷ codes "(CAN)"
    ∷ codes "(EM)"
    ∷ codes "(SUB)"
    ∷ codes "(ESC)"
    ∷ codes "(FS)"
    ∷ codes "(GS)"
    ∷ codes "(RS)"
    ∷ codes "(US)"
    ∷ []

-- The entry of visual.txt for one byte; there is none from 128 on.
unfoldable pub visual_byte : ℕ → Option Bytes
visual_byte c =
    if ltb c 32
    then get_elem? control_names c
    else if c == b'<'
    then some (codes "<<")
    else if c == 127
    then some (codes "(DEL)")
    else if ltb c 127
    then some (c ∷ [])
    else none

-- visual[text]: only texts of one byte are keys.
unfoldable pub visual : Bytes → Option Bytes
unfolding visual_byte
visual (c ∷ []) = visual_byte c
visual _ = none

-- command.pop()
unfoldable pub pop : List Bytes → List Bytes
pop [] = []
pop (w ∷ []) = []
pop (w ∷ v ∷ ws) = w ∷ pop (v ∷ ws)

-- The trace, and the variable `command`.
pub record Shell : Type 0 where
  pub trace : Trace
  pub command : List Bytes

-- A statement that does not touch `command`.
unfoldable pub on_trace : Py Trace (Unit {0}) → Py Shell (Unit {0})
on_trace m s = let r = m s.trace in (r.0, record s { trace = r.1 })

-- command.append(visual[text])
unfoldable pub append_visual : Option Bytes → Py Shell (Unit {0})
append_visual none s = (raised key_error, s)
append_visual (some v) s = (returned tt, record s { command = s.command ++ v ∷ [] })

-- Lines 36 to 43: the key in the command line.
unfoldable pub type_key : Bytes → Py Shell (Unit {0})
unfolding append_visual visual concat pop
type_key text s =
    if bytes_eq text (codes "\r")
    then (
      returned tt,
      record {
        trace =
            s.trace
            ++ emit (record {
              subject = wetland_subject;
              action = codes "shell command";
              content = concat s.command;
            })
              ∷ [];
        command = [];
      },
    )
    else if bytes_eq text (127 ∷ []) && not (is_empty s.command)
    then (returned tt, record s { command = pop s.command })
    else append_visual (visual text) s

module _ (answers : Trace → Outcome (Unit {0})) where
  -- Lines 29 to 43, if `recv_ready()`.
  unfoldable pub from_hacker : Option Bytes → Py Shell (Unit {0})
  unfolding on_trace call type_key
  from_hacker none = pure tt
  from_hacker (some text) = do
    on_trace (call answers (send docker text))
    on_trace (report (text_event (codes "shell") hacker text))
    type_key text

  -- Lines 52 to 56, if `recv_ready()`.
  unfoldable pub from_docker : Option Bytes → Py Shell (Unit {0})
  unfolding on_trace call
  from_docker none = pure tt
  from_docker (some text) = do
    on_trace (report (text_event (codes "shell") docker text))
    on_trace (call answers (send hacker text))

  -- Lines 58 to 60, if `recv_stderr_ready()`.
  unfoldable pub stderr_from_docker : Option Bytes → Py Shell (Unit {0})
  unfolding on_trace call
  stderr_from_docker none = pure tt
  stderr_from_docker (some text) = on_trace (call answers (send_stderr hacker text))

  -- The body of `for fd, event in events`.
  unfoldable pub handle_event : Ready → Py Shell Flow
  unfolding from_hacker from_docker stderr_from_docker half_close on_trace
  handle_event (hacker_in text eof) = do
    from_hacker text
    when eof (on_trace (half_close answers docker))
    pure go_on
  handle_event (docker_in text stderr eof) = do
    from_docker text
    stderr_from_docker stderr
    when eof (on_trace (half_close answers hacker))
    pure go_on
  handle_event (hang_up side) = pure stop
  handle_event other = pure go_on

  unfoldable pub handle_events : List Ready → Py Shell (Unit {0})
  unfolding handle_event
  handle_events [] = pure tt
  handle_events (e ∷ es) = do flow ← handle_event e; unless_stopped flow (handle_events es)

  -- `while True`. Where the rounds end, the loop waits in `poll`.
  unfoldable pub loop : List Round → Shell → Status × Shell
  unfolding handle_events
  loop [] s = (waiting, s)
  loop (r ∷ rs) s =
      let done = handle_events r.events s in
      let rest = loop rs done.1 in
      next_round (after_round done.0 (r.docker_eof || r.hacker_eof)) rest done.1

  -- finally: hacker_session.close(); docker_session.close()
  unfoldable pub finally : Status × Shell → Shell
  unfolding close_both on_trace
  finally (waiting, s) = s
  finally (finished, s) = (on_trace (close_both answers hacker docker) s).1

  unfoldable pub shell_service : List Round → Trace → Shell
  unfolding loop finally
  shell_service rounds trace = finally (
      loop rounds (record {
        trace = trace ++ emit (content_event (codes "shell") marker) ∷ [];
        command = [];
      }))
