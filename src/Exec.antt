-- ===== src/Exec.antt =====
-- `exec_service` (wetland/services/exec_service.py), with its copy of files that scp uploads.
pub mod Parts
pub mod Capture
pub mod Logged
pub mod Lost
pub mod Replayed
pub mod Told
pub mod Upload
mod Tests
use wetland.Prelude.{
  ℕ, ◌+◌, Bytes, codes, split, length, List, [], ◌∷◌, ◌++◌, Option, none, some, Bool, true, false,
  ◌||◌, one, star, maybe, char, Pattern, re_match, is_space, is_digit, is_solid, ℤ, pos, int,
  reaches, if◌then◌else◌,
}
use wetland.Prelude.Py.{
  Py, Outcome, returned, raised, value_error, other_error, pure, lift, item, ◌>>=◌, ◌>>◌,
}
use wetland.Event.{Event, wetland_subject}
use wetland.Relay.{
  marker, Side, hacker, docker, Trace, Effect, send, send_stderr, exec_command, call, half_close,
  close_both, report, content_event, text_event, Status, waiting, finished, Flow, go_on, stop,
  Ready, hacker_in, docker_in, hang_up, other, Round, when, unless_stopped, after_round, next_round,
}

abbrev pub exec : Bytes
exec = codes "exec"

-- ^scp\s*(-r)?\s*-[t]\s*\S*$
abbrev pub upload_command : Pattern
upload_command =
    char b's'
    ∷ char b'c'
    ∷ char b'p'
    ∷ star is_space
    ∷ maybe b'-' b'r'
    ∷ star is_space
    ∷ char b'-'
    ∷ char b't'
    ∷ star is_space
    ∷ star is_solid
    ∷ []

-- What follows the letter in ^C\d{4}\s+\d+\s+\S+\n$
abbrev pub header_fields : Pattern
header_fields =
    one is_digit
    ∷ one is_digit
    ∷ one is_digit
    ∷ one is_digit
    ∷ one is_space
    ∷ star is_space
    ∷ one is_digit
    ∷ star is_digit
    ∷ one is_space
    ∷ star is_space
    ∷ one is_solid
    ∷ star is_solid
    ∷ char b'\n'
    ∷ []

abbrev pub file_header : Pattern
file_header = char b'C' ∷ header_fields

-- The variable `scpfile`: not bound yet, open with what was written to it, or closed.
pub data ScpFile : Type 0 where
  unbound : ScpFile
  opened : Bytes → ScpFile
  closed : ScpFile

-- The trace, the variables of the loop, and the contents of the files that are no longer written.
pub record Exec : Type 0 where
  pub trace : Trace
  pub filelen : ℤ
  pub nowlen : ℕ
  pub scpfile : ScpFile
  pub files : List Bytes

-- A file that is dropped while open has what was written.
unfoldable pub leave : ScpFile → List Bytes → List Bytes
leave unbound files = files
leave (opened c) files = files ++ c ∷ []
leave closed files = files

-- The contents of all copies.
unfoldable pub copies : Exec → List Bytes
unfolding leave
copies s = leave s.scpfile s.files

-- A statement that touches nothing but the trace.
unfoldable pub on_trace : Py Trace (Unit {0}) → Py Exec (Unit {0})
on_trace m s = let r = m s.trace in (r.0, record s { trace = r.1 })

-- scpfile = open(filepath, 'wb'), with a path that was never used
unfoldable pub open_scpfile : Py Exec (Unit {0})
unfolding copies
open_scpfile s = (returned tt, record s { scpfile = opened []; files = copies s })

-- int(text.split(' ')[1])
unfoldable pub length_field : Bytes → Outcome ℤ
unfolding split int
length_field text = length_of (item (split 32 text) 1)
  where
    length_of : Outcome Bytes → Outcome ℤ
    length_of (returned w) = int w
    length_of (raised e) = raised e

abbrev set_filelen : ℤ → Py Exec (Unit {0})
set_filelen n s = (returned tt, record s { filelen = n })

-- scpfile.write(text)
unfoldable pub write_scpfile : Bytes → ScpFile → Py Exec (Unit {0})
write_scpfile text unbound s = (raised other_error, s)
write_scpfile text (opened c) s = (returned tt, record s { scpfile = opened (c ++ text) })
write_scpfile text closed s = (raised value_error, s)

-- scpfile.close(); nowlen = 0; filelen = 0
unfoldable pub close_scpfile : Py Exec (Unit {0})
unfolding copies
close_scpfile s =
    (returned tt, record s { scpfile = closed; files = copies s; filelen = pos 0; nowlen = 0 })

-- Lines 55 to 59.
unfoldable pub advance : ℕ → Py Exec (Unit {0})
unfolding close_scpfile
advance n s =
    let s' = record s { nowlen = s.nowlen + n } in
    if reaches s'.nowlen s'.filelen then close_scpfile s' else (returned tt, s')

-- Lines 51 to 59.
unfoldable pub keep_text : Bytes → Py Exec (Unit {0})
unfolding write_scpfile advance
keep_text text s =
    if reaches s.nowlen s.filelen
    then (returned tt, s)
    else (do write_scpfile text s.scpfile; advance (length text)) s

-- Lines 45 to 49.
unfoldable pub start_file : Bytes → Py Exec (Unit {0})
unfolding open_scpfile
start_file text = do open_scpfile; n ← lift (length_field text); set_filelen n

-- Lines 44 to 59.
unfoldable pub capture : Bytes → Py Exec (Unit {0})
unfolding start_file keep_text
capture text s = if re_match file_header text then start_file text s else keep_text text s

abbrev pub command_event : Bytes → Event
command_event text = record {
  subject = wetland_subject;
  action = codes "exec command";
  content = text;
}

-- Lines 41 and 42.
unfoldable pub record_text : Bytes → Py Exec (Unit {0})
unfolding on_trace
record_text text = do
  on_trace (report (text_event exec hacker text))
  on_trace (report (command_event text))

module _ (answers : Trace → Outcome (Unit {0})) where
  -- Lines 37 to 64, if `recv_ready()`.
  unfoldable pub from_hacker : Bool → Option Bytes → Py Exec (Unit {0})
  unfolding record_text capture on_trace call
  from_hacker isscp none = pure tt
  from_hacker isscp (some text) = do
    if isscp then capture text else record_text text
    on_trace (call answers (send docker text))

  -- Lines 75 to 80, if `recv_ready()`.
  unfoldable pub from_docker : Option Bytes → Py Exec (Unit {0})
  unfolding on_trace call
  from_docker none = pure tt
  from_docker (some text) = do
    on_trace (report (text_event exec docker text))
    on_trace (call answers (send hacker text))

  -- Lines 82 to 84, if `recv_stderr_ready()`.
  unfoldable pub stderr_from_docker : Option Bytes → Py Exec (Unit {0})
  unfolding on_trace call
  stderr_from_docker none = pure tt
  stderr_from_docker (some text) = on_trace (call answers (send_stderr hacker text))

  -- The body of `for fd, event in events`.
  unfoldable pub handle_event : Bool → Ready → Py Exec Flow
  unfolding from_hacker from_docker stderr_from_docker half_close on_trace
  handle_event isscp (hacker_in text eof) = do
    from_hacker isscp text
    when eof (on_trace (half_close answers docker))
    pure go_on
  handle_event isscp (docker_in text stderr eof) = do
    from_docker text
    stderr_from_docker stderr
    when eof (on_trace (half_close answers hacker))
    pure go_on
  handle_event isscp (hang_up side) = pure stop
  handle_event isscp other = pure go_on

  unfoldable pub handle_events : Bool → List Ready → Py Exec (Unit {0})
  unfolding handle_event
  handle_events isscp [] = pure tt
  handle_events isscp (e ∷ es) = do
    flow ← handle_event isscp e
    unless_stopped flow (handle_events isscp es)

  -- `while True`. Where the rounds end, the loop waits in `poll`.
  unfoldable pub loop : Bool → List Round → Exec → Status × Exec
  unfolding handle_events
  loop isscp [] s = (waiting, s)
  loop isscp (r ∷ rs) s =
      let done = handle_events isscp r.events s in
      let rest = loop isscp rs done.1 in
      next_round (after_round done.0 (r.docker_eof || r.hacker_eof)) rest done.1

  -- finally: docker_session.close(); hacker_session.close()
  unfoldable pub finally : Status × Exec → Exec
  unfolding close_both on_trace
  finally (waiting, s) = s
  finally (finished, s) = (on_trace (close_both answers docker hacker) s).1

  -- Lines 17 to 20.
  unfoldable pub announce : Bytes → Py Exec (Unit {0})
  unfolding on_trace call
  announce cmd = do
    on_trace (call answers (exec_command cmd))
    on_trace (report (content_event exec marker))
    on_trace (report (text_event exec hacker cmd))
    on_trace (report (command_event cmd))

  -- `exec_command` stands before `try`: if it raises, nothing is closed.
  unfoldable pub run : Bytes → List Round → Outcome (Unit {0}) × Exec → Exec
  unfolding loop finally
  run cmd rounds (raised e, s) = s
  run cmd rounds (returned x, s) = finally (loop (re_match upload_command cmd) rounds s)

  unfoldable pub exec_service : Bytes → List Round → Trace → Exec
  unfolding announce run
  exec_service cmd rounds trace = run cmd rounds (
      announce cmd
        (record { trace = trace; filelen = pos 0; nowlen = 0; scpfile = unbound; files = [] }))
