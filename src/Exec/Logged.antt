-- ===== src/Exec/Logged.antt =====
-- The log of an exec session (wetland/services/exec_service.py).
use wetland.Prelude.{
  Bytes, List, [], ◌∷◌, ◌++◌, append_assoc, Option, none, some, Bool, true, false, ◌||◌, bytes_eq,
  re_match, ◌≡◌, refl, pos,
}
use wetland.Prelude.Py.{Py, Outcome, returned, raised, continue, pure, ◌>>◌}
use wetland.Relay.{
  Side, hacker, docker, Effect, Trace, emit, send, send_stderr, close, shutdown_write,
  send_exit_status, exec_command, call, half_close, close_both, text_event, Status, waiting,
  finished, go_on, Ready, hacker_in, docker_in, hang_up, other, Round, when, unless_stopped, marker,
  content_event, report,
}
use wetland.Relay.Keeps.{
  Keeps, Keeps-bind, Keeps-next, Keeps-when, Keeps-unless_stopped, next_round-Keeps,
}
use wetland.Exec.{
  exec, Exec, unbound, on_trace, record_text, capture, from_hacker, from_docker, stderr_from_docker,
  handle_event, handle_events, loop, finally, announce, run, exec_service, upload_command,
  command_event,
}
use wetland.Exec.Capture.{capture-Keeps}
use wetland.Exec.Parts.{
  IsPart, IsExecLog, IsExecLog-append, IsLive, on_trace-Keeps, quiet, shutdown_write-IsPart,
  send_exit_status-IsPart, close-IsPart, docker_text-IsPart, hacker_text-IsPart,
}

module _ (answers : Trace → Outcome (Unit {0})) (cmd : Bytes) (isscp : Bool) where
  call-Keeps : (e : Effect) → IsPart isscp (e ∷ []) → Keeps (IsExecLog cmd isscp) (call answers e)
  unfolding call
  call-Keeps e k t h = IsExecLog-append cmd isscp t (e ∷ []) h k

  half_close-Keeps : (side : Side) → Keeps (IsExecLog cmd isscp) (half_close answers side)
  unfolding half_close
  half_close-Keeps side =
      Keeps-next (IsExecLog cmd isscp) (call answers (shutdown_write side))
        (call answers (send_exit_status side 0))
        (call-Keeps (shutdown_write side) (shutdown_write-IsPart isscp side))
        (call-Keeps (send_exit_status side 0) (send_exit_status-IsPart isscp side))

  send_captured-Keeps :
      (text : Bytes)
      → isscp ≡ true
      → Keeps (IsLive cmd isscp) (on_trace (call answers (send docker text)))
  unfolding on_trace call
  send_captured-Keeps text e s h =
      IsExecLog-append cmd isscp s.trace (send docker text ∷ []) h
        (rw e (record { from_docker = record { all = refl }; from_hacker = refl }))

  from_docker-Keeps : (text : Option Bytes) → Keeps (IsLive cmd isscp) (from_docker answers text)
  unfolding from_docker on_trace call
  from_docker-Keeps none s h = h
  from_docker-Keeps (some text) s h = rw (append_assoc s.trace _ _) (
      IsExecLog-append cmd isscp s.trace
        (emit (text_event exec docker text) ∷ send hacker text ∷ []) h
        (docker_text-IsPart isscp text))

  stderr-Keeps : (text : Option Bytes) → Keeps (IsLive cmd isscp) (stderr_from_docker answers text)
  unfolding stderr_from_docker on_trace call
  stderr-Keeps none s h = h
  stderr-Keeps (some text) s h =
      IsExecLog-append cmd isscp s.trace (send_stderr hacker text ∷ []) h
        (quiet isscp _ refl refl refl refl)

module _ (answers : Trace → Outcome (Unit {0})) (cmd : Bytes) where
  from_hacker-Keeps :
      (isscp : Bool) (text : Option Bytes)
      → Keeps (IsLive cmd isscp) (from_hacker answers isscp text)
  unfolding from_hacker record_text on_trace call
  from_hacker-Keeps isscp none s h = h
  from_hacker-Keeps true (some text) s h =
      Keeps-next (IsLive cmd true) (capture text) (on_trace (call answers (send docker text)))
        (capture-Keeps (IsExecLog cmd true) text) (send_captured-Keeps answers cmd true text refl) s
        h
  from_hacker-Keeps false (some text) s h =
      rw
        (
          append_assoc (s.trace ++ emit (text_event exec hacker text) ∷ []) _ _,
          append_assoc s.trace _ _,
        )
        (IsExecLog-append cmd false s.trace _ h (hacker_text-IsPart text))

  handle_event-Keeps :
      (isscp : Bool) (e : Ready) → Keeps (IsLive cmd isscp) (handle_event answers isscp e)
  unfolding handle_event
  handle_event-Keeps isscp (hacker_in text eof) s h =
      let shut = on_trace (half_close answers docker) in
      Keeps-next (IsLive cmd isscp) (from_hacker answers isscp text) (do when eof shut; pure go_on)
        (from_hacker-Keeps isscp text)
        (Keeps-next (IsLive cmd isscp) (when eof shut) (pure go_on)
          (Keeps-when (IsLive cmd isscp) eof shut (
            on_trace-Keeps cmd isscp (half_close answers docker)
              (half_close-Keeps answers cmd isscp docker)))
          (λ s h. h))
        s h
  handle_event-Keeps isscp (docker_in text stderr eof) s h =
      let shut = on_trace (half_close answers hacker) in
      Keeps-next (IsLive cmd isscp) (from_docker answers text)
        (do stderr_from_docker answers stderr; when eof shut; pure go_on)
        (from_docker-Keeps answers cmd isscp text)
        (Keeps-next (IsLive cmd isscp) (stderr_from_docker answers stderr)
          (do when eof shut; pure go_on) (stderr-Keeps answers cmd isscp stderr)
          (Keeps-next (IsLive cmd isscp) (when eof shut) (pure go_on)
            (Keeps-when (IsLive cmd isscp) eof shut (
              on_trace-Keeps cmd isscp (half_close answers hacker)
                (half_close-Keeps answers cmd isscp hacker)))
            (λ s h. h)))
        s h
  handle_event-Keeps isscp (hang_up side) s h = h
  handle_event-Keeps isscp other s h = h

  handle_events-Keeps :
      (isscp : Bool) (es : List Ready) → Keeps (IsLive cmd isscp) (handle_events answers isscp es)
  unfolding handle_events
  handle_events-Keeps isscp [] s h = h
  handle_events-Keeps isscp (e ∷ es) s h =
      Keeps-bind (IsLive cmd isscp) (handle_event answers isscp e)
        (λ flow. unless_stopped flow (handle_events answers isscp es)) (handle_event-Keeps isscp e)
        (λ flow.
          Keeps-unless_stopped (IsLive cmd isscp) flow (handle_events answers isscp es)
            (handle_events-Keeps isscp es))
        s h

  loop-IsLive :
      (isscp : Bool) (rs : List Round) (s : Exec)
      → IsLive cmd isscp s
      → IsLive cmd isscp (loop answers isscp rs s).1
  unfolding loop
  loop-IsLive isscp [] s h = h
  loop-IsLive isscp (r ∷ rs) s h =
      let done = handle_events answers isscp r.events s in
      let k = handle_events-Keeps isscp r.events s h in
      next_round-Keeps (IsLive cmd isscp) done.0 (r.docker_eof || r.hacker_eof)
        (loop answers isscp rs done.1) done.1 k (loop-IsLive isscp rs done.1 k)

  finally-IsLive :
      (isscp : Bool) (r : Status × Exec)
      → IsLive cmd isscp r.1
      → IsLive cmd isscp (finally answers r)
  unfolding finally close_both
  finally-IsLive isscp (waiting, s) h = h
  finally-IsLive isscp (finished, s) h =
      on_trace-Keeps cmd isscp (call answers (close docker) >> call answers (close hacker))
        (Keeps-next (IsExecLog cmd isscp) (call answers (close docker))
          (call answers (close hacker))
          (call-Keeps answers cmd isscp (close docker) (close-IsPart isscp docker))
          (call-Keeps answers cmd isscp (close hacker) (close-IsPart isscp hacker)))
        s h

  announced :
      (isscp : Bool)
      → IsExecLog cmd isscp (
          exec_command cmd
          ∷ emit (content_event exec marker)
          ∷ emit (text_event exec hacker cmd)
          ∷ emit (command_event cmd)
          ∷ [])
  unfolding bytes_eq
  announced true = record { from_docker = record { all = refl }; from_hacker = refl }
  announced false = record { from_docker = record { all = refl }; from_hacker = refl }

  abbrev started : Exec
  started = record {
    trace = exec_command cmd ∷ [];
    filelen = pos 0;
    nowlen = 0;
    scpfile = unbound;
    files = [];
  }

  abbrev reports : Py Exec (Unit {0})
  reports = do
    on_trace (report (content_event exec marker))
    on_trace (report (text_event exec hacker cmd))
    on_trace (report (command_event cmd))

  run-IsLive :
      (rounds : List Round) (o : Outcome (Unit {0}))
      → o ≡ returned tt
      → IsLive cmd
          (re_match upload_command cmd)
          (run answers cmd rounds (continue o (λ _. reports) started))
  unfolding run on_trace
  run-IsLive rounds (raised e) h = cc
  run-IsLive rounds (returned x) h =
      let isscp = re_match upload_command cmd in
      finally-IsLive isscp (loop answers isscp rounds (reports started).1)
        (loop-IsLive isscp rounds (reports started).1 (announced isscp))

  -- Once the container has taken the command, whatever the channels deliver, answer or raise: an
  -- exec session logs as the container's texts exactly those that it handed to the hacker's
  -- sendall, in order, and none of those for sendall_stderr; as the hacker's it logs the command,
  -- and then exactly the texts that it handed to the container's sendall, in order, or nothing more
  -- if the command is an upload of scp.
  pub exec_service-IsExecLog :
      (rounds : List Round)
      → answers (exec_command cmd ∷ []) ≡ returned tt
      → IsExecLog cmd (re_match upload_command cmd) (exec_service answers cmd rounds []).trace
  unfolding exec_service announce on_trace call
  exec_service-IsExecLog rounds h = run-IsLive rounds (answers (exec_command cmd ∷ [])) h
