-- ===== src/Shell/Logged.antt =====
-- The log of a shell session is what the two sides sent (wetland/services/shell_service.py).
use wetland.Prelude.{
  ◌||◌, Bytes, codes, Bool-cases, ◌&&◌, not, is_empty, bytes_eq, List, [], ◌∷◌, ◌++◌, append_assoc,
  Bool, true, false, Option, none, some, ◌≡◌, refl, inl, inr, if◌then◌else◌,
}
use wetland.Prelude.Py.{Py, pure, Outcome, returned, raised, continue}
use wetland.Relay.{
  Side, hacker, docker, Trace, emit, send, send_stderr, shutdown_write, close, send_exit_status,
  text_event, call, half_close,
}
use wetland.Relay.Recorded.{IsLogged-append, IsLoggedButLast-append}
use wetland.Shell.{
  Shell, loop, finally, shell_service, from_hacker, from_docker, stderr_from_docker, handle_event,
  handle_events, on_trace, type_key, visual, append_visual,
}
use wetland.Relay.{Ready, Round, hacker_in, docker_in, hang_up, other}
use wetland.Relay.{Status, waiting, finished}
use wetland.Shell.Exact.{
  shell, IsExact, IsNearlyExact, Ensures, IsExact-append, IsNearlyExact-exact, Ensures-bind,
  Ensures-call, either, shutdown_write-IsExact, send_exit_status-IsExact, unless_stopped-Ensures,
  LoopEnsures, after_round-Ensures, IsNearlyExact-close,
}

module _ (answers : Trace → Outcome (Unit {0})) where
  -- The text is sent first and logged then.
  sendall-docker :
      (o : Outcome (Unit {0})) (text : Bytes) (f : Py Shell (Unit {0})) (s : Shell)
      → answers (s.trace ++ send docker text ∷ []) ≡ o
      → IsExact s.trace
      → ((s : Shell) → IsExact s.trace → Ensures answers (f s))
      → Ensures answers (
          continue o
            (λ _ s. f (record s { trace = s.trace ++ emit (text_event shell hacker text) ∷ [] }))
            (record s { trace = s.trace ++ send docker text ∷ [] }))
  unfolding bytes_eq
  sendall-docker (returned x) text f s q h k = k _ (
      rw (append_assoc s.trace (send docker text ∷ []) (emit (text_event shell hacker text) ∷ [])) (
        IsExact-append s.trace (send docker text ∷ emit (text_event shell hacker text) ∷ []) h
          (record { from_docker = record { all = refl }; from_hacker = record { all = refl } })))
  sendall-docker (raised e) text f s q h k = record {
    from_docker =
        IsLogged-append shell docker hacker s.trace _ h.from_docker (record { all = refl });
    from_hacker = inr (
        IsLoggedButLast-append shell answers hacker docker s.trace text e h.from_hacker q refl
          refl);
  }

  append_visual-Ensures :
      (v : Option Bytes) (s : Shell) → IsExact s.trace → Ensures answers (append_visual v s)
  unfolding append_visual
  append_visual-Ensures none s h = IsNearlyExact-exact answers s.trace h
  append_visual-Ensures (some v) s h = h

  type_key-Ensures :
      (text : Bytes) (s : Shell) → IsExact s.trace → Ensures answers (type_key text s)
  unfolding type_key
  type_key-Ensures text s h = elim (Bool-cases (bytes_eq text (codes "\r"))) [
    | inl enter ↦ rw enter (
        IsExact-append s.trace _ h (record {
          from_docker = record { all = unfold bytes_eq in refl };
          from_hacker = record { all = unfold bytes_eq in refl };
        }))
    | inr key ↦ rw key (elim (Bool-cases (bytes_eq text (127 ∷ []) && not (is_empty s.command))) [
      | inl erase ↦ rw erase h
      | inr add ↦ rw add (append_visual-Ensures (visual text) s h)
    ])
  ]

  from_hacker-Ensures :
      (text : Option Bytes) (s : Shell)
      → IsExact s.trace
      → Ensures answers (from_hacker answers text s)
  unfolding from_hacker
  from_hacker-Ensures none s h = h
  from_hacker-Ensures (some text) s h =
      sendall-docker (answers (s.trace ++ send docker text ∷ [])) text (type_key text) s refl h
        (type_key-Ensures text)

  from_docker-Ensures :
      (text : Option Bytes) (s : Shell)
      → IsExact s.trace
      → Ensures answers (from_docker answers text s)
  unfolding from_docker bytes_eq
  from_docker-Ensures none s h = h
  from_docker-Ensures (some text) s h =
      either answers (answers _)
        (s.trace ++ emit (text_event shell docker text) ∷ send hacker text ∷ []) s
        (IsExact-append s.trace _ h
          (record { from_docker = record { all = refl }; from_hacker = record { all = refl } }))
        (append_assoc s.trace (emit (text_event shell docker text) ∷ []) (send hacker text ∷ []))

  stderr_from_docker-Ensures :
      (text : Option Bytes) (s : Shell)
      → IsExact s.trace
      → Ensures answers (stderr_from_docker answers text s)
  unfolding stderr_from_docker
  stderr_from_docker-Ensures none s h = h
  stderr_from_docker-Ensures (some text) s h =
      Ensures-call answers (answers _) (send_stderr hacker text) s
        (record { from_docker = record { all = refl }; from_hacker = record { all = refl } }) h

  exit_status :
      (o : Outcome (Unit {0})) (side : Side) (s : Shell)
      → IsExact (s.trace ++ shutdown_write side ∷ [])
      → Ensures answers (
          on_trace
            (λ t.
              continue o
                (λ _. call answers (send_exit_status side 0))
                (t ++ shutdown_write side ∷ []))
            s)
  unfolding on_trace call
  exit_status (returned x) side s h =
      Ensures-call answers (answers _) (send_exit_status side 0)
        (record s { trace = s.trace ++ shutdown_write side ∷ [] }) (send_exit_status-IsExact side 0)
        h
  exit_status (raised x) side s h = IsNearlyExact-exact answers _ h

  half_close-Ensures :
      (side : Side) (s : Shell)
      → IsExact s.trace
      → Ensures answers (on_trace (half_close answers side) s)
  unfolding on_trace half_close
  half_close-Ensures side s h =
      exit_status (answers (s.trace ++ shutdown_write side ∷ [])) side s
        (IsExact-append s.trace (shutdown_write side ∷ []) h (shutdown_write-IsExact side))

  when-Ensures :
      (b : Bool) (m : Py Shell (Unit {0})) (s : Shell)
      → IsExact s.trace
      → Ensures answers (m s)
      → Ensures answers ((if b then m else pure tt) s)
  when-Ensures true m s h k = k
  when-Ensures false m s h k = h

  handle_event-Ensures :
      (e : Ready) (s : Shell) → IsExact s.trace → Ensures answers (handle_event answers e s)
  unfolding handle_event
  handle_event-Ensures (hacker_in text eof) s h =
      Ensures-bind answers (from_hacker answers text s) _ (from_hacker-Ensures text s h) λ _ s1 h1.
        Ensures-bind answers ((if eof then on_trace (half_close answers docker) else pure tt) s1) _
          (when-Ensures eof _ s1 h1 (half_close-Ensures docker s1 h1)) λ _ s2 h2. h2
  handle_event-Ensures (docker_in text stderr eof) s h =
      Ensures-bind answers (from_docker answers text s) _ (from_docker-Ensures text s h) λ _ s1 h1.
        Ensures-bind answers (stderr_from_docker answers stderr s1) _
          (stderr_from_docker-Ensures stderr s1 h1)
          λ _ s2 h2.
            Ensures-bind answers
              ((if eof then on_trace (half_close answers hacker) else pure tt) s2) _
              (when-Ensures eof _ s2 h2 (half_close-Ensures hacker s2 h2)) λ _ s3 h3. h3
  handle_event-Ensures (hang_up side) s h = h
  handle_event-Ensures other s h = h

  handle_events-Ensures :
      (es : List Ready) (s : Shell) → IsExact s.trace → Ensures answers (handle_events answers es s)
  unfolding handle_events
  handle_events-Ensures [] s h = h
  handle_events-Ensures (e ∷ es) s h =
      Ensures-bind answers (handle_event answers e s) _ (handle_event-Ensures e s h) λ f s1 h1.
        unless_stopped-Ensures answers f (handle_events answers es) s1 h1
          (handle_events-Ensures es s1 h1)

  loop-Ensures :
      (rs : List Round) (s : Shell) → IsExact s.trace → LoopEnsures answers (loop answers rs s)
  unfolding loop
  loop-Ensures [] s h = h
  loop-Ensures (r ∷ rs) s h =
      let done = handle_events answers r.events s in
      after_round-Ensures answers done (r.docker_eof || r.hacker_eof) (loop answers rs done.1)
        (handle_events-Ensures r.events s h) (loop-Ensures rs done.1)

  closed_both :
      (o : Outcome (Unit {0})) (s : Shell)
      → IsNearlyExact answers s.trace
      → IsNearlyExact answers
          (on_trace (λ t. continue o (λ _. call answers (close docker)) t) s).1.trace
  unfolding on_trace call
  closed_both (returned x) s h = IsNearlyExact-close answers s.trace docker h
  closed_both (raised e) s h = h

  finally-Ensures :
      (r : Status × Shell) → LoopEnsures answers r → IsNearlyExact answers (finally answers r).trace
  unfolding finally on_trace
  finally-Ensures (waiting, s) h = IsNearlyExact-exact answers s.trace h
  finally-Ensures (finished, s) h =
      closed_both (answers (s.trace ++ close hacker ∷ []))
        (record s { trace = s.trace ++ close hacker ∷ [] })
        (IsNearlyExact-close answers s.trace hacker h)

  -- Whatever the two channels deliver, answer or raise: the events that a shell session logs as
  -- coming from a side are exactly the texts that it handed to the sendall of the other side, in
  -- order, but that the last text for the container may be missing, and only if its sendall raised;
  -- what is handed to the hacker's sendall_stderr does not count, and is not logged so.
  pub shell_service-IsNearlyExact :
      (rounds : List Round) → IsNearlyExact answers (shell_service answers rounds []).trace
  unfolding shell_service bytes_eq
  shell_service-IsNearlyExact rounds = finally-Ensures (loop answers rounds _) (
      loop-Ensures rounds _
        (record { from_docker = record { all = refl }; from_hacker = record { all = refl } }))
