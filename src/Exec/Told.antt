-- ===== src/Exec/Told.antt =====
-- What an exec session emits against what passes through it
-- (wetland/services/exec_service.py).
use wetland.Prelude.{
  Bytes, codes, All, All-append, map, List, [], ◌∷◌, ◌++◌, append_assoc, Option, none, some, false,
  ◌||◌, re_match, Bool, true, false, ◌≡◌, refl, ap, sym,
}
use wetland.Prelude.Py.{Py, Outcome, returned, raised, continue, pure, ◌>>◌}
use mathlib.Core.List.{map-append}
use wetland.Relay.{
  Side, hacker, docker, Effect, Trace, Ready, Round, hacker_in, docker_in, hang_up, other, go_on,
  Status, waiting, finished, emit, send, send_stderr, shutdown_write, close, send_exit_status,
  exec_command, call, half_close, close_both, text_event, when, unless_stopped,
}
use wetland.Relay.Recorded.{
  sent, sent_by, sent-append, emitted, emitted_by, emitted-append, crossed, crossed_by,
  crossed-append, AreBytes, IsDelivery, IsRound,
}
use wetland.Relay.Keeps.{
  Keeps, Keeps-bind, Keeps-next, Keeps-when, Keeps-unless_stopped, next_round-Keeps,
}
use wetland.Exec.Capture.{capture-Keeps}
use wetland.Exec.{
  capture, exec, Exec, on_trace, record_text, from_hacker, from_docker, stderr_from_docker,
  handle_event, handle_events, loop, finally, announce, run, exec_service, upload_command,
  command_event,
}
use wetland.Playlog.Items.{
  Piece, said, noted, event_of, texts, shown, HasBytes, texts-append, shown-append, marker_event,
}

-- The command, as it is logged and noted.
abbrev pub announced : Bytes → List Piece
announced cmd = said hacker cmd ∷ noted (codes "exec command") cmd ∷ []

-- What is logged of the texts that cross: in an upload nothing that comes from the hacker.
abbrev kept_of : Bool → Side × Bytes → List (Side × Bytes)
kept_of false crossing = crossing ∷ []
kept_of true (hacker, text) = []
kept_of true (docker, text) = (docker, text) ∷ []

unfoldable pub kept : Bool → List (Side × Bytes) → List (Side × Bytes)
kept isscp [] = []
kept isscp (c ∷ cs) = kept_of isscp c ++ kept isscp cs

kept-append :
    (isscp : Bool) (a b : List (Side × Bytes)) → kept isscp (a ++ b) ≡ kept isscp a ++ kept isscp b
unfolding kept
kept-append isscp [] b = refl
kept-append isscp (c ∷ a) b = simp (kept-append isscp a b, append_assoc)

kept_docker : (isscp : Bool) (text : Bytes) → kept isscp ((docker, text) ∷ []) ≡ (docker, text) ∷ []
unfolding kept
kept_docker true text = refl
kept_docker false text = refl

pub kept_all : (l : List (Side × Bytes)) → kept false l ≡ l
unfolding kept
kept_all [] = refl
kept_all (c ∷ l) = ap (λ k. c ∷ k) (kept_all l)

module _ (cmd : Bytes) (isscp : Bool) where
  -- The marker, the command, and then one event for each text that is logged, in order, and for
  -- each line of wetland.log.
  pub record IsTold (t : Trace) : Type 0 where
    pub items : List Piece
    pub events : emitted t ≡ marker_event exec ∷ map (event_of exec) (announced cmd ++ items)
    pub bytes : All HasBytes items
    pub order : texts items ≡ kept isscp (crossed t)
    pub to_hacker : shown items ≡ sent hacker t

  abbrev Tells : Exec → Type 0
  Tells s = IsTold s.trace

  IsTold-append :
      (a b : Trace) (is : List Piece)
      → IsTold a
      → emitted b ≡ map (event_of exec) is
      → All HasBytes is
      → texts is ≡ kept isscp (crossed b)
      → shown is ≡ sent hacker b
      → IsTold (a ++ b)
  IsTold-append a b is h k l m n = record {
    items = h.items ++ is;
    events = rw (emitted-append a b, map-append, h.events, k) (simp map-append);
    bytes = All-append HasBytes h.items is h.bytes l;
    order = rw (texts-append h.items is, crossed-append a b, kept-append isscp, h.order, m) refl;
    to_hacker = rw (shown-append h.items is, sent-append hacker a b, h.to_hacker, n) refl;
  }

  module _ (answers : Trace → Outcome (Unit {0})) where
    -- An effect that emits nothing and hands no text over.
    call-Keeps :
        (e : Effect)
        → emitted_by e ≡ []
        → crossed_by e ≡ []
        → sent_by hacker e ≡ []
        → Keeps IsTold (call answers e)
    unfolding call emitted crossed texts shown kept
    call-Keeps e k l m t h = IsTold-append t (e ∷ []) [] h (rw k refl) tt (rw l refl) (rw m refl)

    on_trace-Keeps : (m : Py Trace (Unit {0})) → Keeps IsTold m → Keeps Tells (on_trace m)
    unfolding on_trace
    on_trace-Keeps m h s k = h s.trace k

    from_docker-Keeps :
        (text : Option Bytes) → AreBytes text → Keeps Tells (from_docker answers text)
    unfolding from_docker on_trace call emitted crossed texts shown
    from_docker-Keeps none b s h = h
    from_docker-Keeps (some text) b s h =
        rw (append_assoc s.trace (emit (text_event exec docker text) ∷ []) (send hacker text ∷ []))
          (IsTold-append s.trace (emit (text_event exec docker text) ∷ send hacker text ∷ [])
            (said docker text ∷ []) h refl (b, tt) (sym (kept_docker isscp text)) refl)

    stderr_from_docker-Keeps : (text : Option Bytes) → Keeps Tells (stderr_from_docker answers text)
    unfolding stderr_from_docker
    stderr_from_docker-Keeps none = λ s h. h
    stderr_from_docker-Keeps (some text) =
        on_trace-Keeps (call answers (send_stderr hacker text))
          (call-Keeps (send_stderr hacker text) refl refl refl)

    half_close-Keeps : (side : Side) → Keeps Tells (on_trace (half_close answers side))
    unfolding half_close
    half_close-Keeps side = on_trace-Keeps (half_close answers side) (
        Keeps-next IsTold (call answers (shutdown_write side))
          (call answers (send_exit_status side 0)) (call-Keeps (shutdown_write side) refl refl refl)
          (call-Keeps (send_exit_status side 0) refl refl refl))

module _ (answers : Trace → Outcome (Unit {0})) (cmd : Bytes) where
  from_hacker-Keeps :
      (isscp : Bool) (text : Option Bytes)
      → AreBytes text
      → Keeps (Tells cmd isscp) (from_hacker answers isscp text)
  unfolding from_hacker record_text on_trace call emitted crossed texts shown kept
  from_hacker-Keeps isscp none b s h = h
  from_hacker-Keeps false (some text) b s h =
      rw
        (
          append_assoc (s.trace ++ emit (text_event exec hacker text) ∷ [])
              (emit (command_event text) ∷ []) (send docker text ∷ []),
          append_assoc s.trace (emit (text_event exec hacker text) ∷ [])
              (emit (command_event text) ∷ send docker text ∷ []),
        )
        (IsTold-append cmd false s.trace
          (emit (text_event exec hacker text) ∷ emit (command_event text) ∷ send docker text ∷ [])
          (said hacker text ∷ noted (codes "exec command") text ∷ []) h refl (b, (tt, tt)) refl
          refl)
  from_hacker-Keeps true (some text) b s h =
      Keeps-next (Tells cmd true) (capture text) (on_trace (call answers (send docker text)))
        (capture-Keeps (IsTold cmd true) text)
        (on_trace-Keeps cmd true answers (call answers (send docker text))
          (λ t k. IsTold-append cmd true t (send docker text ∷ []) [] k refl tt refl refl))
        s h

module _ (answers : Trace → Outcome (Unit {0})) (cmd : Bytes) (isscp : Bool) where
  handle_event-Keeps :
      (e : Ready) → IsDelivery e → Keeps (Tells cmd isscp) (handle_event answers isscp e)
  unfolding handle_event
  handle_event-Keeps (hacker_in text eof) b =
      Keeps-next (Tells cmd isscp) (from_hacker answers isscp text) _
        (from_hacker-Keeps answers cmd isscp text b)
        (Keeps-next (Tells cmd isscp) (when eof (on_trace (half_close answers docker))) (pure go_on)
          (Keeps-when (Tells cmd isscp) eof _ (half_close-Keeps cmd isscp answers docker))
          (λ s h. h))
  handle_event-Keeps (docker_in text stderr eof) b =
      Keeps-next (Tells cmd isscp) (from_docker answers text) _
        (from_docker-Keeps cmd isscp answers text b)
        (Keeps-next (Tells cmd isscp) (stderr_from_docker answers stderr) _
          (stderr_from_docker-Keeps cmd isscp answers stderr)
          (Keeps-next (Tells cmd isscp) (when eof (on_trace (half_close answers hacker)))
            (pure go_on)
            (Keeps-when (Tells cmd isscp) eof _ (half_close-Keeps cmd isscp answers hacker))
            (λ s h. h)))
  handle_event-Keeps (hang_up side) b = λ s h. h
  handle_event-Keeps other b = λ s h. h

  handle_events-Keeps :
      (es : List Ready)
      → All IsDelivery es
      → Keeps (Tells cmd isscp) (handle_events answers isscp es)
  unfolding handle_events
  handle_events-Keeps [] b = λ s h. h
  handle_events-Keeps (e ∷ es) b =
      Keeps-bind (Tells cmd isscp) (handle_event answers isscp e)
        (λ flow. unless_stopped flow (handle_events answers isscp es)) (handle_event-Keeps e b.0)
        (λ flow. Keeps-unless_stopped (Tells cmd isscp) flow _ (handle_events-Keeps es b.1))

  loop-Keeps :
      (rs : List Round) (s : Exec)
      → All IsRound rs
      → Tells cmd isscp s
      → Tells cmd isscp (loop answers isscp rs s).1
  unfolding loop
  loop-Keeps [] s b h = h
  loop-Keeps (r ∷ rs) s b h =
      let done = handle_events answers isscp r.events s in
      let kept = handle_events-Keeps r.events b.0 s h in
      next_round-Keeps (Tells cmd isscp) done.0 (r.docker_eof || r.hacker_eof)
        (loop answers isscp rs done.1) done.1 kept (loop-Keeps rs done.1 b.1 kept)

  finally-Keeps : (r : Status × Exec) → Tells cmd isscp r.1 → Tells cmd isscp (finally answers r)
  unfolding finally close_both
  finally-Keeps (waiting, s) h = h
  finally-Keeps (finished, s) h =
      on_trace-Keeps cmd isscp answers (call answers (close docker) >> call answers (close hacker))
        (Keeps-next (IsTold cmd isscp) (call answers (close docker)) (call answers (close hacker))
          (call-Keeps cmd isscp answers (close docker) refl refl refl)
          (call-Keeps cmd isscp answers (close hacker) refl refl refl))
        s h

module _ (answers : Trace → Outcome (Unit {0})) (cmd : Bytes) where
  run-IsTold :
      (rounds : List Round) (o : Outcome (Unit {0})) (f : Py Exec (Unit {0})) (s : Exec)
      → o ≡ returned tt
      → All IsRound rounds
      → (f s).0 ≡ returned tt
      → Tells cmd (re_match upload_command cmd) (f s).1
      → Tells cmd (re_match upload_command cmd) (run answers cmd rounds (continue o (λ _. f) s))
  unfolding run
  run-IsTold rounds (raised e) f s h b k l = cc
  run-IsTold rounds (returned x) f s h b k l =
      let isscp = re_match upload_command cmd in
      rw k (finally-Keeps answers cmd isscp _ (loop-Keeps answers cmd isscp rounds (f s).1 b l))

  pub exec_service-IsTold :
      (rounds : List Round)
      → answers (exec_command cmd ∷ []) ≡ returned tt
      → All IsRound rounds
      → IsTold cmd (re_match upload_command cmd) (exec_service answers cmd rounds []).trace
  unfolding exec_service announce on_trace call emitted crossed texts shown kept
  exec_service-IsTold rounds h b =
      run-IsTold rounds (answers (exec_command cmd ∷ [])) _ _ h b refl
        (record { items = []; events = refl; bytes = tt; order = refl; to_hacker = refl })
