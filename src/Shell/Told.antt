-- ===== src/Shell/Told.antt =====
-- What a shell session emits against what it sends to the hacker
-- (wetland/services/shell_service.py).
use wetland.Prelude.{
  concat, Bytes, codes, bytes_eq, All, All-append, map, List, [], ◌∷◌, ◌++◌, append-nil,
  append_assoc, is_empty, Option, none, some, ◌||◌, ◌&&◌, not, ◌≡◌, refl,
}
use wetland.Prelude.Py.{Outcome, pure}
use mathlib.Core.List.{map-append}
use wetland.Relay.{
  Side, hacker, docker, Effect, Trace, Ready, Round, hacker_in, docker_in, hang_up, other, go_on,
  Status, waiting, finished, emit, send, send_stderr, shutdown_write, close, send_exit_status, call,
  half_close, close_both, report, marker, text_event, content_event, when, unless_stopped,
}
use wetland.Relay.Recorded.{
  AreBytes, IsDelivery, IsRound, sent, sent_by, sent-append, emitted, emitted_by, emitted-append,
}
use wetland.Relay.Keeps.{
  Keeps, Keeps-bind, Keeps-next, Keeps-when, if-Keeps, Keeps-unless_stopped, next_round-Keeps,
}
use wetland.Playlog.Items.{Piece, said, noted, event_of, shown_by, shown, HasBytes, shown-append}
use wetland.Shell.{
  Shell, loop, finally, shell_service, from_hacker, from_docker, stderr_from_docker, handle_event,
  handle_events, on_trace, type_key, visual, append_visual,
}

-- The marker, and then one event for each item, of which those of the container are what was sent
-- to the hacker.
pub record IsTold (t : Trace) : Type 0 where
  pub items : List Piece
  pub events :
      emitted t ≡ content_event (codes "shell") marker ∷ map (event_of (codes "shell")) items
  pub bytes : All HasBytes items
  pub to_hacker : shown items ≡ sent hacker t

abbrev Tells : Shell → Type 0
Tells s = IsTold s.trace

IsTold-append :
    (a b : Trace) (is : List Piece)
    → IsTold a
    → emitted b ≡ map (event_of (codes "shell")) is
    → All HasBytes is
    → shown is ≡ sent hacker b
    → IsTold (a ++ b)
IsTold-append a b is h k l m = record {
  items = h.items ++ is;
  events = rw (emitted-append a b, map-append, h.events, k) refl;
  bytes = All-append HasBytes h.items is h.bytes l;
  to_hacker = rw (shown-append h.items is, sent-append hacker a b, h.to_hacker, m) refl;
}

-- An effect that emits nothing and sends the hacker nothing.
inert :
    (a : Trace) (e : Effect)
    → emitted_by e ≡ []
    → sent_by hacker e ≡ []
    → IsTold a
    → IsTold (a ++ e ∷ [])
unfolding emitted shown
inert a e k l h = IsTold-append a (e ∷ []) [] h (rw k refl) tt (rw l refl)

emit-IsTold :
    (a : Trace) (i : Piece)
    → HasBytes i
    → shown_by i ≡ []
    → IsTold a
    → IsTold (a ++ emit (event_of (codes "shell") i) ∷ [])
unfolding emitted shown
emit-IsTold a i b k h =
    IsTold-append a (emit (event_of (codes "shell") i) ∷ []) (i ∷ []) h refl (b, tt)
      (rw (append-nil (shown_by i), k) refl)

type_key-Keeps : (text : Bytes) → Keeps Tells (type_key text)
unfolding type_key
type_key-Keeps text s h =
    if-Keeps Tells (bytes_eq text (codes "\r")) _ _
      (emit-IsTold s.trace (noted (codes "shell command") (concat s.command)) tt refl h)
      (if-Keeps Tells (bytes_eq text (127 ∷ []) && not (is_empty s.command)) _ _ h
        (add (visual text)))
  where
    add : (v : Option Bytes) → Tells (append_visual v s).1
    add none = unfold append_visual in h
    add (some v) = unfold append_visual in h

module _ (answers : Trace → Outcome (Unit {0})) where
  call-Keeps :
      (e : Effect)
      → emitted_by e ≡ []
      → sent_by hacker e ≡ []
      → Keeps Tells (on_trace (call answers e))
  unfolding on_trace call
  call-Keeps e k l s h = inert s.trace e k l h

  from_hacker-Keeps : (text : Option Bytes) → AreBytes text → Keeps Tells (from_hacker answers text)
  unfolding from_hacker on_trace
  from_hacker-Keeps none b = λ s h. h
  from_hacker-Keeps (some text) b =
      Keeps-next Tells (on_trace (call answers (send docker text))) _
        (call-Keeps (send docker text) refl refl)
        (Keeps-next Tells (on_trace (report (text_event (codes "shell") hacker text)))
          (type_key text) (λ s h. emit-IsTold s.trace (said hacker text) b refl h)
          (type_key-Keeps text))

  from_docker-Keeps : (text : Option Bytes) → AreBytes text → Keeps Tells (from_docker answers text)
  unfolding from_docker on_trace call emitted shown
  from_docker-Keeps none b s h = h
  from_docker-Keeps (some text) b s h =
      rw
        (append_assoc s.trace (emit (text_event (codes "shell") docker text) ∷ [])
          (send hacker text ∷ []))
        (IsTold-append s.trace
          (emit (text_event (codes "shell") docker text) ∷ send hacker text ∷ [])
          (said docker text ∷ []) h refl (b, tt) refl)

  stderr_from_docker-Keeps : (text : Option Bytes) → Keeps Tells (stderr_from_docker answers text)
  unfolding stderr_from_docker
  stderr_from_docker-Keeps none = λ s h. h
  stderr_from_docker-Keeps (some text) = call-Keeps (send_stderr hacker text) refl refl

  half_close-Keeps : (side : Side) → Keeps Tells (on_trace (half_close answers side))
  unfolding half_close on_trace
  half_close-Keeps side s h =
      Keeps-next IsTold (call answers (shutdown_write side))
        (call answers (send_exit_status side 0))
        (λ t k. call-Keeps (shutdown_write side) refl refl (record s { trace = t }) k)
        (λ t k. call-Keeps (send_exit_status side 0) refl refl (record s { trace = t }) k) s.trace h

  handle_event-Keeps : (e : Ready) → IsDelivery e → Keeps Tells (handle_event answers e)
  unfolding handle_event
  handle_event-Keeps (hacker_in text eof) b =
      Keeps-next Tells (from_hacker answers text) _ (from_hacker-Keeps text b) (
        Keeps-next Tells (when eof (on_trace (half_close answers docker))) (pure go_on)
          (Keeps-when Tells eof _ (half_close-Keeps docker)) (λ s h. h))
  handle_event-Keeps (docker_in text stderr eof) b =
      Keeps-next Tells (from_docker answers text) _ (from_docker-Keeps text b) (
        Keeps-next Tells (stderr_from_docker answers stderr) _ (stderr_from_docker-Keeps stderr) (
          Keeps-next Tells (when eof (on_trace (half_close answers hacker))) (pure go_on)
            (Keeps-when Tells eof _ (half_close-Keeps hacker)) (λ s h. h)))
  handle_event-Keeps (hang_up side) b = λ s h. h
  handle_event-Keeps other b = λ s h. h

  handle_events-Keeps :
      (es : List Ready) → All IsDelivery es → Keeps Tells (handle_events answers es)
  unfolding handle_events
  handle_events-Keeps [] b = λ s h. h
  handle_events-Keeps (e ∷ es) b =
      Keeps-bind Tells (handle_event answers e)
        (λ flow. unless_stopped flow (handle_events answers es)) (handle_event-Keeps e b.0)
        (λ flow. Keeps-unless_stopped Tells flow _ (handle_events-Keeps es b.1))

  loop-IsTold :
      (rs : List Round) (s : Shell) → All IsRound rs → Tells s → Tells (loop answers rs s).1
  unfolding loop
  loop-IsTold [] s b h = h
  loop-IsTold (r ∷ rs) s b h =
      let done = handle_events answers r.events s in
      let kept = handle_events-Keeps r.events b.0 s h in
      next_round-Keeps Tells done.0 (r.docker_eof || r.hacker_eof) (loop answers rs done.1) done.1
        kept (loop-IsTold rs done.1 b.1 kept)

  finally-IsTold : (r : Status × Shell) → Tells r.1 → Tells (finally answers r)
  unfolding finally on_trace close_both
  finally-IsTold (waiting, s) h = h
  finally-IsTold (finished, s) h =
      Keeps-next IsTold (call answers (close hacker)) (call answers (close docker))
        (λ t k. call-Keeps (close hacker) refl refl (record s { trace = t }) k)
        (λ t k. call-Keeps (close docker) refl refl (record s { trace = t }) k) s.trace h

  pub shell_service-IsTold :
      (rounds : List Round) → All IsRound rounds → IsTold (shell_service answers rounds []).trace
  unfolding shell_service emitted shown
  shell_service-IsTold rounds b =
      finally-IsTold (loop answers rounds _) (
        loop-IsTold rounds _ b (record { items = []; events = refl; bytes = tt; to_hacker = refl }))
