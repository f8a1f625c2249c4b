-- ===== src/Forward/Crossed.antt =====
-- What passes through a forwarded connection against the events that it emits
-- (wetland/services/direct_service.py).
use wetland.Prelude.{
  ℕ, Bytes, IsByte, All, All-append, map, List, [], ◌∷◌, ◌++◌, append_assoc, Option, none, some,
  Bool, true, false, ◌&&◌, ◌≡◌, refl,
}
use wetland.Prelude.Py.{Outcome, returned, raised, ◌>>◌}
use mathlib.Core.List.{map-append}
use wetland.Event.{Event, wetland_subject}
use wetland.Relay.{
  Side, hacker, docker, Effect, Trace, Status, waiting, finished, emit, send, close, shutdown_write,
  send_exit_status, call, half_close, close_both, marker, text_event, content_event,
}
use wetland.Relay.Recorded.{
  emitted_by, emitted, emitted-append, crossed_by, crossed, crossed-append,
}
use wetland.Relay.Keeps.{Keeps, Keeps-next}
use wetland.Forward.{
  Turn, Forward, direct, action, relay, half_close_if, relay_round, relay_loop, relay_end,
  after_relay, direct_service, appears, reverse, reverse_handler2,
}

-- The event for a text.
abbrev pub told : Forward → Side × Bytes → Event
told forward (side, text) = text_event (action forward) side text

abbrev pub AreBytes : Side × Bytes → Type 0
AreBytes (side, text) = All IsByte text

-- Texts of bytes.
abbrev HasBytes : Option Bytes → Type 0
HasBytes none = Unit {0}
HasBytes (some text) = All IsByte text

pub record IsTurn (r : Turn) : Type 0 where
  pub hacker_bytes : HasBytes r.from_hacker
  pub docker_bytes : HasBytes r.from_docker

module _ (forward : Forward) (begins : List Event) where
  -- The first events, and then one for each text that was handed over.
  pub record IsTold (t : Trace) : Type 0 where
    pub events : emitted t ≡ begins ++ map (told forward) (crossed t)
    pub bytes : All AreBytes (crossed t)

  IsTold-append :
      (a b : Trace)
      → IsTold a
      → emitted b ≡ map (told forward) (crossed b)
      → All AreBytes (crossed b)
      → IsTold (a ++ b)
  IsTold-append a b h k l = record {
    events =
        rw (emitted-append a b, crossed-append a b, map-append, h.events, k)
          (append_assoc begins _ _);
    bytes = rw (crossed-append a b) (All-append AreBytes (crossed a) (crossed b) h.bytes l);
  }

  module _ (answers : Trace → Outcome (Unit {0})) where
    inert-Keeps :
        (e : Effect) → emitted_by e ≡ [] → crossed_by e ≡ [] → Keeps IsTold (call answers e)
    unfolding call emitted crossed
    inert-Keeps e k l t h = IsTold-append t (e ∷ []) h (rw (k, l) refl) (rw l tt)

    relay-Keeps :
        (side : Side) (text : Option Bytes)
        → HasBytes text
        → Keeps IsTold (relay forward answers side text)
    unfolding relay call emitted crossed
    relay-Keeps side none b t h = h
    relay-Keeps hacker (some text) b t h = rw (append_assoc t _ _) (
        IsTold-append t (emit (text_event (action forward) hacker text) ∷ send docker text ∷ []) h
          refl (b, tt))
    relay-Keeps docker (some text) b t h = rw (append_assoc t _ _) (
        IsTold-append t (emit (text_event (action forward) docker text) ∷ send hacker text ∷ []) h
          refl (b, tt))

    half_close_if-Keeps :
        (eof : Bool) (side : Side) → Keeps IsTold (half_close_if forward answers eof side)
    unfolding half_close_if half_close
    half_close_if-Keeps false side t h = h
    half_close_if-Keeps true side t h =
        Keeps-next IsTold (call answers (shutdown_write side))
          (call answers (send_exit_status side 0)) (inert-Keeps (shutdown_write side) refl refl)
          (inert-Keeps (send_exit_status side 0) refl refl) t h

    relay_round-Keeps : (r : Turn) → IsTurn r → Keeps IsTold (relay_round forward answers r)
    unfolding relay_round
    relay_round-Keeps r q =
        let shut_hacker = half_close_if forward answers r.docker_eof hacker in
        let shut_docker = half_close_if forward answers r.hacker_eof docker in
        let back = relay forward answers docker r.from_docker in
        Keeps-next IsTold (relay forward answers hacker r.from_hacker)
          (do back; shut_hacker; shut_docker) (relay-Keeps hacker r.from_hacker q.hacker_bytes)
          (Keeps-next IsTold back (do shut_hacker; shut_docker)
            (relay-Keeps docker r.from_docker q.docker_bytes)
            (Keeps-next IsTold shut_hacker shut_docker (half_close_if-Keeps r.docker_eof hacker)
              (half_close_if-Keeps r.hacker_eof docker)))

    after_relay-IsTold :
        (o : Outcome (Unit {0})) (eof : Bool) (rest : Status × Trace) (t : Trace)
        → IsTold t
        → IsTold rest.1
        → IsTold (after_relay forward answers o eof rest t).1
    unfolding after_relay
    after_relay-IsTold (raised e) eof rest t h k = h
    after_relay-IsTold (returned x) true rest t h k = h
    after_relay-IsTold (returned x) false rest t h k = k

    relay_loop-IsTold :
        (rs : List Turn) (t : Trace)
        → All IsTurn rs
        → IsTold t
        → IsTold (relay_loop forward answers rs t).1
    unfolding relay_loop
    relay_loop-IsTold [] t q h = h
    relay_loop-IsTold (r ∷ rs) t q h =
        let k = relay_round-Keeps r q.0 t h in
        after_relay-IsTold _ (r.docker_eof && r.hacker_eof) _ _ k (relay_loop-IsTold rs _ q.1 k)

    relay_end-IsTold : (r : Status × Trace) → IsTold r.1 → IsTold (relay_end forward answers r)
    unfolding relay_end close_both
    relay_end-IsTold (waiting, t) h = h
    relay_end-IsTold (finished, t) h =
        Keeps-next IsTold (call answers (close hacker)) (call answers (close docker))
          (inert-Keeps (close hacker) refl refl) (inert-Keeps (close docker) refl refl) t h

-- A direct connection whose channel appears in time tells each text that it hands over, in the
-- order of both directions together, and nothing else behind its marker.
pub direct_service-IsTold :
    (answers : Trace → Outcome (Unit {0})) (found : ℕ → Bool) (turns : List Turn)
    → appears found 0 10 ≡ true
    → All IsTurn turns
    → IsTold direct
        (content_event (action direct) marker ∷ [])
        (direct_service answers found turns [])
unfolding direct_service emitted crossed
direct_service-IsTold answers found turns h q = rw h (
    relay_end-IsTold direct _ answers _
      (relay_loop-IsTold direct _ answers turns _ q (record { events = refl; bytes = tt })))

-- So does a reverse connection that opens, behind the line with its two ends and its marker.
abbrev pub ends_event : Bytes → Event
ends_event ends = record { subject = wetland_subject; action = action reverse; content = ends }

pub reverse_handler2-IsTold :
    (answers : Trace → Outcome (Unit {0})) (ends : Bytes) (turns : List Turn)
    → All IsTurn turns
    → IsTold reverse
        (ends_event ends ∷ content_event (action reverse) marker ∷ [])
        (reverse_handler2 answers true ends turns [])
unfolding reverse_handler2 emitted crossed
reverse_handler2-IsTold answers ends turns q =
    relay_end-IsTold reverse _ answers _
      (relay_loop-IsTold reverse _ answers turns _ q (record { events = refl; bytes = tt }))
