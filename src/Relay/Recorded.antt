-- ===== src/Relay/Recorded.antt =====
-- The log of a service against what the service sent (wetland/services).
use wetland.Prelude.{
  All, IsByte, Option, none, some, Bytes, bytes_eq, take, map, List, [], ◌∷◌, ◌++◌, append_assoc,
  append-nil, Bool, ◌&&◌, ◌≡◌, ◌∙◌, refl, ap, if◌then◌else◌,
}
use mathlib.Core.List.{map-append}
use wetland.Prelude.Py.{Outcome, raised, PyError}
use wetland.Event.{Event, content_subject}
use wetland.Relay.{
  Ready, Round, hacker_in, docker_in, Side, hacker, docker, Effect, Trace, emit, send, tag,
  text_event,
}

-- The text of an effect that is handed to a side's `send` or `sendall`.
abbrev pub sent_by : Side → Effect → List Bytes
sent_by hacker (send hacker t) = t ∷ []
sent_by docker (send docker t) = t ∷ []
sent_by side e = []

-- The texts that were handed to a side's `send` or `sendall`; not those of `sendall_stderr`.
abbrev pub sent : Side → Trace → List Bytes
sent side [] = []
sent side (e ∷ es) = sent_by side e ++ sent side es

-- Whether an event says what came from a side.
abbrev pub is_text : Bytes → Side → Event → Bool
is_text action side e =
    bytes_eq e.subject content_subject
    && bytes_eq e.action action
    && bytes_eq (take 4 e.content) (tag side)

abbrev pub logged_by : Bytes → Side → Effect → List Event
logged_by action side (emit e) = if is_text action side e then e ∷ [] else []
logged_by action side e = []

-- Such events, in order.
abbrev pub logged : Bytes → Side → Trace → List Event
logged action side [] = []
logged action side (e ∷ es) = logged_by action side e ++ logged action side es

pub sent-append : (side : Side) (a b : Trace) → sent side (a ++ b) ≡ sent side a ++ sent side b
sent-append side [] b = refl
sent-append side (e ∷ a) b = simp (sent-append side a b, append_assoc)

module _ (action : Bytes) where
  pub logged-append :
      (side : Side) (a b : Trace)
      → logged action side (a ++ b) ≡ logged action side a ++ logged action side b
  logged-append side [] b = refl
  logged-append side (e ∷ a) b = simp (logged-append side a b, append_assoc)

  -- What went to one side is logged as coming from the other: all of it, in order.
  pub record IsLogged (from to : Side) (t : Trace) : Type 0 where
    pub all : logged action from t ≡ map (text_event action from) (sent to t)

  -- All of it but the last text, whose `sendall` raised.
  pub record IsLoggedButLast (answers : Trace → Outcome (Unit {0})) (from to : Side) (t : Trace)
      : Type 0 where
    pub last : Bytes
    pub before : Trace
    pub after : Trace
    pub error : PyError
    pub split : t ≡ before ++ send to last ∷ after
    pub failed : answers (before ++ send to last ∷ []) ≡ raised error
    pub no_later : sent to after ≡ []
    pub rest :
        map (text_event action from) (sent to t)
        ≡ logged action from t ++ text_event action from last ∷ []

  pub IsLogged-append :
      (from to : Side) (a b : Trace)
      → IsLogged from to a
      → IsLogged from to b
      → IsLogged from to (a ++ b)
  IsLogged-append from to a b h k = record {
    all = rw (logged-append from a b, sent-append to a b, map-append, h.all, k.all);
  }

  pub IsLoggedButLast-append :
      (answers : Trace → Outcome (Unit {0})) (from to : Side) (a : Trace) (last : Bytes)
      (error : PyError)
      → IsLogged from to a
      → answers (a ++ send to last ∷ []) ≡ raised error
      → logged_by action from (send to last) ≡ []
      → sent_by to (send to last) ≡ last ∷ []
      → IsLoggedButLast answers from to (a ++ send to last ∷ [])
  IsLoggedButLast-append answers from to a last error h f k l = record {
    last = last;
    before = a;
    after = [];
    error = error;
    split = refl;
    failed = f;
    no_later = refl;
    rest = rw (
      logged-append from a (send to last ∷ []),
      sent-append to a (send to last ∷ []),
      map-append,
      h.all,
      k,
      l,
      append-nil,
    );
  }

  pub IsLoggedButLast-inert :
      (answers : Trace → Outcome (Unit {0})) (from to : Side) (a : Trace) (e : Effect)
      → IsLoggedButLast answers from to a
      → logged_by action from e ≡ []
      → sent_by to e ≡ []
      → IsLoggedButLast answers from to (a ++ e ∷ [])
  IsLoggedButLast-inert answers from to a e h k l = record {
    last = h.last;
    before = h.before;
    after = h.after ++ e ∷ [];
    error = h.error;
    split =
        ap (λ (t : Trace). t ++ e ∷ []) h.split
        ∙ append_assoc h.before (send to h.last ∷ h.after) (e ∷ []);
    failed = h.failed;
    no_later = rw (sent-append to h.after (e ∷ []), h.no_later, l) refl;
    rest =
        rw
          (
            logged-append from a (e ∷ []),
            sent-append to a (e ∷ []),
            k,
            l,
            append-nil (sent to a),
            append-nil (logged action from a),
          )
          h.rest;
  }

abbrev pub emitted_by : Effect → List Event
emitted_by (emit e) = e ∷ []
emitted_by e = []

-- The events, in order.
unfoldable pub emitted : Trace → List Event
emitted [] = []
emitted (e ∷ es) = emitted_by e ++ emitted es

pub emitted-append : (a b : Trace) → emitted (a ++ b) ≡ emitted a ++ emitted b
unfolding emitted
emitted-append [] b = refl
emitted-append (e ∷ a) b = simp (emitted-append a b, append_assoc)

-- The texts that an effect hands over, with the side that they came from.
abbrev pub crossed_by : Effect → List (Side × Bytes)
crossed_by (send hacker t) = (docker, t) ∷ []
crossed_by (send docker t) = (hacker, t) ∷ []
crossed_by e = []

-- All texts that were handed over, in order.
unfoldable pub crossed : Trace → List (Side × Bytes)
crossed [] = []
crossed (e ∷ es) = crossed_by e ++ crossed es

pub crossed-append : (a b : Trace) → crossed (a ++ b) ≡ crossed a ++ crossed b
unfolding crossed
crossed-append [] b = refl
crossed-append (e ∷ a) b = simp (crossed-append a b, append_assoc)

-- Texts of bytes.
abbrev pub AreBytes : Option Bytes → Type 0
AreBytes none = Unit {0}
AreBytes (some text) = All IsByte text

-- What one event delivers is bytes.
abbrev pub IsDelivery : Ready → Type 0
IsDelivery (hacker_in text eof) = AreBytes text
IsDelivery (docker_in text stderr eof) = AreBytes text
IsDelivery e = Unit {0}

abbrev pub IsRound : Round → Type 0
IsRound r = All IsDelivery r.events
