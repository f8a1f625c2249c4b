-- ===== src/Playlog/Replayed.antt =====
-- A log of forwarded connections, from the events of the service to what util/playlog.py shows.
use wetland.Prelude.{
  ℕ, suc, Bytes, codes, bytes_eq, path_join, Files, map, All, List, [], ◌∷◌, ◌++◌, Option, none,
  some, Bool-cases, inl, inr, append_assoc, append-nil, ◌≡◌, ◌≢◌, refl, sym, ap, ◌∙◌, if◌then◌else◌,
}
use wetland.Prelude.Py.{returned}
use wetland.Log.{send_all}
use wetland.Playlog.{Entry, Session, forward_get}
use wetland.Playlog.Lines.{Recording, IsRecording, transcript}
use wetland.Playlog.RoundTrip.{played, get-send_all}
use wetland.Forward.{Forward, direct, reverse, action}
use wetland.Playlog.Choose.{choose_player, forward_player, choose_player-log}
use wetland.Playlog.Players.{
  Acts, print, detected, span, show_entry, show_each, show_sessions, forward_start, act, arrow,
}
use wetland.Playlog.Program.{playlog}

-- What is shown of an entry: who sent, and the text.
abbrev pub shown_entry : Entry → Acts
shown_entry e =
    (if bytes_eq e.direction (codes "[H]") then print (codes "Hacker send") ∷ [] else [])
    ++ ((if bytes_eq e.direction (codes "[V]") then print (codes "Docker send") ∷ [] else [])
        ++ print e.text ∷ [])

unfoldable pub shown_entries : Session → Acts
shown_entries [] = []
shown_entries (e ∷ es) = shown_entry e ++ shown_entries es

-- The time of the last entry.
unfoldable pub last_time : Bytes → Session → Bytes
last_time t [] = t
last_time t (e ∷ es) = last_time e.time es

abbrev pub shown_session : Session → Acts
shown_session [] = []
shown_session (e ∷ es) =
    print (e.time ++ (codes " -------> " ++ last_time e.time es)) ∷ shown_entries (e ∷ es)

unfoldable pub shown_acts : List Session → Acts
shown_acts [] = []
shown_acts (s ∷ ss) = shown_session s ++ shown_acts ss

show_entry_lem :
    (e : Entry) (acts : Acts) → show_entry e acts ≡ (returned tt, acts ++ shown_entry e)
unfolding show_entry act
show_entry_lem e acts = elim (Bool-cases (bytes_eq e.direction (codes "[H]"))) [
  | inl h ↦ elim (Bool-cases (bytes_eq e.direction (codes "[V]"))) [
    | inl v ↦ rw (h, v) (simp append_assoc)
    | inr v ↦ rw (h, v) (simp append_assoc)
  ]
  | inr h ↦ elim (Bool-cases (bytes_eq e.direction (codes "[V]"))) [
    | inl v ↦ rw (h, v) (simp append_assoc)
    | inr v ↦ rw (h, v) refl
  ]
]

show_each_lem :
    (es : Session) (acts : Acts) → show_each es acts ≡ (returned tt, acts ++ shown_entries es)
unfolding show_each shown_entries
show_each_lem [] acts = ap (λ a. (returned tt, a)) (sym (append-nil acts))
show_each_lem (e ∷ es) acts =
    rw (show_entry_lem e acts, show_each_lem es (acts ++ shown_entry e))
      (ap (λ a. (returned tt, a)) (append_assoc acts (shown_entry e) (shown_entries es)))

pub span_lem : (e : Entry) (es : Session) → span (e ∷ es) ≡ returned (e.time, last_time e.time es)
unfolding span last_time
span_lem e [] = refl
span_lem e (d ∷ es) = rw (span_lem d es) refl

show_sessions_lem :
    (n : ℕ) (ss : List Session) (acts : Acts)
    → All (λ s. s ≢ []) ss
    → show_sessions arrow n ss acts ≡ (returned tt, acts ++ shown_acts ss)
unfolding show_sessions shown_acts act
show_sessions_lem n [] acts h = ap (λ a. (returned tt, a)) (sym (append-nil acts))
show_sessions_lem n ([] ∷ ss) acts h = absurd (h.0 refl)
show_sessions_lem n ((e ∷ es) ∷ ss) acts h =
    let title = print (e.time ++ (codes " -------> " ++ last_time e.time es)) in
    let entries = shown_entries (e ∷ es) in
    rw
      (
        span_lem e es,
        show_each_lem (e ∷ es) (acts ++ title ∷ []),
        show_sessions_lem (suc n) ss ((acts ++ title ∷ []) ++ entries) h.1,
      )
      (ap (λ a. (returned tt, a))
        (append_assoc (acts ++ title ∷ []) entries (shown_acts ss)
          ∙ append_assoc acts (title ∷ []) (entries ++ shown_acts ss)))

pub played_full :
    (s : Session) (ss : List Session) → All (λ s. s ≢ []) (s ∷ ss) → played (s ∷ ss) ≡ s ∷ ss
played_full s [] h = refl
played_full [] (t ∷ ss) h = absurd (h.0 refl)
played_full (e ∷ es) (t ∷ ss) h = ap (λ l. (e ∷ es) ∷ l) (played_full t ss h.1)

forward_start_lem :
    (contents : Bytes) (ss : List Session)
    → All (λ s. s ≢ []) ss
    → forward_get contents ≡ returned ss
    → forward_start contents [] ≡ (returned tt, print (detected ss) ∷ shown_acts ss)
unfolding forward_start act
forward_start_lem contents ss n h = rw (h, show_sessions_lem 0 ss (print (detected ss) ∷ []) n) refl

abbrev pub sessions : List Recording → List Session
sessions rs = map (λ (c : Recording). c.entries) rs

-- The log of a service that forwards, in the folder of an address.
abbrev pub forward_log : Forward → Bytes → Bytes
forward_log forward logpath = path_join logpath (action forward ++ codes ".log")

abbrev pub log_name : Forward → Bytes
log_name direct = codes "/direct.log"
log_name reverse = codes "/reverse.log"

choose_player-log_name :
    (forward : Forward) (folder : Bytes)
    → choose_player none (folder ++ log_name forward) ≡ some forward_player
choose_player-log_name direct folder = (choose_player-log folder).2
choose_player-log_name reverse folder = (choose_player-log folder).3

-- The events of forwarded connections with well-formed times, directions and bytes, each of which
-- carried something, written by the log plugin to a file direct.log, or reverse.log, that was
-- empty: util/playlog.py, given that file alone, chooses the player by its name and shows the
-- number of connections, and for each its times and every text with who sent it, in order, and
-- nothing else.
pub playlog-send_all :
    (forward : Forward) (logpath folder answer : Bytes) (s : Option Bytes) (r : Recording)
    (rs : List Recording) (files : Files)
    → files (forward_log forward logpath) ≡ []
    → All IsRecording (r ∷ rs)
    → All (λ d. d ≢ []) (sessions (r ∷ rs))
    → playlog
        (record { t = none; p = folder ++ log_name forward; s = s })
        (send_all logpath
          (transcript (action forward) (r ∷ rs))
          files
          (forward_log forward logpath))
        answer
        (record { acts = []; writes = [] })
      ≡ (
        returned tt,
        record {
          acts = print (detected (sessions (r ∷ rs))) ∷ shown_acts (sessions (r ∷ rs));
          writes = [];
        },
      )
unfolding playlog forward_get
playlog-send_all forward logpath folder answer s r rs files e h n =
    rw
      (
        choose_player-log_name forward folder,
        forward_start_lem _ (sessions (r ∷ rs)) n (
            get-send_all logpath (action forward) (r ∷ rs) files e h
            ∙ ap returned (played_full r.entries (sessions rs) n)),
      )
      refl
