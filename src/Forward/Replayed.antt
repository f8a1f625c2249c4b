-- ===== src/Forward/Replayed.antt =====
-- A forwarded connection from its channels to the terminal on which its log is replayed
-- (wetland/services/direct_service.py, reverse_service.py, wetland/output_plugin/log.py, util/playlog.py).
use wetland.Prelude.{
  ℕ, suc, Bytes, bytes_eq, All, map, List, [], ◌∷◌, ◌++◌, append-nil, Option, none, Bool, true, ◌≡◌,
  ◌≢◌, refl, ap, sym, ◌∙◌, Files,
}
use wetland.Prelude.Py.{Outcome, returned}
use wetland.Log.{send, send_all}
use wetland.Relay.{Side, hacker, docker, Trace, marker, content_event}
use wetland.Forward.{
  Turn, Forward, direct, reverse, action, appears, direct_service, reverse_handler2,
}
use wetland.Relay.Recorded.{emitted, crossed}
use wetland.Forward.Crossed.{
  told, AreBytes, IsTurn, direct_service-IsTold, reverse_handler2-IsTold, ends_event,
}
use wetland.Playlog.{Session}
use wetland.Playlog.Lines.{
  Recording, IsStamp, IsEntry, entry_pair, content_event as logged_event, transcript,
}
use wetland.Playlog.Players.{print, detected}
use wetland.Playlog.Program.{Run, playlog}
use wetland.Playlog.Items.{stamped, label, label_word, send-noted}
use wetland.Playlog.Replayed.{shown_acts, forward_log, log_name, playlog-send_all}

-- The texts of a connection as entries of a session.
unfoldable pub entries : (ℕ → Bytes) → ℕ → List (Side × Bytes) → Session
entries now n [] = []
entries now n ((side, text) ∷ ts) =
    record { time = now n; direction = label side; text = text } ∷ entries now (suc n) ts

abbrev recording : (ℕ → Bytes) → ℕ → List (Side × Bytes) → Recording
recording now n ts = record { start = now n; entries = entries now (suc n) ts }

stamped-told :
    (forward : Forward) (now : ℕ → Bytes) (n : ℕ) (ts : List (Side × Bytes))
    → stamped now n (map (told forward) ts)
      ≡ map (logged_event (action forward)) (map entry_pair (entries now n ts))
unfolding stamped entries
stamped-told forward now n [] = refl
stamped-told forward now n ((hacker, text) ∷ ts) =
    ap (λ l. (now n, told forward (hacker, text)) ∷ l) (stamped-told forward now (suc n) ts)
stamped-told forward now n ((docker, text) ∷ ts) =
    ap (λ l. (now n, told forward (docker, text)) ∷ l) (stamped-told forward now (suc n) ts)

stamped-transcript :
    (forward : Forward) (now : ℕ → Bytes) (n : ℕ) (ts : List (Side × Bytes))
    → stamped now n (content_event (action forward) marker ∷ map (told forward) ts)
      ≡ transcript (action forward) (recording now n ts ∷ [])
unfolding stamped
stamped-transcript forward now n ts =
    ap (λ l. (now n, content_event (action forward) marker) ∷ l)
      (stamped-told forward now (suc n) ts
        ∙ ap (map (logged_event (action forward)))
            (sym (append-nil (map entry_pair (entries now (suc n) ts)))))

entries-IsEntry :
    (now : ℕ → Bytes) (n : ℕ) (ts : List (Side × Bytes))
    → ((k : ℕ) → IsStamp (now k))
    → All AreBytes ts
    → All IsEntry (entries now n ts)
unfolding entries
entries-IsEntry now n [] h b = tt
entries-IsEntry now n ((side, text) ∷ ts) h b = (
  record { stamp = h n; word = (label_word side).0; no_colon = (label_word side).1; bytes = b.0 },
  entries-IsEntry now (suc n) ts h b.1,
)

entries_full :
    (now : ℕ → Bytes) (n : ℕ) (ts : List (Side × Bytes)) → ts ≢ [] → entries now n ts ≢ []
unfolding entries
entries_full now n [] h = absurd (h refl)
entries_full now n ((side, text) ∷ ts) h = λ e. cc

-- What util/playlog.py does with the log of a service that forwards.
abbrev pub forward_replay :
    Forward → Bytes → Option Bytes → Bytes → Bytes → Outcome (Unit {0}) × Run
forward_replay forward folder s answer contents =
    playlog (record { t = none; p = folder ++ log_name forward; s = s }) contents answer
      (record { acts = []; writes = [] })

-- It shows one connection with these entries, and nothing else.
abbrev pub shows_one : Session → Outcome (Unit {0}) × Run
shows_one es =
    (returned tt, record { acts = print (detected (es ∷ [])) ∷ shown_acts (es ∷ []); writes = [] })

forward_replay-transcript :
    (forward : Forward) (now : ℕ → Bytes) (n : ℕ) (ts : List (Side × Bytes))
    (logpath folder answer : Bytes) (s : Option Bytes) (files : Files)
    → ((k : ℕ) → IsStamp (now k))
    → All AreBytes ts
    → ts ≢ []
    → files (forward_log forward logpath) ≡ []
    → forward_replay forward folder s answer (
        send_all logpath
          (stamped now n (content_event (action forward) marker ∷ map (told forward) ts))
          files
          (forward_log forward logpath))
      ≡ shows_one (entries now (suc n) ts)
forward_replay-transcript forward now n ts logpath folder answer s files h b full e =
    rw (stamped-transcript forward now n ts) (
      playlog-send_all forward logpath folder answer s (recording now n ts) [] files e
        (record { stamp = h n; each = entries-IsEntry now (suc n) ts h b }, tt)
        (entries_full now (suc n) ts full, tt))

-- What crossed a direct connection is what its replay shows: whatever the channels answer or raise,
-- if the hacker's channel appears in time, the channels deliver bytes, something crosses, and the
-- plugin log writes the events in their order, with times of one word, to a file direct.log that
-- was empty, then util/playlog.py, given that file alone, shows one connection, with its times and
-- every text that was handed to a send, with the side that it came from, in the order in which the
-- texts crossed, and nothing else.
pub direct_service_replayed :
    (answers : Trace → Outcome (Unit {0})) (found : ℕ → Bool) (turns : List Turn) (now : ℕ → Bytes)
    (logpath folder answer : Bytes) (s : Option Bytes) (files : Files)
    → appears found 0 10 ≡ true
    → All IsTurn turns
    → ((k : ℕ) → IsStamp (now k))
    → crossed (direct_service answers found turns []) ≢ []
    → files (forward_log direct logpath) ≡ []
    → forward_replay direct folder s answer (
        send_all logpath
          (stamped now 0 (emitted (direct_service answers found turns [])))
          files
          (forward_log direct logpath))
      ≡ shows_one (entries now 1 (crossed (direct_service answers found turns [])))
direct_service_replayed answers found turns now logpath folder answer s files in_time q h n e =
    let told_all = direct_service-IsTold answers found turns in_time q in
    rw told_all.events (
      forward_replay-transcript direct now 0 (crossed (direct_service answers found turns []))
        logpath folder answer s files h told_all.bytes n e)

-- What crossed a reverse connection is what its replay shows: whatever the channels answer or
-- raise, if the channel to the hacker opens, the channels deliver bytes, something crosses, and the
-- plugin log writes the events in their order, with times of one word, to the logs of an address
-- whose reverse.log was empty, then util/playlog.py, given that reverse.log alone, shows one
-- connection, with its times and every text that was handed to a send, with the side that it came
-- from, in the order in which the texts crossed, and nothing else.
pub reverse_handler2_replayed :
    (answers : Trace → Outcome (Unit {0})) (ends : Bytes) (turns : List Turn) (now : ℕ → Bytes)
    (logpath folder answer : Bytes) (s : Option Bytes) (files : Files)
    → All IsTurn turns
    → ((k : ℕ) → IsStamp (now k))
    → crossed (reverse_handler2 answers true ends turns []) ≢ []
    → files (forward_log reverse logpath) ≡ []
    → forward_replay reverse folder s answer (
        send_all logpath
          (stamped now 0 (emitted (reverse_handler2 answers true ends turns [])))
          files
          (forward_log reverse logpath))
      ≡ shows_one (entries now 2 (crossed (reverse_handler2 answers true ends turns [])))
unfolding stamped send_all
reverse_handler2_replayed answers ends turns now logpath folder answer s files q h n e =
    let told_all = reverse_handler2-IsTold answers ends turns q in
    rw told_all.events (
      forward_replay-transcript reverse now 1
        (crossed (reverse_handler2 answers true ends turns [])) logpath folder answer s
        (send logpath (now 0) (ends_event ends) files) h told_all.bytes n
        (send-noted (action reverse) refl (unfold bytes_eq in refl) logpath (now 0) (action reverse)
            ends files
          ∙ e))
