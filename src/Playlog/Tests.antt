-- ===== src/Playlog/Tests.antt =====
-- A log of two sessions, written and read back.
use wetland.Prelude.{Bytes, bytes_eq, codes, none, List, [], ◌∷◌, ◌++◌, ◌≡◌, refl, arith, path_join}
use wetland.Prelude.Py.{returned}
use wetland.Log.{send_all}
use wetland.Playlog.{Entry, shell_get}
use wetland.Playlog.Players.{print, detected}
use wetland.Playlog.Program.{playlog}
use wetland.Forward.{direct}
use wetland.Playlog.Replayed.{
  shown_acts, last_time, shown_entries, forward_log, log_name, playlog-send_all,
}
use wetland.Playlog.Lines.{Recording, IsStamp, IsEntry, transcript}
use wetland.Playlog.RoundTrip.{get-send_all}

abbrev at_noon : Bytes
at_noon = codes "180101-12:00:00"

abbrev typed : Entry
typed = record { time = at_noon; direction = codes "[H]"; text = codes "l" }

abbrev shown : Entry
shown = record { time = at_noon; direction = codes "[V]"; text = codes "a: b" }

abbrev recordings : List Recording
recordings =
    record { start = at_noon; entries = typed ∷ shown ∷ [] }
    ∷ record { start = at_noon; entries = shown ∷ [] }
    ∷ []

at_noon-IsStamp : IsStamp at_noon
at_noon-IsStamp = record { solid = ground arith; some_text = λ e. cc }

typed-IsEntry : IsEntry typed
typed-IsEntry = record {
  stamp = at_noon-IsStamp;
  word = ground arith;
  no_colon = ground arith;
  bytes = ground arith;
}

shown-IsEntry : IsEntry shown
shown-IsEntry = record {
  stamp = at_noon-IsStamp;
  word = ground arith;
  no_colon = ground arith;
  bytes = ground arith;
}

get-send_all_example :
    shell_get (
      send_all
        (codes "log/10.0.0.1")
        (transcript (codes "shell") recordings)
        (λ p. [])
        (path_join (codes "log/10.0.0.1") (codes "shell" ++ codes ".log")))
    ≡ returned ((typed ∷ shown ∷ []) ∷ (shown ∷ []) ∷ [])
get-send_all_example =
    get-send_all (codes "log/10.0.0.1") (codes "shell") recordings (λ p. []) refl
      (
        record { stamp = at_noon-IsStamp; each = (typed-IsEntry, (shown-IsEntry, tt)) },
        (record { stamp = at_noon-IsStamp; each = (shown-IsEntry, tt) }, tt),
      )

-- A forwarded request and its answer, and a connection with an answer alone.
abbrev forwarded : Recording
forwarded = record { start = at_noon; entries = typed ∷ shown ∷ [] }

abbrev answered : Recording
answered = record { start = at_noon; entries = shown ∷ [] }

playlog-send_all_example :
    playlog
      (record { t = none; p = codes "log/10.0.0.1" ++ log_name direct; s = none })
      (send_all
        (codes "log/10.0.0.1")
        (transcript (codes "direct") (forwarded ∷ answered ∷ []))
        (λ p. [])
        (forward_log direct (codes "log/10.0.0.1")))
      []
      (record { acts = []; writes = [] })
    ≡ (
      returned tt,
      record {
        acts =
            print (detected ((typed ∷ shown ∷ []) ∷ (shown ∷ []) ∷ []))
            ∷ print (at_noon ++ (codes " -------> " ++ at_noon))
            ∷ print (codes "Hacker send")
            ∷ print typed.text
            ∷ print (codes "Docker send")
            ∷ print shown.text
            ∷ print (at_noon ++ (codes " -------> " ++ at_noon))
            ∷ print (codes "Docker send")
            ∷ print shown.text
            ∷ [];
        writes = [];
      },
    )
unfolding shown_acts last_time shown_entries bytes_eq
playlog-send_all_example =
    playlog-send_all direct (codes "log/10.0.0.1") (codes "log/10.0.0.1") [] none forwarded
      (answered ∷ []) (λ p. []) refl
      (
        record { stamp = at_noon-IsStamp; each = (typed-IsEntry, (shown-IsEntry, tt)) },
        (record { stamp = at_noon-IsStamp; each = (shown-IsEntry, tt) }, tt),
      )
      ((λ e. cc), ((λ e. cc), tt))
