-- ===== src/Playlog/Items.antt =====
-- The events of a session as the lines of its log, among them those that go to wetland.log
-- (wetland/services, wetland/output_plugin/log.py, util/playlog.py).
use wetland.Prelude.{
  ℕ, suc, Bytes, codes, bytes_eq, bytes_eq-path_join, starts_with_slash, path_join, append_file,
  Files, IsByte, IsSolid, Lacks, All, map, List, [], ◌∷◌, ◌++◌, append-nil, append_assoc, false,
  ◌≡◌, ◌≢◌, refl, ap, sym, ◌∙◌, arith,
}
use wetland.Event.{Event, wetland_subject}
use wetland.Relay.{Side, hacker, docker, marker, text_event, content_event as session_event}
use wetland.Log.{send, send_all}
use wetland.Playlog.{Session}
use wetland.Playlog.Lines.{
  IsStamp, IsEntry, entry_pair, content_event, transcript, send_all-content,
}

-- The events with the time at which the plugin writes each: `now n` is that of the n-th.
unfoldable pub stamped : (ℕ → Bytes) → ℕ → List Event → List (Bytes × Event)
stamped now n [] = []
stamped now n (e ∷ es) = (now n, e) ∷ stamped now (suc n) es

abbrev pub label : Side → Bytes
label hacker = codes "[H]"
label docker = codes "[V]"

pub label_word : (side : Side) → IsSolid (label side) × Lacks b':' (label side)
label_word hacker = ground arith
label_word docker = ground arith

-- What an event of a session is about: a text of a side, or a line for wetland.log.
pub data Piece : Type 0 where
  said : Side → Bytes → Piece
  noted : Bytes → Bytes → Piece

abbrev pub event_of : Bytes → Piece → Event
event_of action (said side text) = text_event action side text
event_of action (noted name text) = record {
  subject = wetland_subject;
  action = name;
  content = text;
}

abbrev texts_by : Piece → List (Side × Bytes)
texts_by (said side text) = (side, text) ∷ []
texts_by (noted name text) = []

-- The texts, with the sides that they came from.
unfoldable pub texts : List Piece → List (Side × Bytes)
texts [] = []
texts (i ∷ is) = texts_by i ++ texts is

-- The texts of the container.
abbrev pub shown_by : Piece → List Bytes
shown_by (said docker text) = text ∷ []
shown_by item = []

unfoldable pub shown : List Piece → List Bytes
shown [] = []
shown (i ∷ is) = shown_by i ++ shown is

abbrev pub HasBytes : Piece → Type 0
HasBytes (said side text) = All IsByte text
HasBytes (noted name text) = Unit {0}

-- The items as entries of a log.
unfoldable pub entries : (ℕ → Bytes) → ℕ → List Piece → Session
entries now n [] = []
entries now n (said side text ∷ is) =
    record { time = now n; direction = label side; text = text } ∷ entries now (suc n) is
entries now n (noted name text ∷ is) = entries now (suc n) is

pub shown-append : (a b : List Piece) → shown (a ++ b) ≡ shown a ++ shown b
unfolding shown
shown-append [] b = refl
shown-append (i ∷ a) b = simp (shown-append a b, append_assoc)

pub texts-append : (a b : List Piece) → texts (a ++ b) ≡ texts a ++ texts b
unfolding texts
texts-append [] b = refl
texts-append (i ∷ a) b = simp (texts-append a b, append_assoc)

pub entries-IsEntry :
    (now : ℕ → Bytes) (n : ℕ) (is : List Piece)
    → ((k : ℕ) → IsStamp (now k))
    → All HasBytes is
    → All IsEntry (entries now n is)
unfolding entries
entries-IsEntry now n [] h b = tt
entries-IsEntry now n (said side text ∷ is) h b = (
  record { stamp = h n; word = (label_word side).0; no_colon = (label_word side).1; bytes = b.0 },
  entries-IsEntry now (suc n) is h b.1,
)
entries-IsEntry now n (noted name text ∷ is) h b = entries-IsEntry now (suc n) is h b.1

pub entries_full :
    (now : ℕ → Bytes) (n : ℕ) (is : List Piece) → shown is ≢ [] → entries now n is ≢ []
unfolding entries shown
entries_full now n [] h = absurd (h refl)
entries_full now n (said side text ∷ is) h = λ e. cc
entries_full now n (noted name text ∷ is) h = entries_full now (suc n) is h

-- The event that begins a session.
abbrev pub marker_event : Bytes → Event
marker_event action = session_event action marker

-- A log that is not wetland.log.
module _ (action : Bytes) (relative : starts_with_slash (action ++ codes ".log") ≡ false)
    (no_wetland : bytes_eq (action ++ codes ".log") (codes "wetland.log") ≡ false) where
  pub send-noted :
      (logpath now name text : Bytes) (files : Files)
      → send logpath now
          (event_of action (noted name text))
          files
          (path_join logpath (action ++ codes ".log"))
        ≡ files (path_join logpath (action ++ codes ".log"))
  unfolding send append_file bytes_eq
  send-noted logpath now name text files =
      rw
        (
          bytes_eq-path_join logpath (action ++ codes ".log") (codes "wetland.log") relative refl,
          no_wetland,
        )
        refl

  pub send_all-stamped :
      (logpath : Bytes) (now : ℕ → Bytes) (n : ℕ) (is : List Piece) (files : Files)
      → send_all logpath
          (stamped now n (map (event_of action) is))
          files
          (path_join logpath (action ++ codes ".log"))
        ≡ send_all logpath
            (map (content_event action) (map entry_pair (entries now n is)))
            files
            (path_join logpath (action ++ codes ".log"))
  unfolding send_all stamped entries
  send_all-stamped logpath now n [] files = refl
  send_all-stamped logpath now n (said hacker text ∷ is) files =
      send_all-stamped logpath now (suc n) is _
  send_all-stamped logpath now n (said docker text ∷ is) files =
      send_all-stamped logpath now (suc n) is _
  send_all-stamped logpath now n (noted name text ∷ is) files =
      let l = map entry_pair (entries now (suc n) is) in
      send_all-stamped logpath now (suc n) is _
      ∙ send_all-content logpath action l _
      ∙ rw (send-noted logpath (now n) name text files)
          (sym (send_all-content logpath action l files))

  -- The events of one session, and the recording that the log keeps of them.
  pub send_all-transcript :
      (logpath : Bytes) (now : ℕ → Bytes) (n : ℕ) (is : List Piece) (files : Files)
      → send_all logpath
          (stamped now n (marker_event action ∷ map (event_of action) is))
          files
          (path_join logpath (action ++ codes ".log"))
        ≡ send_all logpath
            (transcript action (record { start = now n; entries = entries now (suc n) is } ∷ []))
            files
            (path_join logpath (action ++ codes ".log"))
  unfolding stamped send_all
  send_all-transcript logpath now n is files =
      send_all-stamped logpath now (suc n) is _
      ∙ ap
          (λ l.
            send_all logpath ((now n, marker_event action) ∷ map (content_event action) l) files
              (path_join logpath (action ++ codes ".log")))
          (sym (append-nil (map entry_pair (entries now (suc n) is))))
