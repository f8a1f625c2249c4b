-- ===== src/Playlog/Lines.antt =====
-- The lines that the plugin `log` writes for the sessions of a service
-- (wetland/output_plugin/log.py), and their words.
use wetland.Prelude.{
  bytes_eq_refl, Bytes, codes, bytes_eq, hex_encode, split, strip, true, read_lines, contains,
  IsSolid, IsByte, Lacks, All, List, [], ◌∷◌, ◌++◌, append_assoc, ◌≡◌, ◌≢◌, refl, arith,
  append_file, path_join, strip_line, split-append, split_word, contains-append, read_lines-append,
  IsSolid-Lacks, hex_decode-encode, hex_encode-IsSolid, hex_encode-Lacks, All-append, Files, map,
  join, ap, sym, append-nil,
}
use wetland.Prelude.Py.{returned}
use mathlib.Core.List.{flat_map, map-append}
use wetland.Event.{Event, content_subject}
use wetland.Log.{send_all}
use wetland.Relay.{marker}
use wetland.Playlog.{Entry, Session, Reader, add_entry}

-- What a service recorded: the time of its marker, and what was sent in either direction.
pub record Recording : Type 0 where
  pub start : Bytes
  pub entries : Session

pub record IsStamp (t : Bytes) : Type 0 where
  pub solid : IsSolid t
  pub some_text : t ≢ []

-- A direction is a word in brackets, and a text holds bytes.
pub record IsEntry (e : Entry) : Type 0 where
  pub stamp : IsStamp e.time
  pub word : IsSolid e.direction
  pub no_colon : Lacks b':' e.direction
  pub bytes : All IsByte e.text

pub record IsRecording (r : Recording) : Type 0 where
  pub stamp : IsStamp r.start
  pub each : All IsEntry r.entries

-- '[H]:' + text.encode("hex")
abbrev pub coded : Entry → Bytes
coded e = e.direction ++ b':' ∷ hex_encode e.text

-- A line of the file: ' '.join([time, text, '\n']).
abbrev pub line : Bytes × Bytes → Bytes
line (now, text) = now ++ 32 ∷ (text ++ 32 ∷ 10 ∷ [])

-- The time and the text of each record, in the order in which they are written.
abbrev pub entry_pair : Entry → Bytes × Bytes
entry_pair e = (e.time, coded e)

abbrev pub pairs : List Recording → List (Bytes × Bytes)
pairs [] = []
pairs (r ∷ rs) = (r.start, marker) ∷ (map entry_pair r.entries ++ pairs rs)

abbrev pub content_event : Bytes → Bytes × Bytes → Bytes × Event
content_event action (now, text) =
    (now, record { subject = content_subject; action = action; content = text })

-- What a service emits for its recordings, with the times.
abbrev pub transcript : Bytes → List Recording → List (Bytes × Event)
transcript action rs = map (content_event action) (pairs rs)

word_not_empty : (a b : Bytes) (c : _) → a ++ c ∷ b ≢ []
word_not_empty [] b c h = cc
word_not_empty (x ∷ a) b c h = cc

coded-IsSolid : (e : Entry) → IsEntry e → IsSolid (coded e)
coded-IsSolid e h =
    All-append _ e.direction (b':' ∷ hex_encode e.text) h.word (refl, hex_encode-IsSolid e.text)

-- The two words of a line.
pub words-line :
    (now text : Bytes)
    → IsStamp now
    → IsSolid text
    → text ≢ []
    → split 32 (strip (line (now, text))) ≡ now ∷ text ∷ []
words-line now text h solid some_text =
    rw (strip_line now text h.solid h.some_text solid some_text) (
      rw (
        split-append 32 now text (IsSolid-Lacks 32 now refl h.solid),
        split_word 32 text (IsSolid-Lacks 32 text refl solid),
      ))

pub words-coded :
    (e : Entry) → IsEntry e → split 32 (strip (line (entry_pair e))) ≡ e.time ∷ coded e ∷ []
words-coded e h =
    words-line e.time (coded e) h.stamp (coded-IsSolid e h)
      (word_not_empty e.direction (hex_encode e.text) b':')

pub contains-coded : (e : Entry) → contains b':' (coded e) ≡ true
contains-coded e = contains-append b':' e.direction (hex_encode e.text)

pub add_entry-coded :
    (e : Entry) (r : Reader)
    → IsEntry e
    → add_entry e.time (coded e) r ≡ (returned tt, record r { datas = r.datas ++ e ∷ [] })
unfolding add_entry
add_entry-coded e r h = rw (
  split-append b':' e.direction (hex_encode e.text) h.no_colon,
  split_word b':' (hex_encode e.text) (hex_encode-Lacks e.text h.bytes),
  hex_decode-encode e.text h.bytes,
)

marker-IsSolid : IsSolid marker
marker-IsSolid = ground arith

pub words-marker :
    (now : Bytes) → IsStamp now → split 32 (strip (line (now, marker))) ≡ now ∷ marker ∷ []
words-marker now h = words-line now marker h marker-IsSolid (λ e. cc)

pub send_all-content :
    (logpath action : Bytes) (l : List (Bytes × Bytes)) (files : Files)
    → send_all logpath
        (map (content_event action) l)
        files
        (path_join logpath (action ++ codes ".log"))
      ≡ files (path_join logpath (action ++ codes ".log")) ++ flat_map line l
unfolding send_all append_file join flat_map bytes_eq
send_all-content logpath action [] files = sym (append-nil _)
send_all-content logpath action ((t, w) ∷ l) files =
    rw
      (
        send_all-content logpath action l _,
        bytes_eq_refl (path_join logpath (action ++ codes ".log")),
      )
      (append_assoc _ (line (t, w)) (flat_map line l))

IsLine : Bytes × Bytes → Type 0
IsLine (t, w) = Lacks b'\n' t × Lacks b'\n' w

line-append : (t w b : Bytes) → line (t, w) ++ b ≡ (t ++ 32 ∷ (w ++ 32 ∷ [])) ++ 10 ∷ b
line-append t w b = simp append_assoc

read_lines-flat :
    (l : List (Bytes × Bytes)) → All IsLine l → read_lines (flat_map line l) ≡ map line l
unfolding flat_map IsLine
read_lines-flat [] h = unfold read_lines in refl
read_lines-flat ((t, w) ∷ l) h =
    rw
      (
        line-append t w (flat_map line l),
        read_lines-append (t ++ 32 ∷ (w ++ 32 ∷ [])) (flat_map line l) (
            All-append _ t (32 ∷ (w ++ 32 ∷ [])) h.0.0
              (refl, All-append _ w (32 ∷ []) h.0.1 (refl, tt))),
      )
      (rw (read_lines-flat l h.1) (ap (λ (x : Bytes). x ∷ map line l) (simp append_assoc)))

entries-IsLine : (es : Session) → All IsEntry es → All IsLine (map entry_pair es)
unfolding IsLine
entries-IsLine [] h = tt
entries-IsLine (e ∷ es) h = (
  (
    IsSolid-Lacks b'\n' e.time refl h.0.stamp.solid,
    IsSolid-Lacks b'\n' (coded e) refl (coded-IsSolid e h.0),
  ),
  entries-IsLine es h.1,
)

pairs-IsLine : (rs : List Recording) → All IsRecording rs → All IsLine (pairs rs)
unfolding IsLine
pairs-IsLine [] h = tt
pairs-IsLine (c ∷ rs) h = (
  (
    IsSolid-Lacks b'\n' c.start refl h.0.stamp.solid,
    IsSolid-Lacks b'\n' marker refl marker-IsSolid,
  ),
  All-append _ (map entry_pair c.entries) (pairs rs) (entries-IsLine c.entries h.0.each)
      (pairs-IsLine rs h.1),
)

pub read_lines-send_all :
    (logpath action : Bytes) (rs : List Recording) (files : Files)
    → files (path_join logpath (action ++ codes ".log")) ≡ []
    → All IsRecording rs
    → read_lines
        (send_all logpath (transcript action rs) files (path_join logpath (action ++ codes ".log")))
      ≡ map line (pairs rs)
read_lines-send_all logpath action rs files e h = rw (
  send_all-content logpath action (pairs rs) files,
  e,
  read_lines-flat (pairs rs) (pairs-IsLine rs h),
)

pairs-append : (rs ss : List Recording) → pairs (rs ++ ss) ≡ pairs rs ++ pairs ss
pairs-append [] ss = refl
pairs-append (r ∷ rs) ss = rw (pairs-append rs ss) (
    ap (λ l. (r.start, marker) ∷ l)
      (sym (append_assoc (map entry_pair r.entries) (pairs rs) (pairs ss))))

pub transcript-append :
    (action : Bytes) (rs ss : List Recording)
    → transcript action (rs ++ ss) ≡ transcript action rs ++ transcript action ss
transcript-append action rs ss = rw (pairs-append rs ss, map-append) refl

pub send_all-append :
    (logpath : Bytes) (es fs : List (Bytes × Event)) (files : Files)
    → send_all logpath (es ++ fs) files ≡ send_all logpath fs (send_all logpath es files)
unfolding send_all
send_all-append logpath [] fs files = refl
send_all-append logpath ((now, e) ∷ es) fs files = send_all-append logpath es fs _
