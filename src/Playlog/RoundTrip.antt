-- ===== src/Playlog/RoundTrip.antt =====
-- The log that the plugin `log` writes (wetland/output_plugin/log.py), read back by `get`
-- (util/playlog.py).
use wetland.Prelude.{
  Bytes, codes, if◌then◌else◌, bytes_eq, split, read_lines, contains, All, is_empty, List, [], ◌∷◌,
  ◌++◌, append_assoc, ◌≡◌, refl, arith, path_join, Files, map, ◌∙◌, append-nil,
}
use wetland.Prelude.Py.{Outcome, returned, raised}
use wetland.Log.{send_all}
use wetland.Relay.{marker}
use wetland.Playlog.{Entry, Session, Reader, read_line, read_each, shell_get}
use wetland.Playlog.Lines.{
  Recording, IsStamp, IsEntry, IsRecording, line, entry_pair, pairs, transcript, words-coded,
  contains-coded, add_entry-coded, words-marker, read_lines-send_all,
}

-- The sessions that `get` finds: empty ones are dropped, but for the last.
abbrev pub played : List Session → List Session
played [] = [] ∷ []
played (d ∷ []) = d ∷ []
played (d ∷ e ∷ ds) = if is_empty d then played (e ∷ ds) else d ∷ played (e ∷ ds)

read_line-coded :
    (e : Entry) (r : Reader)
    → IsEntry e
    → read_line (line (entry_pair e)) r ≡ (returned tt, record r { datas = r.datas ++ e ∷ [] })
unfolding read_line
read_line-coded e r h = rw (words-coded e h, contains-coded e) (add_entry-coded e r h)

read_line-marker :
    (t : Bytes) (r : Reader)
    → IsStamp t
    → read_line (line (t, marker)) r ≡ (
        if is_empty r.datas
        then (returned tt, r)
        else (returned tt, record { sessions = r.sessions ++ r.datas ∷ []; datas = [] }))
unfolding read_line split contains bytes_eq
read_line-marker t r h = rw (words-marker t h) refl

read_each-entries :
    (es : Session) (l : List (Bytes × Bytes)) (r : Reader)
    → All IsEntry es
    → read_each (map line (map entry_pair es ++ l)) r
      ≡ read_each (map line l) (record r { datas = r.datas ++ es })
unfolding read_each
read_each-entries [] l r h = rw append-nil
read_each-entries (e ∷ es) l r h = rw (read_line-coded e r h.0) (
    read_each-entries es l (record r { datas = r.datas ++ e ∷ [] }) h.1
    ∙ rw (append_assoc r.datas (e ∷ []) es))

-- A marker closes the session before it, if that holds a record.
abbrev flush : Reader → Reader
flush r =
    if is_empty r.datas then r else record { sessions = r.sessions ++ r.datas ∷ []; datas = [] }

read_each-marker :
    (t : Bytes) (l : List (Bytes × Bytes)) (r : Reader)
    → IsStamp t
    → read_each (map line ((t, marker) ∷ l)) r ≡ read_each (map line l) (flush r)
unfolding read_each
read_each-marker t l r h = rw (read_line-marker t r h) (ground arith)

-- The end of `get`, after the loop.
abbrev finish : Outcome (Unit {0}) × Reader → Outcome (List Session)
finish (returned x, r) = returned (r.sessions ++ r.datas ∷ [])
finish (raised e, r) = raised e

shell_get-finish :
    (contents : Bytes)
    → shell_get contents
      ≡ finish (read_each (read_lines contents) (record { sessions = []; datas = [] }))
unfolding shell_get
shell_get-finish contents = ground arith

finish-pairs :
    (rs : List Recording) (done : List Session) (datas : Session)
    → All IsRecording rs
    → finish (read_each (map line (pairs rs)) (record { sessions = done; datas = datas }))
      ≡ returned (done ++ played (datas ∷ map (λ (c : Recording). c.entries) rs))
finish-pairs [] done datas h = unfold read_each in refl
finish-pairs (c ∷ rs) done [] h =
    rw (read_each-marker c.start _ _ h.0.stamp, read_each-entries c.entries (pairs rs) _ h.0.each)
      (finish-pairs rs done c.entries h.1)
finish-pairs (c ∷ rs) done (d ∷ ds) h =
    rw (read_each-marker c.start _ _ h.0.stamp, read_each-entries c.entries (pairs rs) _ h.0.each)
      (finish-pairs rs (done ++ (d ∷ ds) ∷ []) c.entries h.1
        ∙ rw (append_assoc done ((d ∷ ds) ∷ []) _))

-- For any recorded sessions with times that hold no white space, directions that hold neither white
-- space nor a colon, and texts of bytes, the file to which the log plugin appends their markers and
-- hex records in order, if it was empty, is read back by get as those sessions: times, directions
-- and texts, without the empty sessions but for the last.
pub get-send_all :
    (logpath action : Bytes) (rs : List Recording) (files : Files)
    → files (path_join logpath (action ++ codes ".log")) ≡ []
    → All IsRecording rs
    → shell_get
        (send_all logpath (transcript action rs) files (path_join logpath (action ++ codes ".log")))
      ≡ returned (played ([] ∷ map (λ (c : Recording). c.entries) rs))
get-send_all logpath action rs files e h =
    rw (shell_get-finish, read_lines-send_all logpath action rs files e h) (finish-pairs rs [] [] h)

-- Two sessions of an address that are open at once: behind both markers their entries stand in one
-- file, in whatever order, and `get` reads them as one session.
sessions_mixed :
    (logpath action first second : Bytes) (mixed : Session) (files : Files)
    → files (path_join logpath (action ++ codes ".log")) ≡ []
    → IsStamp first
    → IsStamp second
    → All IsEntry mixed
    → shell_get (
        send_all logpath
          (transcript action (
            record { start = first; entries = [] }
            ∷ record { start = second; entries = mixed }
            ∷ []))
          files
          (path_join logpath (action ++ codes ".log")))
      ≡ returned (mixed ∷ [])
sessions_mixed logpath action first second mixed files e h k l =
    get-send_all logpath action
      (record { start = first; entries = [] } ∷ record { start = second; entries = mixed } ∷ [])
      files e (record { stamp = h; each = tt }, (record { stamp = k; each = l }, tt))
