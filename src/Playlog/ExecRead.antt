-- ===== src/Playlog/ExecRead.antt =====
-- The log of one exec session as `exec_player.get` reads it (util/playlog.py).
use wetland.Prelude.{
  Bytes, codes, bytes_eq, contains, Files, path_join, All, map, [], ◌∷◌, ◌++◌, append_assoc,
  append-nil, ◌≡◌, refl,
}
use wetland.Prelude.Py.{returned}
use wetland.Relay.{marker}
use wetland.Log.{send_all}
use wetland.Playlog.{Entry, Session}
use wetland.Playlog.Lines.{
  Recording, IsRecording, IsStamp, IsEntry, entry_pair, line, transcript, words-coded, words-marker,
  contains-coded, add_entry-coded, read_lines-send_all,
}
use wetland.Playlog.ExecPlayer.{
  ExecReader, exec_line, exec_parts, end_exec_session, settle_last, exec_each, exec_get,
  settle_session,
}
use wetland.Playlog.Program.{fresh_reader}

-- A reader with the entries of the session so far.
abbrev pub reading : Session → ExecReader → ExecReader
reading es s = record s { reader = record { sessions = s.reader.sessions; datas = es } }

exec_line-coded :
    (save_path : Bytes) (e : Entry) (s : ExecReader)
    → IsEntry e
    → exec_line save_path (line (entry_pair e)) s
      ≡ (returned tt, reading (s.reader.datas ++ e ∷ []) s)
unfolding exec_line exec_parts
exec_line-coded save_path e s h =
    rw (words-coded e h, contains-coded e) (rw (add_entry-coded e s.reader h) refl)

exec_line-marker :
    (save_path now : Bytes)
    → IsStamp now
    → exec_line save_path (line (now, marker)) fresh_reader ≡ (returned tt, fresh_reader)
unfolding exec_line exec_parts end_exec_session contains bytes_eq
exec_line-marker save_path now h = rw (words-marker now h) refl

exec_each-entries :
    (save_path : Bytes) (es : Session) (s : ExecReader)
    → All IsEntry es
    → exec_each save_path (map line (map entry_pair es)) s
      ≡ (returned tt, reading (s.reader.datas ++ es) s)
unfolding exec_each
exec_each-entries save_path [] s h = rw append-nil refl
exec_each-entries save_path (e ∷ es) s h =
    rw
      (
        exec_line-coded save_path e s h.0,
        exec_each-entries save_path es (reading (s.reader.datas ++ e ∷ []) s) h.1,
        append_assoc s.reader.datas (e ∷ []) es,
      )
      refl

-- A log of one session: the session is settled.
pub exec_get-send_all :
    (save_path logpath : Bytes) (r : Recording) (files : Files)
    → files (path_join logpath (codes "exec.log")) ≡ []
    → IsRecording r
    → exec_get save_path
        (send_all logpath
          (transcript (codes "exec") (r ∷ []))
          files
          (path_join logpath (codes "exec.log")))
        fresh_reader
      ≡ settle_session save_path r.entries (reading r.entries fresh_reader)
unfolding exec_get exec_each settle_last
exec_get-send_all save_path logpath r files e h =
    rw
      (
        read_lines-send_all logpath (codes "exec") (r ∷ []) files e (h, tt),
        append-nil (map entry_pair r.entries),
        exec_line-marker save_path r.start h.stamp,
        exec_each-entries save_path r.entries fresh_reader h.each,
      )
      refl
