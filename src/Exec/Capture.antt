-- ===== src/Exec/Capture.antt =====
-- The copy of an upload leaves the trace alone (wetland/services/exec_service.py).
use wetland.Prelude.{ℕ, ◌+◌, Bytes, re_match, length, reaches}
use wetland.Prelude.Py.{lift}
use wetland.Relay.{Trace}
use wetland.Relay.Keeps.{Keeps, if-Keeps, Keeps-bind, Keeps-next}
use wetland.Exec.{
  Exec, ScpFile, unbound, opened, closed, capture, start_file, keep_text, write_scpfile, advance,
  open_scpfile, file_header, set_filelen, length_field,
}

-- What holds of the trace.
module _ (P : Trace → Type 0) where
  abbrev Holds : Exec → Type 0
  Holds s = P s.trace

  write_scpfile-Keeps : (text : Bytes) (f : ScpFile) → Keeps Holds (write_scpfile text f)
  unfolding write_scpfile
  write_scpfile-Keeps text unbound s h = h
  write_scpfile-Keeps text (opened c) s h = h
  write_scpfile-Keeps text closed s h = h

  advance-Keeps : (n : ℕ) → Keeps Holds (advance n)
  unfolding advance
  advance-Keeps n s h = if-Keeps Holds (reaches (s.nowlen + n) s.filelen) _ _ h h

  keep_text-Keeps : (text : Bytes) → Keeps Holds (keep_text text)
  unfolding keep_text
  keep_text-Keeps text s h = if-Keeps Holds (reaches s.nowlen s.filelen) _ _ h (
      Keeps-next Holds (write_scpfile text s.scpfile) (advance (length text))
        (write_scpfile-Keeps text s.scpfile) (advance-Keeps (length text)) s h)

  start_file-Keeps : (text : Bytes) → Keeps Holds (start_file text)
  unfolding start_file
  start_file-Keeps text s h =
      Keeps-bind Holds (lift (length_field text)) set_filelen (λ s h. h) (λ n s h. h)
        (open_scpfile s).1 h

  pub capture-Keeps : (text : Bytes) → Keeps Holds (capture text)
  unfolding capture
  capture-Keeps text s h =
      if-Keeps Holds (re_match file_header text) (start_file text s) (keep_text text s)
        (start_file-Keeps text s h) (keep_text-Keeps text s h)
