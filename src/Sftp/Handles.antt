-- ===== src/Sftp/Handles.antt =====
-- `remote_sftp_handle`: the methods of an open file (wetland/server/sftpServer.py).
pub mod Laws
use wetland.Prelude.{
  ℕ, Bytes, codes, Bool, true, false, not, List, [], ◌∷◌, ◌++◌, Option, none, some, if◌then◌else◌,
}
use wetland.Prelude.Py.{
  Py, Outcome, PyError, returned, raised, pure, raise, io_error, attribute_error, settle,
  try_except_else, ◌>>=◌, ◌>>◌,
}
use wetland.Sftp.{
  Client, Handle, Session, Answer, Attributes, code, bytes, attributes, sftp_ok,
  sftp_op_unsupported, tell, ask, attempt, done, converted,
}

module _ (C : Client) (convert_errno : ℕ → ℕ) where
  open C use {World}

  -- self.opt.o("sftpfile", action, self.file_name)
  unfoldable pub tell_file : Handle → Bytes → Py (Session World) (Unit {0})
  unfolding tell
  tell_file h action = tell (codes "sftpfile") action h.file_name

  -- Lines 20 to 23: `output` has no method `upfile`, so the last call raises.
  unfoldable pub save_upload : Handle → Option ℕ → Py (Session World) (Unit {0})
  unfolding ask tell
  save_upload h none = pure tt
  save_upload h (some save_file) = do
    ask (C.close save_file)
    tell (codes "upfile") (codes "sftp") h.file_name
    raise attribute_error

  unfoldable pub close_handle : Handle → Py (Session World) (Unit {0})
  unfolding tell_file ask save_upload
  close_handle h = do
    tell_file h (codes "close")
    ask (C.close h.remote_file)
    save_upload h h.save_file

  unfoldable pub read_handle : Handle → ℕ → ℕ → Py (Session World) Answer
  unfolding tell_file ask attempt
  read_handle h offset count = do
    tell_file h (codes "read")
    λ s.
        if not (C.readable h.remote_file s.world)
        then (returned (code sftp_op_unsupported), s)
        else attempt convert_errno
            (do ask (C.seek h.remote_file offset); ask (C.read h.remote_file count)) bytes s

  -- Lines 43 to 45, and 47 to 49 for the copy: seek, write, flush.
  unfoldable pub write_at : ℕ → ℕ → Bytes → Py (Session World) (Unit {0})
  unfolding ask
  write_at file offset text = do
    ask (C.seek file offset)
    ask (C.write file text)
    ask (C.flush file)

  -- Without a copy, `self.save_file.seek` is an attribute of `None`.
  unfoldable pub write_copy : Option ℕ → ℕ → Bytes → Py (Session World) (Unit {0})
  write_copy none offset text = raise attribute_error
  write_copy (some save_file) offset text = write_at save_file offset text

  unfoldable pub write_handle : Handle → ℕ → Bytes → Py (Session World) Answer
  unfolding tell_file write_copy attempt
  write_handle h offset text = do
    tell_file h (codes "write")
    λ s.
        if not (C.writable h.remote_file s.world)
        then (returned (code sftp_op_unsupported), s)
        else attempt convert_errno
            (do write_at h.remote_file offset text; write_copy h.save_file offset text) done s

  unfoldable pub stat_handle : Handle → Py (Session World) Answer
  unfolding tell_file ask attempt
  stat_handle h = do
    tell_file h (codes "stat")
    attempt convert_errno (ask (C.stat_file h.remote_file)) attributes

  unfoldable pub chattr_handle : Handle → Attributes → Py (Session World) Answer
  unfolding tell_file ask attempt
  chattr_handle h attr = do
    tell_file h (codes "chattr")
    attempt convert_errno (ask (C.chattr_file h.remote_file attr)) done
