-- ===== src/Sftp/Server.antt =====
-- `sftp_server`: the methods on paths (wetland/server/sftpServer.py).
pub mod Laws
use wetland.Prelude.{
  ℕ, ◌/◌, ◌%◌, ◌^◌, Bytes, codes, join, Bool, true, false, ◌&&◌, List, [], ◌∷◌, ◌++◌, Option, none,
  some, ◌==◌, if◌then◌else◌,
}
use wetland.Prelude.Py.{
  Py, Outcome, PyError, returned, raised, pure, raise, io_error, attribute_error, type_error,
  settle, try_except_else, ◌>>=◌, ◌>>◌,
}
use wetland.Sftp.{
  Client, Handle, Session, Answer, Attributes, code, attributes, listing, handle, target, sftp_ok,
  tell, ask, attempt, done, converted,
}

-- flags & (1 << k), for the flags of Linux: O_WRONLY is bit 0, O_RDWR 1, O_CREAT 6, O_APPEND 10.
abbrev pub has_bit : ℕ → ℕ → Bool
has_bit k flags = flags / 2 ^ k % 2 == 1

-- canonicalize
unfoldable pub canonicalize : Bytes → Bytes
canonicalize path = path

module _ (C : Client) (convert_errno : ℕ → ℕ) where
  open C use {World}

  -- self.opt.o("sftpserver", action, content)
  unfoldable pub tell_server : Bytes → Bytes → Py (Session World) (Unit {0})
  unfolding tell
  tell_server action content = tell (codes "sftpserver") action content

  -- sftp_server.__init__, with what opening the client and its getcwd do
  unfoldable pub sftp_server_init :
      Outcome (Unit {0}) → Outcome (Option Bytes) → Py (Session World) (Option Bytes)
  unfolding tell_server
  sftp_server_init client getcwd = do
    (λ s. (client, s))
    root ← (λ s. (getcwd, s))
    tell_server (codes "init") (codes "success")
    pure root

  unfoldable pub list_folder : Bytes → Py (Session World) Answer
  unfolding tell_server ask attempt
  list_folder path = do
    tell_server (codes "list") path
    attempt convert_errno (ask (C.listdir_attr path)) listing

  unfoldable pub stat : Bytes → Py (Session World) Answer
  unfolding tell_server ask attempt
  stat path = do
    tell_server (codes "stat") path
    attempt convert_errno (ask (C.stat path)) attributes

  unfoldable pub lstat : Bytes → Py (Session World) Answer
  unfolding tell_server ask attempt
  lstat path = do
    tell_server (codes "lstat") path
    attempt convert_errno (ask (C.lstat path)) attributes

  -- if test: m
  unfoldable pub when : Bool → Py World (Unit {0}) → Py (Session World) (Unit {0})
  unfolding ask
  when test m = if test then ask m else pure tt

  -- The four changes of chattr, in the order of the code.
  unfoldable pub change_attributes : Bytes → Attributes → Py (Session World) (Unit {0})
  unfolding when
  change_attributes path attr = do
    when attr.permissions (C.chmod path attr.st_mode)
    when attr.uidgid (C.chown path attr.st_uid attr.st_gid)
    when attr.amtime (C.utime path attr.st_atime attr.st_mtime)
    when attr.size (C.truncate path attr.st_size)

  unfoldable pub chattr : Bytes → Attributes → Py (Session World) Answer
  unfolding tell_server change_attributes attempt
  chattr path attr = do
    tell_server (codes "chattr") path
    attempt convert_errno (change_attributes path attr) done

  -- Lines 114 to 116: the attributes of a file that is created, without the permissions.
  unfoldable pub create_attributes : Bytes → ℕ → Option Attributes → Py (Session World) (Unit {0})
  unfolding chattr
  create_attributes path flags none = pure tt
  create_attributes path flags (some attr) =
      if has_bit 6 flags
      then (do chattr path (record attr { permissions = false }); pure tt)
      else pure tt

  -- The mode of the remote file.
  unfoldable pub mode : ℕ → Bytes
  mode flags =
      if has_bit 0 flags
      then (if has_bit 10 flags then codes "ab" else codes "wb")
      else if has_bit 1 flags
      then (if has_bit 10 flags then codes "a+b" else codes "r+b")
      else codes "rb"

  -- Lines 118 to 132: only a file opened with O_WRONLY gets a copy, at a path that is not used yet.
  unfoldable pub open_copy : Bytes → ℕ → Py (Session World) (Option ℕ)
  unfolding ask mode
  open_copy save_path flags =
      if has_bit 0 flags
      then (do file ← ask (C.open_local save_path (mode flags)); pure (some file))
      else pure none

  unfoldable pub open_file : Bytes → Bytes → ℕ → Option Attributes → Py (Session World) Answer
  unfolding create_attributes open_copy tell_server ask mode attempt
  open_file save_path path flags attr = do
    create_attributes path flags attr
    save_file ← open_copy save_path flags
    tell_server (codes "open") path
    attempt convert_errno (ask (C.open_remote path (mode flags)))
        (λ file. handle (record { file_name = path; remote_file = file; save_file = save_file }))

  unfoldable pub remove : Bytes → Py (Session World) Answer
  unfolding tell_server ask attempt
  remove path = do
    tell_server (codes "remove") path
    attempt convert_errno (ask (C.remove path)) done

  unfoldable pub rename : Bytes → Bytes → Py (Session World) Answer
  unfolding tell_server ask attempt
  rename oldpath newpath = do
    tell_server (codes "rename") (join (codes "->") (oldpath ∷ newpath ∷ []))
    attempt convert_errno (ask (C.rename oldpath newpath)) done

  unfoldable pub mkdir : Bytes → Py (Session World) Answer
  unfolding tell_server ask attempt
  mkdir path = do tell_server (codes "mkdir") path; attempt convert_errno (ask (C.mkdir path)) done

  unfoldable pub rmdir : Bytes → Py (Session World) Answer
  unfolding tell_server ask attempt
  rmdir path = do tell_server (codes "rmdir") path; attempt convert_errno (ask (C.rmdir path)) done

  -- '->'.join(target_path, path): `join` takes one argument.
  unfoldable pub join_two : Bytes → Bytes → Py (Session World) Bytes
  join_two target_path path = raise type_error

  unfoldable pub symlink : Bytes → Bytes → Py (Session World) Answer
  unfolding join_two tell_server ask attempt
  symlink target_path path = do
    content ← join_two target_path path
    tell_server (codes "symlink") content
    attempt convert_errno (ask (C.symlink target_path path)) done

  unfoldable pub readlink : Bytes → Py (Session World) Answer
  unfolding tell_server ask attempt
  readlink path = do
    tell_server (codes "readlink") path
    attempt convert_errno (ask (C.readlink path)) target
