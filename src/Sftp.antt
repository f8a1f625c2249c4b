-- ===== src/Sftp.antt =====
-- The SFTP subsystem: `sftp_server` and its open files (wetland/server/sftpServer.py). The
-- container's SFTP client is paramiko's and is a parameter.
pub mod Handles
pub mod Server
mod Tests
use wetland.Prelude.{
  ℕ, Bytes, codes, join, Bool, true, false, not, ◌&&◌, List, [], ◌∷◌, ◌++◌, Option, none, some,
  if◌then◌else◌,
}
use wetland.Prelude.Py.{
  Py, Outcome, PyError, returned, raised, pure, raise, io_error, attribute_error, type_error,
  settle, try_except_else, ◌>>=◌, ◌>>◌,
}
use wetland.Event.{Event}

-- What a method answers to paramiko: a code, data, attributes, a listing, a text or an open file.
pub data Reply (Attr File : Type 0) : Type 0 where
  code : ℕ → Reply Attr File
  bytes : Bytes → Reply Attr File
  target : Bytes → Reply Attr File
  attributes : Attr → Reply Attr File
  listing : List Attr → Reply Attr File
  handle : File → Reply Attr File

-- The fields of paramiko's `SFTPAttributes` that the program reads; `flags` is `_flags`, a bit each.
pub record Attributes : Type 0 where
  pub permissions : Bool
  pub uidgid : Bool
  pub amtime : Bool
  pub size : Bool
  pub st_mode : ℕ
  pub st_uid : ℕ
  pub st_gid : ℕ
  pub st_atime : ℕ
  pub st_mtime : ℕ
  pub st_size : ℕ

-- A remote file and a local one are ids; `open_local` is Python's `open` under the folder of
-- saved files, which it makes if it is not there.
pub record Client : Type 1 where
  pub World : Type 0
  pub listdir_attr : Bytes → Py World (List Attributes)
  pub stat : Bytes → Py World Attributes
  pub lstat : Bytes → Py World Attributes
  pub open_remote : Bytes → Bytes → Py World ℕ
  pub open_local : Bytes → Bytes → Py World ℕ
  pub remove : Bytes → Py World (Unit {0})
  pub mkdir : Bytes → Py World (Unit {0})
  pub rmdir : Bytes → Py World (Unit {0})
  pub rename : Bytes → Bytes → Py World (Unit {0})
  pub symlink : Bytes → Bytes → Py World (Unit {0})
  pub chmod : Bytes → ℕ → Py World (Unit {0})
  pub chown : Bytes → ℕ → ℕ → Py World (Unit {0})
  pub utime : Bytes → ℕ → ℕ → Py World (Unit {0})
  pub truncate : Bytes → ℕ → Py World (Unit {0})
  pub readlink : Bytes → Py World Bytes
  pub readable : ℕ → World → Bool
  pub writable : ℕ → World → Bool
  pub seek : ℕ → ℕ → Py World (Unit {0})
  pub read : ℕ → ℕ → Py World Bytes
  pub write : ℕ → Bytes → Py World (Unit {0})
  pub flush : ℕ → Py World (Unit {0})
  pub close : ℕ → Py World (Unit {0})
  pub stat_file : ℕ → Py World Attributes
  pub chattr_file : ℕ → Attributes → Py World (Unit {0})

-- An open file: `remote_sftp_handle`.
pub record Handle : Type 0 where
  pub file_name : Bytes
  pub remote_file : ℕ
  pub save_file : Option ℕ

abbrev pub Answer : Type 0
Answer = Reply Attributes Handle

pub record Session (World : Type 0) : Type 0 where
  pub events : List Event
  pub world : World

-- SFTP_OK and SFTP_OP_UNSUPPORTED of paramiko
abbrev pub sftp_ok : ℕ
sftp_ok = 0

abbrev pub sftp_op_unsupported : ℕ
sftp_op_unsupported = 8

module _ {World : Type 0} where
  -- self.opt.o(subject, action, content)
  unfoldable pub tell : Bytes → Bytes → Bytes → Py (Session World) (Unit {0})
  tell subject action content s = (
    returned tt,
    record s {
      events = s.events ++ record { subject = subject; action = action; content = content } ∷ [];
    },
  )

  unfoldable pub ask : {A : Type 0} → Py World A → Py (Session World) A
  ask m s = let r = m s.world in (r.0, record s { world = r.1 })

-- `SFTPServer.convert_errno` is paramiko's.
module _ {World : Type 0} (convert_errno : ℕ → ℕ) where
  -- except IOError as e: return SFTPServer.convert_errno(e.errno)
  abbrev pub converted : PyError → Py (Session World) Answer
  converted (io_error errno) = pure (code (convert_errno errno))
  converted e = raise e

  -- try: m / except IOError: the code / then the answer
  unfoldable pub attempt :
      {A : Type 0} → Py (Session World) A → (A → Answer) → Py (Session World) Answer
  attempt m reply = try_except_else m converted (λ a. pure (reply a))

-- else: return SFTP_OK
abbrev pub done : Unit {0} → Answer
done x = code sftp_ok
