-- ===== src/Sftp/Tests.antt =====
-- Requests to a client that counts its calls and grants them all.
use wetland.Prelude.{ℕ, ◌+◌, codes, [], ◌∷◌, true, false, none, some, ◌≡◌, ◌≢◌, refl}
use wetland.Prelude.Py.{Py, returned, raised, io_error}
use wetland.Sftp.{Client, Handle, Session, Attributes, handle}
use wetland.Sftp.Server.{open_file}
use wetland.Sftp.Server.Laws.{removal, reported, serve, events-serve, serve_no_io_error}

abbrev granted : Py ℕ (Unit {0})
granted n = (returned tt, n + 1)

abbrev plain : Attributes
plain = record {
  permissions = true;
  uidgid = false;
  amtime = false;
  size = false;
  st_mode = 420;
  st_uid = 0;
  st_gid = 0;
  st_atime = 0;
  st_mtime = 0;
  st_size = 0;
}

abbrev client : Client
client = record {
  World = ℕ;
  listdir_attr = λ _ n. (returned (plain ∷ []), n + 1);
  stat = λ _ n. (returned plain, n + 1);
  lstat = λ _ n. (returned plain, n + 1);
  open_remote = λ _ _ n. (returned n, n + 1);
  open_local = λ _ _ n. (returned n, n + 1);
  remove = λ _ n. (raised (io_error 2), n + 1);
  mkdir = λ _. granted;
  rmdir = λ _. granted;
  rename = λ _ _. granted;
  symlink = λ _ _. granted;
  chmod = λ _ _. granted;
  chown = λ _ _ _. granted;
  utime = λ _ _ _. granted;
  truncate = λ _ _. granted;
  readlink = λ _ n. (returned [], n + 1);
  readable = λ _ _. true;
  writable = λ _ _. true;
  seek = λ _ _. granted;
  read = λ _ _ n. (returned [], n + 1);
  write = λ _ _. granted;
  flush = λ _. granted;
  close = λ _. granted;
  stat_file = λ _ n. (returned plain, n + 1);
  chattr_file = λ _ _. granted;
}

abbrev same : ℕ → ℕ
same n = n

abbrev start : Session ℕ
start = record { events = []; world = 5 }

-- O_RDWR: no copy
abbrev shared : Handle
shared = record { file_name = codes "a"; remote_file = 5; save_file = none }

-- O_WRONLY: with a copy
abbrev uploaded : Handle
uploaded = record { file_name = codes "a"; remote_file = 6; save_file = some 5 }

opened :
    (open_file client same (codes "files/1") (codes "a") 1 (some plain) start).0
    ≡ returned (handle uploaded)
unfolding open_file
opened = refl

events-serve_example :
    (serve client same (removal (codes "a")) start).1.events ≡ reported (removal (codes "a")) ∷ []
events-serve_example = events-serve client same (removal (codes "a")) start

serve_no_io_error_example : (serve client same (removal (codes "a")) start).0 ≢ raised (io_error 2)
serve_no_io_error_example = serve_no_io_error client same (removal (codes "a")) start 2
