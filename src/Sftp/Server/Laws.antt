-- ===== src/Sftp/Server/Laws.antt =====
-- What the methods of `sftp_server` answer and report (wetland/server/sftpServer.py).
use wetland.Prelude.{
  ℕ, Bytes, codes, join, Bool, true, false, [], ◌∷◌, ◌++◌, Option, none, some, ◌≡◌, ◌≢◌, refl,
  arith,
}
use wetland.Prelude.Py.{Py, returned, raised, io_error}
use wetland.Event.{Event}
use wetland.Sftp.{Client, Handle, Session, Answer, Attributes, handle}
use wetland.Sftp.Server.{
  has_bit, list_folder, stat, lstat, chattr, remove, rename, mkdir, rmdir, readlink, open_file,
}

abbrev pub has_copy : Option ℕ → Bool
has_copy none = false
has_copy (some file) = true

-- The requests on paths that have one call of the client, and chattr.
pub data Request : Type 0 where
  listing : Bytes → Request
  stat_of : Bytes → Request
  lstat_of : Bytes → Request
  removal : Bytes → Request
  renaming : Bytes → Bytes → Request
  new_folder : Bytes → Request
  folder_removal : Bytes → Request
  link_target : Bytes → Request
  changes : Bytes → Attributes → Request

-- The action and the content by which a request is reported.
abbrev pub reported : Request → Event
reported (listing p) = record { subject = codes "sftpserver"; action = codes "list"; content = p }
reported (stat_of p) = record { subject = codes "sftpserver"; action = codes "stat"; content = p }
reported (lstat_of p) = record { subject = codes "sftpserver"; action = codes "lstat"; content = p }
reported (removal p) = record { subject = codes "sftpserver"; action = codes "remove"; content = p }
reported (renaming p q) = record {
  subject = codes "sftpserver";
  action = codes "rename";
  content = join (codes "->") (p ∷ q ∷ []);
}
reported (new_folder p) = record {
  subject = codes "sftpserver";
  action = codes "mkdir";
  content = p;
}
reported (folder_removal p) = record {
  subject = codes "sftpserver";
  action = codes "rmdir";
  content = p;
}
reported (link_target p) = record {
  subject = codes "sftpserver";
  action = codes "readlink";
  content = p;
}
reported (changes p a) = record {
  subject = codes "sftpserver";
  action = codes "chattr";
  content = p;
}

module _ (C : Client) (convert_errno : ℕ → ℕ) where
  open C use {World}

  unfoldable pub serve : Request → Py (Session World) Answer
  unfolding list_folder stat lstat remove rename mkdir rmdir readlink chattr
  serve (listing p) = list_folder C convert_errno p
  serve (stat_of p) = stat C convert_errno p
  serve (lstat_of p) = lstat C convert_errno p
  serve (removal p) = remove C convert_errno p
  serve (renaming p q) = rename C convert_errno p q
  serve (new_folder p) = mkdir C convert_errno p
  serve (folder_removal p) = rmdir C convert_errno p
  serve (link_target p) = readlink C convert_errno p
  serve (changes p a) = chattr C convert_errno p a

  -- Each of listing, stat, lstat, remove, rename, mkdir, rmdir, readlink and chattr emits exactly
  -- one event, its own, whether it succeeds, fails or raises.
  pub events-serve :
      (r : Request) (s : Session World) → (serve r s).1.events ≡ s.events ++ reported r ∷ []
  unfolding serve
  events-serve (listing p) s = ground arith
  events-serve (changes p a) s = ground arith
  events-serve r s = ground arith

  -- No IOError of the container's SFTP client escapes from listing, stat, lstat, remove, rename,
  -- mkdir, rmdir, readlink or chattr.
  pub serve_no_io_error :
      (r : Request) (s : Session World) (errno : ℕ) → (serve r s).0 ≢ raised (io_error errno)
  unfolding serve
  serve_no_io_error (listing p) s errno h = ground arith
  serve_no_io_error (changes p a) s errno h = ground arith
  serve_no_io_error r s errno h = ground arith

  -- A file that was opened has its path as its name, and has a copy exactly if it was opened with
  -- O_WRONLY.
  open_file-handle :
      (save_path path : Bytes) (flags : ℕ) (attr : Option Attributes) (s : Session World)
      (h : Handle)
      → (open_file C convert_errno save_path path flags attr s).0 ≡ returned (handle h)
      → (h.file_name ≡ path) × (has_copy h.save_file ≡ has_bit 0 flags)
  unfolding open_file
  open_file-handle save_path path flags attr s h e = ground arith

-- Opening a file never changes its permissions: with another `chmod` it does the same.
open_file_keeps_permissions :
    (C : Client) (chmod : Bytes → ℕ → Py C.World (Unit {0})) (convert_errno : ℕ → ℕ)
    (save_path path : Bytes) (flags : ℕ) (attr : Option Attributes) (s : Session C.World)
    → open_file (record C { chmod = chmod }) convert_errno save_path path flags attr s
      ≡ open_file C convert_errno save_path path flags attr s
unfolding open_file
open_file_keeps_permissions C chmod convert_errno save_path path flags none s = refl
open_file_keeps_permissions C chmod convert_errno save_path path flags (some attr) s = refl
