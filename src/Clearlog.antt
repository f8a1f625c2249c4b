-- ===== src/Clearlog.antt =====
-- Clearing the logs: `clear` (util/clearlog.py).
pub mod Laws
pub mod Summary
mod Tests
use wetland.Prelude.{
  ℕ, Bytes, codes, bytes_eq, is_in, split, read_lines, get_elem?, Bool, true, false, not, ◌&&◌,
  ◌||◌, List, [], ◌∷◌, ◌++◌, Option, none, some, if◌then◌else◌,
}

-- A folder of the logs: its name, which is an address, and its files.
pub record Folder : Type 0 where
  pub ip : Bytes
  pub is_dir : Bool
  pub log : List Bytes
  -- the contents of pwd.log, if it is there
  pub pwd_log : Bytes

-- `valueSet`, as it is spelled there
abbrev pub value_set : List Bytes
value_set = codes "shell.og" ∷ codes "reverse.log" ∷ codes "direct.log" ∷ codes "exec.log" ∷ []

-- len(set(log) & valueSet) != 0
unfoldable pub has_value : List Bytes → Bool
has_value [] = false
has_value (f ∷ fs) = is_in f value_set || has_value fs

-- Line 21; a line of one word raises, and is only printed.
unfoldable pub pwd_of_line : Bytes → Bytes
pwd_of_line i = elim (get_elem? (split 32 i) 1) [ none ↦ [] | some w ↦ w ++ codes "\n" ]

-- Lines 18 to 23: what is appended to the file of passwords.
unfoldable pub pwd_lines : List Bytes → Bytes
unfolding pwd_of_line
pwd_lines [] = []
pwd_lines (i ∷ lines) = pwd_of_line i ++ pwd_lines lines

-- Line 25: whether the folder is removed.
unfoldable pub removes : Folder → Bool
removes f = not (has_value f.log) && not (bytes_eq f.ip (codes "sftp"))

unfoldable pub collected : Folder → Bytes
unfolding pwd_lines
collected f = if is_in (codes "pwd.log") f.log then pwd_lines (read_lines f.pwd_log) else []

-- One folder: what is appended to the passwords, and whether the folder stays.
unfoldable pub clear_folder : Folder → Bytes × Bool
unfolding removes collected
clear_folder f = if f.is_dir then (collected f, not (removes f)) else ([], true)

keep : Bytes × Bool → Folder → Bytes × List Folder → Bytes × List Folder
keep (w, true) f (pwd, kept) = (w ++ pwd, f ∷ kept)
keep (w, false) f (pwd, kept) = (w ++ pwd, kept)

-- The text appended to the file `pwd`, and the folders that are left.
unfoldable pub clear : List Folder → Bytes × List Folder
unfolding clear_folder keep
clear [] = ([], [])
clear (f ∷ fs) = keep (clear_folder f) f (clear fs)
