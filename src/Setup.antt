-- ===== src/Setup.antt =====
-- The setup script util/initwetland.py. What exists on the disk is a function of the places that paths name.
mod FileChange
pub mod Laws
mod Tests
use wetland.Prelude.{
  ℕ, Bytes, codes, bytes_eq, path_join, split, concat, map, ◌++◌, ◌||◌, Bool, true, false, ◌==◌,
  List, [], ◌∷◌, Option, none, some, if◌then◌else◌,
}
use wetland.Prelude.Py.{
  Py, Outcome, returned, raised, io_error, system_exit, other_error, pure, raise, ◌>>=◌, ◌>>◌,
}

-- All but the last.
drop_last : List Bytes → List Bytes
drop_last [] = []
drop_last (c ∷ []) = []
drop_last (c ∷ d ∷ cs) = c ∷ drop_last (d ∷ cs)

-- The folder in which the script runs, and what exists.
pub record Machine : Type 0 where
  pub cwd : Bytes
  pub exists : Bytes → Bool

-- A component of a path, after those before it: an empty one and '.' lead nowhere, '..' leads up.
abbrev step : List Bytes → Bytes → List Bytes
step done c =
    if bytes_eq c [] || bytes_eq c (codes ".")
    then done
    else if bytes_eq c (codes "..")
    then drop_last done
    else done ++ c ∷ []

steps : List Bytes → List Bytes → List Bytes
unfolding drop_last
steps done [] = done
steps done (c ∷ cs) = steps (step done c) cs

abbrev rooted : List Bytes → Bytes
rooted cs = concat (map (λ c. b'/' ∷ c) cs)

-- The place on the disk that an absolute path names; there are no symbolic links.
unfoldable pub normal : Bytes → Bytes
unfolding steps split concat
normal p = rooted (steps [] (split b'/' p))

-- The place that a path names, which may be relative.
unfoldable pub place : Bytes → Machine → Bytes
unfolding normal path_join
place p m = normal (path_join m.cwd p)

unfoldable pub is_there : Bytes → Machine → Bool
unfolding place
is_there p m = m.exists (place p m)

unfoldable pub mark : Bool → Bytes → (Bytes → Bool) → Bytes → Bool
mark b p exists q = if bytes_eq q p then b else exists q

unfoldable pub make : Bytes → Py Machine (Unit {0})
unfolding mark place
make p m = (returned tt, record m { exists = mark true (place p m) m.exists })

unfoldable pub erase : Bytes → Py Machine (Unit {0})
unfolding mark place
erase p m = (returned tt, record m { exists = mark false (place p m) m.exists })

-- os.mkdir(p), if p does not exist
unfoldable pub ensure_folder : Bytes → Py Machine (Unit {0})
unfolding is_there make
ensure_folder p m = if is_there p m then (returned tt, m) else make p m

-- sys.exit(1) unless a test holds
unfoldable pub require : (Machine → Bool) → Py Machine (Unit {0})
require test m = if test m then (returned tt, m) else (raised (system_exit 1), m)

unfoldable pub chdir : Bytes → Py Machine (Unit {0})
unfolding path_join
chdir path m = (returned tt, record m { cwd = path_join m.cwd path })

-- os.path.join(path, 'data', name)
unfoldable pub key_path : Bytes → Bytes → Bytes
unfolding path_join
key_path path name = path_join (path_join path (codes "data")) name

-- key.write_private_key_file: it opens a file, whose folder has to exist.
unfoldable pub write_key : Bytes → Bytes → Py Machine (Unit {0})
unfolding is_there make key_path
write_key path name m =
    if is_there (path_join path (codes "data")) m
    then make (key_path path name) m
    else (raised (io_error 2), m)

-- Lines 35 to 47, for each key.
unfoldable pub ensure_key : Bytes → Bytes → Py Machine (Unit {0})
unfolding is_there write_key key_path
ensure_key path name m =
    if is_there (key_path path name) m then (returned tt, m) else write_key path name m

-- shutil.move(name, 'data'), where data is a folder
unfoldable pub move_to_data : Bytes → Py Machine (Unit {0})
unfolding is_there make erase
move_to_data name m =
    if is_there name m
    then (if is_there (path_join (codes "data") name) m
        then (raised other_error, m)
        else (do make (path_join (codes "data") name); erase name) m)
    else (raised (io_error 2), m)

-- shutil.copy(from, to)
unfoldable pub copy_file : Bytes → Bytes → Py Machine (Unit {0})
unfolding is_there make
copy_file from to m = if is_there from m then make to m else (raised (io_error 2), m)

-- Lines 22 to 47.
unfoldable pub prepare : Bytes → Py Machine (Unit {0})
unfolding ensure_folder ensure_key
prepare path = do
  ensure_folder (codes "files")
  ensure_folder (codes "data")
  ensure_key path (codes "id_rsa")
  ensure_key path (codes "id_dsa")

-- Lines 64 to 73.
unfoldable pub clean : Py Machine (Unit {0})
unfolding move_to_data copy_file
clean = do
  move_to_data (codes "README.md")
  move_to_data (codes "requirements")
  copy_file (codes "wetland.cfg.default") (codes "wetland.cfg")
  move_to_data (codes "wetland.cfg.default")

-- Lines 12 to 73, with the exit code of pip.
unfoldable pub setup : Bytes → ℕ → Py Machine (Unit {0})
unfolding require is_there chdir prepare clean
setup path pip = do
  require (is_there path)
  chdir path
  prepare path
  require (is_there (codes "requirements"))
  require (λ m. pip == 0)
  clean

-- The script, with its arguments
unfoldable pub initwetland : List Bytes → ℕ → Py Machine (Unit {0})
unfolding setup
initwetland [] pip = raise (system_exit 1)
initwetland (path ∷ rest) pip = setup path pip
