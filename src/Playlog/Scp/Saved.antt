-- ===== src/Playlog/Scp/Saved.antt =====
-- What `save_files` writes (util/playlog.py).
use wetland.Prelude.{
  Bytes, bytes_eq, re_sub, path_join, List, [], ◌∷◌, ◌++◌, append_assoc, append-nil, Option, none,
  some, is_empty, false, ◌≡◌, ◌∙◌, refl, ap, arith, if◌then◌else◌, Bool-cases, inl, inr,
}
use wetland.Prelude.Py.{returned, raised, key_error}
use wetland.Playlog.Scp.{
  Node, Dict, file, folder, empty, entry, Write, makedirs, write, call, look_up, save_sub,
  save_entries, save_all, savers, save_files, is_there, is_folder, below_file, make_folder,
  write_file,
}

-- f.get(name)
abbrev pub find : Bytes → Dict → Option Node
find name empty = none
find name (entry n m f) = if bytes_eq n name then some m else find name f

-- The folders of `f`, a part of `all`, are found under their names as they are written to the
-- disk, at every level.
abbrev pub IsPlainIn : Dict → Dict → Type 0
IsPlainIn all empty = Unit
IsPlainIn all (entry name (file c) f) = IsPlainIn all f
IsPlainIn all (entry name (folder g) f) =
    (find (re_sub name) all ≡ some (folder g)) × IsPlainIn g g × IsPlainIn all f

-- The tree under `root`, with the names as they are written.
abbrev pub written : Bytes → Dict → List Write
written root empty = []
written root (entry name (file c) f) = write (path_join root (re_sub name)) c ∷ written root f
written root (entry name (folder g) f) =
    makedirs (path_join root (re_sub name))
    ∷ (written (path_join root (re_sub name)) g ++ written root f)

same_folder : (d g : Dict) → some (folder d) ≡ some (folder g) → d ≡ g
same_folder d g h = cc

look_up-savers :
    (name : Bytes) (f : Dict) (g : Dict)
    → find name f ≡ some (folder g)
    → look_up name (savers f) ≡ some (call (save_all (savers g)))
unfolding look_up savers
look_up-savers name empty g h = cc
look_up-savers name (entry n (file c) f) g h = ground (arith, look_up-savers name f g)
look_up-savers name (entry n (folder d) f) g h = elim (Bool-cases (bytes_eq n name)) [
  | inl same ↦
      let e : d ≡ g = same_folder d g (rw same at h) in
      rw same (ap (λ (x : Dict). some (call (save_all (savers x)))) e)
  | inr another ↦ rw another (look_up-savers name f g (rw another at h))
]

-- What a write needs: a folder is new, and nothing stands where a file goes or above it.
abbrev pub CanDo : List Write → Write → Type 0
CanDo ws (makedirs p) = (is_empty p ≡ false) × (is_there ws p ≡ false) × (below_file ws p ≡ false)
CanDo ws (write p c) = (below_file ws p ≡ false) × (is_folder ws p ≡ false)

-- Each of the writes can be done after those before it.
abbrev pub Fits : List Write → List Write → Type 0
Fits ws [] = Unit
Fits ws (w ∷ l) = CanDo ws w × Fits (ws ++ w ∷ []) l

Fits-append : (ws a b : List Write) → Fits ws (a ++ b) → Fits ws a × Fits (ws ++ a) b
Fits-append ws [] b h = (tt, rw (append-nil ws) h)
Fits-append ws (w ∷ a) b h =
    let k = Fits-append (ws ++ w ∷ []) a b h.1 in
    ((h.0, k.0), rw (append_assoc ws (w ∷ []) a) at k.1)

make_folder-CanDo :
    (path : Bytes) (ws : List Write)
    → CanDo ws (makedirs path)
    → make_folder path ws ≡ (returned tt, ws ++ makedirs path ∷ [])
unfolding make_folder
make_folder-CanDo path ws h = rw (h.0, h.1, h.2) refl

write_file-CanDo :
    (path c : Bytes) (ws : List Write)
    → CanDo ws (write path c)
    → write_file path c ws ≡ (returned tt, ws ++ write path c ∷ [])
unfolding write_file
write_file-CanDo path c ws h = rw (h.0, h.1) refl

save_entries-written :
    (all f : Dict) (root : Bytes) (ws : List Write)
    → IsPlainIn all f
    → Fits ws (written root f)
    → save_entries (savers all) (savers f) root ws ≡ (returned tt, ws ++ written root f)
unfolding save_entries save_all savers save_sub
save_entries-written all empty root ws h k = rw append-nil
save_entries-written all (entry name (file c) f) root ws h k =
    rw (write_file-CanDo (path_join root (re_sub name)) c ws k.0) (
      save_entries-written all f root (ws ++ write (path_join root (re_sub name)) c ∷ []) h k.1
      ∙ rw (append_assoc ws (write (path_join root (re_sub name)) c ∷ []) (written root f)))
save_entries-written all (entry name (folder g) f) root ws h k =
    let path = path_join root (re_sub name) in
    let parts = Fits-append (ws ++ makedirs path ∷ []) (written path g) (written root f) k.1 in
    rw (look_up-savers (re_sub name) all g h.0) (
      rw (make_folder-CanDo path ws k.0) (
        rw (save_entries-written g g path (ws ++ makedirs path ∷ []) h.1 parts.0) (
          save_entries-written all f root ((ws ++ makedirs path ∷ []) ++ written path g) h.2 parts.1
          ∙ simp append_assoc)))

-- If every folder is found under its changed name, at every level, and no write collides with one
-- before it, the whole tree is written.
pub save_files-written :
    (f : Dict) (root : Bytes) (ws : List Write)
    → IsPlainIn f f
    → Fits ws (makedirs root ∷ written root f)
    → save_files f root ws ≡ (returned tt, ws ++ makedirs root ∷ written root f)
unfolding save_files save_all
save_files-written f root ws h k = rw (make_folder-CanDo root ws k.0) (
    save_entries-written f f root (ws ++ makedirs root ∷ []) h k.1
    ∙ rw (append_assoc ws (makedirs root ∷ []) (written root f)))

not_found : (name : Bytes) (f : Dict) → find name f ≡ none → look_up name (savers f) ≡ none
unfolding look_up savers
not_found name empty h = refl
not_found name (entry n (file c) f) h = ground (arith, not_found name f)
not_found name (entry n (folder g) f) h = ground (arith, not_found name f)

-- The entries before a folder are files.
abbrev pub files_before : List (Bytes × Bytes) → Dict → Dict
files_before [] f = f
files_before ((name, c) ∷ cs) f = entry name (file c) (files_before cs f)

save_entries_lost :
    (all : Dict) (cs : List (Bytes × Bytes)) (name : Bytes) (g f : Dict) (root : Bytes)
    (ws : List Write)
    → find (re_sub name) all ≡ none
    → Fits ws (written root (files_before cs empty))
    → (save_entries (savers all) (savers (files_before cs (entry name (folder g) f))) root ws).0
      ≡ raised key_error
unfolding save_entries savers save_sub
save_entries_lost all [] name g f root ws h k = rw (not_found (re_sub name) all h)
save_entries_lost all ((n, c) ∷ cs) name g f root ws h k =
    rw (write_file-CanDo (path_join root (re_sub n)) c ws k.0) (
      save_entries_lost all cs name g f root (ws ++ write (path_join root (re_sub n)) c ∷ []) h k.1)

-- A dictionary whose first folder has a changed name that is no name of the dictionary, to be saved
-- where its root can be made and the files before that folder can be written: saving it raises
-- KeyError, whatever follows.
pub save_files_lost :
    (cs : List (Bytes × Bytes)) (name : Bytes) (g f : Dict) (root : Bytes) (ws : List Write)
    → find (re_sub name) (files_before cs (entry name (folder g) f)) ≡ none
    → Fits ws (makedirs root ∷ written root (files_before cs empty))
    → (save_files (files_before cs (entry name (folder g) f)) root ws).0 ≡ raised key_error
unfolding save_files save_all
save_files_lost cs name g f root ws h k = rw (make_folder-CanDo root ws k.0) (
    save_entries_lost (files_before cs (entry name (folder g) f)) cs name g f root
      (ws ++ makedirs root ∷ []) h k.1)
