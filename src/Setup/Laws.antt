-- ===== src/Setup/Laws.antt =====
-- Where util/initwetland.py puts the keys.
use wetland.Prelude.{
  ℕ, Bytes, codes, bytes_eq, path_join, Bool, true, false, [], ◌∷◌, ◌≡◌, ◌∙◌, refl, Bool-cases, inl,
  inr,
}
use wetland.Prelude.Py.{returned, raised, io_error}
use wetland.Setup.{
  Machine, place, is_there, mark, make, ensure_folder, ensure_key, write_key, key_path, prepare,
  initwetland,
}

-- What a folder's check leaves: it returns, and no other path changes.
record Ensured (p : Bytes) (m : Machine) : Type 0 where
  exists : Bytes → Bool
  result : ensure_folder p m ≡ (returned tt, record { cwd = m.cwd; exists = exists })
  same : (q : Bytes) → bytes_eq q (place p m) ≡ false → exists q ≡ m.exists q

ensured : (p : Bytes) (m : Machine) → Ensured p m
unfolding ensure_folder make mark is_there
ensured p m = elim (Bool-cases (is_there p m)) [
  | inl old ↦ record { exists = m.exists; result = rw old; same = λ q h. refl }
  | inr new ↦ record {
    exists = mark true (place p m) m.exists;
    result = rw new;
    same = λ q h. rw h;
  }
]

-- The program's own folder.
abbrev pub inside : Bytes → Machine → Machine
inside path m = record m { cwd = path_join m.cwd path }

-- Seen from the folder `path`, the path `p` names a place where nothing is, and that is none of the
-- folders that the script makes.
pub record IsElsewhere (path : Bytes) (m : Machine) (p : Bytes) : Type 0 where
  pub missing : is_there p (inside path m) ≡ false
  pub no_files : bytes_eq (place p (inside path m)) (place (codes "files") (inside path m)) ≡ false
  pub no_data : bytes_eq (place p (inside path m)) (place (codes "data") (inside path m)) ≡ false

module _ (path : Bytes) (m : Machine) where
  ensure_key_fails :
      (exists : Bytes → Bool)
      → exists (place (key_path path (codes "id_rsa")) (inside path m)) ≡ false
      → exists (place (path_join path (codes "data")) (inside path m)) ≡ false
      → ensure_key path (codes "id_rsa") (record (inside path m) { exists = exists })
        ≡ (raised (io_error 2), record (inside path m) { exists = exists })
  unfolding ensure_key write_key is_there place
  ensure_key_fails exists k d = rw (k, d)

  prepare_fails :
      IsElsewhere path m (key_path path (codes "id_rsa"))
      → IsElsewhere path m (path_join path (codes "data"))
      → (prepare path (inside path m)).0 ≡ raised (io_error 2)
  unfolding prepare is_there place
  prepare_fails k d =
      let f = ensured (codes "files") (inside path m) in
      let g = ensured (codes "data") (record (inside path m) { exists = f.exists }) in
      rw (f.result) (
        rw (g.result) (
          rw (
            ensure_key_fails g.exists (g.same _ k.no_data ∙ (f.same _ k.no_files ∙ k.missing))
              (g.same _ d.no_data ∙ (f.same _ d.no_files ∙ d.missing)))))

-- With a path to the program that exists, but where the places that this path, with the folder and
-- with the file of the RSA key behind it, names from the program's own folder are empty and none of
-- the folders that the script makes there: the setup ends with an IOError.
pub relative_path_fails :
    (path : Bytes) (pip : ℕ) (m : Machine)
    → is_there path m ≡ true
    → IsElsewhere path m (key_path path (codes "id_rsa"))
    → IsElsewhere path m (path_join path (codes "data"))
    → (initwetland (path ∷ []) pip m).0 ≡ raised (io_error 2)
unfolding initwetland
relative_path_fails path pip m h k d = rw h (rw (prepare_fails path m k d))
