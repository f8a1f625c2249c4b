-- ===== src/Setup/Tests.antt =====
-- A setup of the folder wetland, from the folder above it.
use wetland.Prelude.{bytes_eq, codes, is_in, path_join, ◌∷◌, [], ◌≡◌, refl}
use wetland.Prelude.Py.{returned, raised, io_error}
use wetland.Setup.{Machine, place, normal, is_there, key_path, initwetland}
use wetland.Setup.Laws.{relative_path_fails}

abbrev machine : Machine
machine = record { cwd = codes "/root"; exists = λ p. bytes_eq p (codes "/root/wetland") }

relative_path_fails_example : (initwetland (codes "wetland" ∷ []) 0 machine).0 ≡ raised (io_error 2)
unfolding is_there place normal bytes_eq path_join key_path
relative_path_fails_example =
    relative_path_fails (codes "wetland") 0 machine refl
      (record { missing = refl; no_files = refl; no_data = refl })
      (record { missing = refl; no_files = refl; no_data = refl })

-- The same folder as './', from within.
abbrev within : Machine
within = record {
  cwd = codes "/root/wetland";
  exists = λ p. is_in p (
      codes "/root/wetland"
      ∷ codes "/root/wetland/README.md"
      ∷ codes "/root/wetland/requirements"
      ∷ codes "/root/wetland/wetland.cfg.default"
      ∷ []);
}

dot_works : (initwetland (codes "./" ∷ []) 0 within).0 ≡ returned tt
unfolding initwetland is_there place normal bytes_eq is_in path_join key_path
dot_works = refl
