-- ===== src/Prelude/Paths.antt =====
-- os.path.join(a, b), and files as a function from a path to the contents.
use wetland.Prelude.Tests.{◌==◌, Bool-cases, if◌then◌else◌}
use mathlib.Core.Path.{◌≡◌, refl}
use mathlib.Core.Logic.{inl, inr}
use wetland.Prelude.Lists.{is_empty}
use wetland.Prelude.Text.{Bytes, bytes_eq}
use mathlib.Core.Bool.{Bool, false, ◌||◌}
use mathlib.Core.List.{[], ◌∷◌, ◌++◌}
use native.Mathlib.Omega.{arith}

abbrev pub slash : Bytes
slash = b'/' ∷ []

abbrev pub starts_with_slash : Bytes → Bool
starts_with_slash [] = false
starts_with_slash (c ∷ s) = c == b'/'

ends_with_slash : Bytes → Bool
ends_with_slash [] = false
ends_with_slash (c ∷ []) = c == b'/'
ends_with_slash (c ∷ d ∷ s) = ends_with_slash (d ∷ s)

unfoldable pub path_join : Bytes → Bytes → Bytes
unfolding ends_with_slash
path_join a b =
    if starts_with_slash b
    then b
    else if is_empty a || ends_with_slash a
    then a ++ b
    else a ++ slash ++ b

-- The contents of each file; a missing file is empty here, since appending creates it.
abbrev pub Files : Type 0
Files = Bytes → Bytes

-- with open(path, 'a') as f: f.write(text)
unfoldable pub append_file : Bytes → Bytes → Files → Files
append_file path text files p = if bytes_eq p path then files p ++ text else files p

bytes_eq-append : (a b c : Bytes) → bytes_eq (a ++ b) (a ++ c) ≡ bytes_eq b c
unfolding bytes_eq
bytes_eq-append [] b c = refl
bytes_eq-append (x ∷ a) b c = rw (bytes_eq-append a b c) (ground arith)

-- Two names in one folder.
pub bytes_eq-path_join :
    (a b c : Bytes)
    → starts_with_slash b ≡ false
    → starts_with_slash c ≡ false
    → bytes_eq (path_join a b) (path_join a c) ≡ bytes_eq b c
unfolding path_join
bytes_eq-path_join a b c h k =
    rw (h, k)
      (elim (Bool-cases (is_empty a || ends_with_slash a)) [
        | inl e ↦ rw e (bytes_eq-append a b c)
        | inr e ↦ rw e (bytes_eq-append (a ++ slash) b c)
      ])
