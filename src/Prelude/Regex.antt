-- ===== src/Prelude/Regex.antt =====
-- The regular expressions of the program: sequences of classes, each once or repeated, and an
-- optional text of two bytes. `re.match` with `^` and `$`, `re.sub` and `re.split`.
use wetland.Prelude.Tests.{◌==◌, leb, if◌then◌else◌}
use wetland.Prelude.Lists.{All}
use wetland.Prelude.Text.{Bytes}
use wetland.Prelude.Strings.{cons_head, is_space}
use Prim.Native.Nat.{ℕ}
use mathlib.Core.Path.{◌≡◌}
use mathlib.Core.Bool.{Bool, true, false, not, ◌&&◌, ◌||◌}
use mathlib.Core.List.{List, [], ◌∷◌, ◌++◌, map}
use native.Mathlib.Omega.{arith}

pub data Item : Type 0 where
  -- a class, and a class with `*`
  one star : (ℕ → Bool) → Item
  -- (ab)?
  maybe : ℕ → ℕ → Item

abbrev pub Pattern : Type 0
Pattern = List Item

abbrev pub char : ℕ → Item
char c = one (λ d. d == c)

-- \d, \s and \S
abbrev pub is_digit : ℕ → Bool
is_digit c = leb 48 c && leb c 57

abbrev pub is_solid : ℕ → Bool
is_solid c = not (is_space c)

-- `$`: the end of the text, or a newline before it.
abbrev pub at_end : Bytes → Bool
at_end [] = true
at_end (c ∷ []) = c == b'\n'
at_end (c ∷ d ∷ s) = false

-- re.match('^…$', s): a match of the pattern from the start to `$`.
unfoldable pub re_match : Pattern → Bytes → Bool
re_match [] s = at_end s
re_match (one p ∷ r) [] = false
re_match (one p ∷ r) (c ∷ s) = elim (p c) [ true ↦ re_match r s | false ↦ false ]
re_match (star p ∷ r) [] = re_match r []
re_match (star p ∷ r) (c ∷ s) =
    re_match r (c ∷ s) || (elim (p c) [ true ↦ re_match (star p ∷ r) s | false ↦ false ])
re_match (maybe a b ∷ r) [] = re_match r []
re_match (maybe a b ∷ r) (c ∷ []) = re_match r (c ∷ [])
re_match (maybe a b ∷ r) (c ∷ d ∷ s) =
    re_match r (c ∷ d ∷ s) || (elim (c == a && d == b) [ true ↦ re_match r s | false ↦ false ])

-- re.sub('[^A-Za-z0-9]', '-', s)
unfoldable pub re_sub : Bytes → Bytes
re_sub s =
    map (λ c. if is_digit c || (leb 65 c && leb c 90) || (leb 97 c && leb c 122) then c else b'-') s

-- re.split('\s+', s); the flag says that the byte before was a space.
unfoldable pub split_runs : Bool → Bytes → List Bytes
unfolding cons_head
split_runs was [] = [] ∷ []
split_runs was (c ∷ s) =
    let rest = split_runs (is_space c) s in
    if is_space c then (if was then rest else [] ∷ rest) else cons_head c rest

unfoldable pub re_split : Bytes → List Bytes
unfolding split_runs
re_split s = split_runs false s

pub re_match-one :
    (p : ℕ → Bool) (r : Pattern) (c : ℕ) (s : Bytes)
    → p c ≡ true
    → re_match (one p ∷ r) (c ∷ s) ≡ re_match r s
unfolding re_match
re_match-one p r c s h = rw h

-- A repeated class takes any text of the class.
pub re_match-star :
    (p : ℕ → Bool) (r : Pattern) (w s : Bytes)
    → All (λ c. p c ≡ true) w
    → re_match r s ≡ true
    → re_match (star p ∷ r) (w ++ s) ≡ true
unfolding re_match
re_match-star p r [] [] a h = h
re_match-star p r [] (c ∷ s) a h = ground (arith, h)
re_match-star p r (c ∷ w) s a h = ground (arith, a.0, re_match-star p r w s a.1 h)
