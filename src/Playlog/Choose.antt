-- ===== src/Playlog/Choose.antt =====
-- The choice of a player by the arguments of util/playlog.py.
use wetland.Prelude.{
  Bytes, codes, bytes_eq, is_in, Bool, true, ◌==◌, ◌&&◌, List, [], ◌∷◌, ◌++◌, Option, none, some,
  ◌≡◌, refl, if◌then◌else◌,
}

pub data Player : Type 0 where
  shell_player exec_player forward_player : Player

-- os.path.split(p)[1], after what was read since the last slash
base_from : Bytes → Bytes → Bytes
base_from name [] = name
base_from name (c ∷ s) = base_from (if c == b'/' then [] else name ++ c ∷ []) s

-- The text before the last dot.
before_dot : Bytes → Option Bytes
before_dot [] = none
before_dot (c ∷ s) = elim (before_dot s) [
  | some r ↦ some (c ∷ r)
  | none ↦ if c == b'.' then some [] else none
]

all_dots : Bytes → Bool
all_dots [] = true
all_dots (c ∷ s) = c == b'.' && all_dots s

-- os.path.splitext(name)[0]: dots at the start are part of the name.
splitext : Bytes → Bytes
unfolding before_dot all_dots
splitext name = elim (before_dot name) [ none ↦ name | some r ↦ if all_dots r then name else r ]

abbrev types : List Bytes
types = codes "shell" ∷ codes "exec" ∷ codes "direct" ∷ codes "reverse" ∷ []

-- Lines 256 to 261; no other type passes the checks before.
player_of : Bytes → Option Player
player_of t =
    if bytes_eq t (codes "shell")
    then some shell_player
    else if bytes_eq t (codes "exec")
    then some exec_player
    else if is_in t (codes "forward" ∷ codes "direct" ∷ codes "reverse" ∷ [])
    then some forward_player
    else none

-- Lines 249 to 261, with the argument -t, if it is given, and the path; `none` is an exit.
unfoldable pub choose_player : Option Bytes → Bytes → Option Player
unfolding player_of splitext base_from
choose_player (some t) p = player_of t
choose_player none p =
    let t = splitext (base_from [] p) in if is_in t types then player_of t else none

base_from-append : (name a s : Bytes) → base_from name (a ++ b'/' ∷ s) ≡ base_from [] s
unfolding base_from
base_from-append name [] s = refl
base_from-append name (c ∷ a) s = base_from-append (if c == b'/' then [] else name ++ c ∷ []) a s

-- The logs that the services write in a folder are recognised by their names.
pub choose_player-log :
    (folder : Bytes)
    → (choose_player none (folder ++ codes "/shell.log") ≡ some shell_player)
      × (choose_player none (folder ++ codes "/exec.log") ≡ some exec_player)
      × (choose_player none (folder ++ codes "/direct.log") ≡ some forward_player)
      × (choose_player none (folder ++ codes "/reverse.log") ≡ some forward_player)
unfolding choose_player is_in bytes_eq
choose_player-log folder = (
  rw (base_from-append [] folder (codes "shell.log")),
  rw (base_from-append [] folder (codes "exec.log")),
  rw (base_from-append [] folder (codes "direct.log")),
  rw (base_from-append [] folder (codes "reverse.log")),
)
