-- ===== src/Playlog/Players.antt =====
-- The players of util/playlog.py: `play` and `start`.
pub mod Laws
mod Tests
use wetland.Prelude.{
  ℕ, suc, ◌+◌, Bytes, codes, bytes_eq, is_in, str, int, ℤ, pos, negsuc, split, strip, contains,
  read_lines, hex_decode, length, get_elem?, is_empty, map, List, [], ◌∷◌, ◌++◌, Option, none, some,
  Bool, true, false, ◌||◌, ◌&&◌, ◌==◌, one, star, maybe, char, Pattern, re_match, re_split,
  is_space, is_solid, if◌then◌else◌,
}
use wetland.Prelude.Py.{
  PyError, Py, Outcome, returned, raised, index_error, pure, raise, lift, item, try_except_else,
  ◌>>=◌, ◌>>◌,
}
use wetland.Relay.{marker}
use wetland.Playlog.{Entry, Session, Reader, add_entry, shell_get, forward_get, empty_reader}
use wetland.Playlog.Scp.{Dict, empty, entry, Scp, Write, extract_files, save_files}
use mathlib.Core.List.{reverse}

-- What a player does with the terminal, the disk aside.
pub data Act : Type 0 where
  print write_out : Bytes → Act
  print_error : PyError → Act
  wait clear : Act

abbrev pub Acts : Type 0
Acts = List Act

unfoldable pub act : Act → Py Acts (Unit {0})
act a done = (returned tt, done ++ a ∷ [])

-- datas[0][0] and datas[-1][0]
unfoldable pub span : Session → Outcome (Bytes × Bytes)
span [] = raised index_error
span (e ∷ []) = returned (e.time, e.time)
span (e ∷ d ∷ es) = with_start (span (d ∷ es))
  where
    with_start : Outcome (Bytes × Bytes) → Outcome (Bytes × Bytes)
    with_start (returned (a, b)) = returned (e.time, b)
    with_start (raised x) = raised x

-- text.lstrip('\r\n')
unfoldable pub lstrip_newlines : Bytes → Bytes
lstrip_newlines [] = []
lstrip_newlines (c ∷ s) = if c == 13 || c == 10 then lstrip_newlines s else c ∷ s

-- Lines 43 to 51, for one entry.
unfoldable pub play_entry : Entry → Py Acts (Unit {0})
unfolding act lstrip_newlines
play_entry e =
    if bytes_eq e.direction (codes "[V]")
    then act (write_out (lstrip_newlines e.text))
    else if bytes_eq e.direction (codes "[H]") && bytes_eq e.text (codes "\r")
    then act wait
    else pure tt

unfoldable pub play_each : Session → Py Acts (Unit {0})
unfolding play_entry
play_each [] = pure tt
play_each (e ∷ es) = do play_entry e; play_each es

-- The frame of the banners is left out.
abbrev pub opening : Bytes × Bytes → Bytes
opening (a, b) = codes "Session start at " ++ (a ++ (codes " Session close at " ++ b))

-- shell_player.play
unfoldable pub play : Session → Py Acts (Unit {0})
unfolding span play_each act
play datas = do
  times ← lift (span datas)
  act (print (opening times))
  play_each datas
  act (print (codes "Session closed"))

abbrev pub numbered : ℕ → Bytes × Bytes → Bytes
numbered n (a, b) = codes "[" ++ (str n ++ (codes "] " ++ (a ++ (codes " =====> " ++ b))))

-- Lines 61 to 63.
unfoldable pub list_sessions : ℕ → List Session → Py Acts (Unit {0})
unfolding span act
list_sessions n [] = pure tt
list_sessions n (s ∷ ss) = do
  times ← lift (span s)
  act (print (numbered n times))
  list_sessions (suc n) ss

abbrev pub detected : List Session → Bytes
detected ss = codes "[+] Detect " ++ (str (length ss) ++ codes " sessions")

-- l[i]; a negative index counts from the end.
unfoldable pub item_at : List Session → ℤ → Outcome Session
item_at l (pos i) = item l i
item_at l (negsuc i) = item (reverse l) i

-- Lines 66 to 68, with the line that was typed.
unfoldable pub replay : Bytes → List Session → Py Acts (Unit {0})
unfolding item_at play act int
replay answer sessions = do
  index ← lift (int answer)
  act clear
  datas ← lift (item_at sessions index)
  play datas

-- shell_player.start, with the contents of the file
unfoldable pub shell_start : Bytes → Bytes → Py Acts (Unit {0})
unfolding act
shell_start contents answer = do
  sessions ← lift (shell_get contents)
  act (print (detected sessions))
  list_sessions 0 sessions
  try_except_else (replay answer sessions) (λ e. act (print_error e)) (λ _. pure tt)

-- Lines 212 to 217, and 112 to 117.
unfoldable pub show_entry : Entry → Py Acts (Unit {0})
unfolding act
show_entry e = do
  (if bytes_eq e.direction (codes "[H]") then act (print (codes "Hacker send")) else pure tt)
  (if bytes_eq e.direction (codes "[V]") then act (print (codes "Docker send")) else pure tt)
  act (print e.text)

unfoldable pub show_each : Session → Py Acts (Unit {0})
unfolding show_entry
show_each [] = pure tt
show_each (e ∷ es) = do show_entry e; show_each es

unfoldable pub show_sessions : (ℕ → Bytes × Bytes → Bytes) → ℕ → List Session → Py Acts (Unit {0})
unfolding span show_each act
show_sessions title n [] = pure tt
show_sessions title n (s ∷ ss) = do
  times ← lift (span s)
  act (print (title n times))
  show_each s
  show_sessions title (suc n) ss

abbrev pub arrow : ℕ → Bytes × Bytes → Bytes
arrow n (a, b) = a ++ (codes " -------> " ++ b)

-- forward_player.start
unfoldable pub forward_start : Bytes → Py Acts (Unit {0})
unfolding forward_get show_sessions act
forward_start contents = do
  sessions ← lift (forward_get contents)
  act (print (detected sessions))
  show_sessions arrow 0 sessions

-- exec_player.start after `get`
unfoldable pub exec_show : List Session → Py Acts (Unit {0})
unfolding show_sessions act
exec_show sessions = do act (print (detected sessions)); show_sessions numbered 0 sessions
