-- ===== src/Playlog/Program.antt =====
-- The program of util/playlog.py: its arguments, the player that they choose, and what it does.
use wetland.Prelude.{
  Bytes, codes, is_in, List, [], ◌∷◌, ◌++◌, map, Option, none, some, if◌then◌else◌,
}
use wetland.Prelude.Py.{
  Outcome, returned, raised, Py, raise, lift, continue, system_exit, ◌>>=◌, ◌>>◌,
}
use wetland.Playlog.{empty_reader}
use wetland.Playlog.Choose.{Player, shell_player, exec_player, forward_player, choose_player}
use wetland.Playlog.Scp.{Write}
use wetland.Playlog.ExecPlayer.{ExecReader, exec_get}
use wetland.Playlog.Players.{Acts, print, act, shell_start, forward_start, exec_show}

-- The arguments as they are given: -t, the path, and -s.
pub record Arguments : Type 0 where
  pub t : Option Bytes
  pub p : Bytes
  pub s : Option Bytes

-- argparse: a type that is not among the choices ends the program.
unfoldable pub checked_type : Option Bytes → Outcome (Option Bytes)
checked_type none = returned none
checked_type (some t) =
    if is_in t (codes "shell" ∷ codes "exec" ∷ codes "forward" ∷ [])
    then returned (some t)
    else raised (system_exit 2)

unfoldable pub save_path : Option Bytes → Bytes
save_path none = codes "../download/scp"
save_path (some s) = s

-- What the program printed and waited for, and wrote to the disk.
pub record Run : Type 0 where
  pub acts : Acts
  pub writes : List Write

abbrev on_acts : Py Acts (Unit {0}) → Py Run (Unit {0})
on_acts m s = let r = m s.acts in (r.0, record s { acts = r.1 })

abbrev pub fresh_reader : ExecReader
fresh_reader = record { reader = empty_reader; printed = []; writes = [] }

-- exec_player.start: `get`, and then the sessions
unfoldable pub exec_start : Bytes → Bytes → Py Run (Unit {0})
unfolding exec_get exec_show
exec_start save_folder contents s =
    let r = exec_get save_folder contents fresh_reader in
    let read : Run = record {
      acts = s.acts ++ map print r.1.printed;
      writes = s.writes ++ r.1.writes;
    } in
    continue r.0 (λ _. on_acts (exec_show r.1.reader.sessions)) read

-- Lines 256 to 262, with the contents of the file and the line that is typed.
unfoldable pub start : Player → Bytes → Bytes → Bytes → Py Run (Unit {0})
unfolding exec_start shell_start
start shell_player save_folder contents answer = on_acts (shell_start contents answer)
start exec_player save_folder contents answer = exec_start save_folder contents
start forward_player save_folder contents answer = on_acts (forward_start contents)

unfoldable pub start_chosen : Option Player → Bytes → Bytes → Bytes → Py Run (Unit {0})
unfolding start act
start_chosen none save_folder contents answer = do
  on_acts (act (print (codes "[-] filename unknow or you should specify arguemnt -t")))
  raise (system_exit 0)
start_chosen (some player) save_folder contents answer = start player save_folder contents answer

unfoldable pub playlog : Arguments → Bytes → Bytes → Py Run (Unit {0})
unfolding checked_type start_chosen save_path
playlog a contents answer = do
  t ← lift (checked_type a.t)
  start_chosen (choose_player t a.p) (save_path a.s) contents answer
