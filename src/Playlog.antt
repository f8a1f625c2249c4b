-- ===== src/Playlog.antt =====
-- Reading a session log back: the `get` of `shell_player` and `forward_player` (util/playlog.py).
pub mod Lines
pub mod RoundTrip
pub mod Choose
pub mod Program
pub mod Items
pub mod Replayed
pub mod Played
pub mod Scp
pub mod ExecPlayer
pub mod ExecRead
pub mod Players
mod Tests
use wetland.Prelude.{
  ℕ, Bytes, codes, bytes_eq, split, strip, read_lines, contains, hex_decode, get_elem?, is_empty,
  List, [], ◌∷◌, ◌++◌, Option, none, some, if◌then◌else◌,
}
use wetland.Relay.{marker}
use wetland.Prelude.Py.{item, Outcome, returned, raised, index_error, Py, pure, lift, ◌>>=◌, ◌>>◌}

-- (timestamp, direction, text)
pub record Entry : Type 0 where
  pub time : Bytes
  pub direction : Bytes
  pub text : Bytes

abbrev pub Session : Type 0
Session = List Entry

-- The variables of the loop: `shell_sessions` and `datas`.
pub record Reader : Type 0 where
  pub sessions : List Session
  pub datas : Session

unfoldable pub add_entry : Bytes → Bytes → Py Reader (Unit {0})
add_entry timestamp data_text = do
  direction ← lift (item (split b':' data_text) 0)
  coded ← lift (item (split b':' data_text) 1)
  text ← lift (hex_decode coded)
  λ r. (
    returned tt,
    record r {
      datas = r.datas ++ record { time = timestamp; direction = direction; text = text } ∷ [];
    },
  )

end_session : Py Reader (Unit {0})
end_session r =
    if is_empty r.datas
    then (returned tt, r)
    else (returned tt, record { sessions = r.sessions ++ r.datas ∷ []; datas = [] })

-- Lines 22 to 28, for the first two parts of a line.
read_parts : Bytes → Bytes → Py Reader (Unit {0})
unfolding add_entry end_session
read_parts timestamp data_text =
    if contains b':' data_text
    then add_entry timestamp data_text
    else if bytes_eq data_text marker
    then end_session
    else pure tt

-- The body of the loop, for one line of the file.
unfoldable pub read_line : Bytes → Py Reader (Unit {0})
unfolding read_parts
read_line i = do
  timestamp ← lift (item (split 32 (strip i)) 0)
  data_text ← lift (item (split 32 (strip i)) 1)
  read_parts timestamp data_text

unfoldable pub read_each : List Bytes → Py Reader (Unit {0})
unfolding read_line
read_each [] = pure tt
read_each (i ∷ lines) = do read_line i; read_each lines

-- Line 31: `shell_sessions.append(datas)`, after the loop.
last_session : Py Reader (List Session)
last_session r = (returned (r.sessions ++ r.datas ∷ []), r)

abbrev pub empty_reader : Reader
empty_reader = record { sessions = []; datas = [] }

-- `shell_player.get`, on the contents of the file
unfoldable pub shell_get : Bytes → Outcome (List Session)
unfolding read_each last_session
shell_get contents = ((read_each (read_lines contents) >> last_session) empty_reader).0

-- `forward_player.get` has the same loop.
unfoldable pub forward_get : Bytes → Outcome (List Session)
unfolding shell_get
forward_get contents = shell_get contents
