-- ===== src/Playlog/ExecPlayer.antt =====
-- `exec_player` of util/playlog.py: `get`, with the extraction of scp transfers.
use wetland.Prelude.{
  Bytes, codes, bytes_eq, is_in, split, strip, contains, read_lines, is_empty, List, [], ◌∷◌, ◌++◌,
  Option, none, some, ◌||◌, ◌==◌, one, star, maybe, char, Pattern, re_match, re_split, is_space,
  is_solid, if◌then◌else◌,
}
use wetland.Prelude.Py.{Py, returned, index_error, pure, raise, lift, item, ◌>>=◌, ◌>>◌}
use wetland.Relay.{marker}
use wetland.Playlog.{Session, Reader, add_entry}
use wetland.Playlog.Scp.{Dict, empty, entry, Write, extract_files, save_files}

-- ^scp\s*(-r)?\s*-[ft]\s*\S*$
abbrev pub scp_command : Pattern
scp_command =
    char b's'
    ∷ char b'c'
    ∷ char b'p'
    ∷ star is_space
    ∷ maybe b'-' b'r'
    ∷ star is_space
    ∷ char b'-'
    ∷ one (λ c. c == b'f' || c == b't')
    ∷ star is_space
    ∷ star is_solid
    ∷ []

-- The variables of `exec_player.get`, what was printed, and the writes to the disk.
pub record ExecReader : Type 0 where
  pub reader : Reader
  pub printed : List Bytes
  pub writes : List Write

abbrev on_reader : Py Reader (Unit {0}) → Py ExecReader (Unit {0})
on_reader m s = let r = m s.reader in (r.0, record s { reader = r.1 })

-- [i[2] for i in datas if i[1] == direction]
unfoldable pub texts_of : Bytes → Session → List Bytes
texts_of direction [] = []
texts_of direction (e ∷ es) =
    if bytes_eq e.direction direction then e.text ∷ texts_of direction es else texts_of direction es

abbrev say : Bytes → Py ExecReader (Unit {0})
say text s = (returned tt, record s { printed = s.printed ++ text ∷ [] })

unfoldable pub extract : List Bytes → Py ExecReader (Option Dict)
unfolding extract_files
extract dq s =
    let r = extract_files (record { dq = dq; printed = s.printed }) in
    (r.0, record s { printed = r.1.printed })

-- if f: self.save_files(f, self.save_path)
unfoldable pub save : Bytes → Option Dict → Py ExecReader (Unit {0})
unfolding save_files
save save_path none s = (returned tt, s)
save save_path (some empty) s = (returned tt, s)
save save_path (some (entry name node f)) s =
    let r = save_files (entry name node f) save_path s.writes in (r.0, record s { writes = r.1 })

-- t[-1]
abbrev last_word : List Bytes → Bytes
last_word [] = []
last_word (w ∷ []) = w
last_word (w ∷ v ∷ ws) = last_word (v ∷ ws)

abbrev pub download_folder : Bytes
download_folder = codes "[+] Detect scp download folder at ===> "

abbrev pub upload_file : Bytes
upload_file = codes "[+] Detect scp upload   file   at ===> "

abbrev upload_folder : Bytes
upload_folder = codes "[+] Detect scp upload   folder at ===> "

abbrev download_file : Bytes
download_file = codes "[+] Detect scp download file   at ===> "

abbrev pub at_word : List Bytes → Bytes → Bytes
at_word t message = message ++ last_word t

-- Lines 125 to 142, after `t` and the rest of `datas`. The words of the messages are as in the
-- source, which calls what the hacker fetches an upload.
unfoldable pub transfer : Bytes → List Bytes → Session → Py ExecReader (Unit {0})
unfolding texts_of
transfer save_path t datas =
    if is_in (codes "-f") t
    then (do
      say (at_word t (if is_in (codes "-r") t then download_folder else upload_file))
      f ← extract (texts_of (codes "[V]") datas)
      save save_path f)
    else if is_in (codes "-t") t
    then (do
      say (at_word t (if is_in (codes "-r") t then upload_folder else download_file))
      f ← extract (texts_of (codes "[H]") datas)
      save save_path f)
    else (do say (codes "[-] scp protocol invalid"); f ← extract []; save save_path f)

-- exec_player.scp: the command and one more entry are taken off.
unfoldable pub scp : Bytes → Session → Py ExecReader (Unit {0})
unfolding transfer re_split
scp save_path [] = raise index_error
scp save_path (c ∷ []) = raise index_error
scp save_path (c ∷ d ∷ datas) = transfer save_path (re_split c.text) datas

abbrev keep_session : Session → Py ExecReader (Unit {0})
keep_session datas =
    on_reader (λ r. (returned tt, record r { sessions = r.sessions ++ datas ∷ [] }))

-- Lines 92 to 97, and 99 to 102: a session is extracted or kept.
unfoldable pub settle_session : Bytes → Session → Py ExecReader (Unit {0})
unfolding scp
settle_session save_path [] = raise index_error
settle_session save_path (c ∷ datas) =
    if re_match scp_command c.text then scp save_path (c ∷ datas) else keep_session (c ∷ datas)

abbrev reset : Py ExecReader (Unit {0})
reset = on_reader (λ r. (returned tt, record r { datas = [] }))

unfoldable pub end_exec_session : Bytes → Py ExecReader (Unit {0})
unfolding settle_session
end_exec_session save_path s =
    if is_empty s.reader.datas
    then (returned tt, s)
    else (do settle_session save_path s.reader.datas; reset) s

unfoldable pub exec_parts : Bytes → Bytes → Bytes → Py ExecReader (Unit {0})
unfolding add_entry end_exec_session
exec_parts save_path timestamp data_text =
    if contains b':' data_text
    then on_reader (add_entry timestamp data_text)
    else if bytes_eq data_text marker
    then end_exec_session save_path
    else pure tt

unfoldable pub exec_line : Bytes → Bytes → Py ExecReader (Unit {0})
unfolding exec_parts
exec_line save_path i = do
  timestamp ← lift (item (split 32 (strip i)) 0)
  data_text ← lift (item (split 32 (strip i)) 1)
  exec_parts save_path timestamp data_text

unfoldable pub exec_each : Bytes → List Bytes → Py ExecReader (Unit {0})
unfolding exec_line
exec_each save_path [] = pure tt
exec_each save_path (i ∷ lines) = do exec_line save_path i; exec_each save_path lines

-- Line 99 takes the last session, which may be empty.
unfoldable pub settle_last : Bytes → Py ExecReader (Unit {0})
unfolding settle_session
settle_last save_path s = settle_session save_path s.reader.datas s

-- exec_player.get, with the contents of the file
unfoldable pub exec_get : Bytes → Bytes → Py ExecReader (Unit {0})
unfolding exec_each settle_last
exec_get save_path contents = do exec_each save_path (read_lines contents); settle_last save_path
