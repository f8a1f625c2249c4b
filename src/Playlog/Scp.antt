-- ===== src/Playlog/Scp.antt =====
-- The files of an scp transfer: `exec_player.extract_files` and `exec_player.save_files`
-- (util/playlog.py).
pub mod Total
pub mod Header
pub mod RoundTrip
pub mod Saved
use wetland.Prelude.{
  ℕ, zero, suc, ◌+◌, ◌-◌, Bytes, codes, bytes_eq, split, strip, concat, length, List, [], ◌∷◌, ◌++◌,
  Option, none, some, Bool, true, false, ◌&&◌, ◌||◌, is_empty, take, ◌==◌, Pattern, char, re_match,
  re_sub, ℤ, pos, negsuc, int, path_join, if◌then◌else◌,
}
use wetland.Prelude.Py.{
  Py, Outcome, returned, raised, index_error, key_error, attribute_error, other_error, pure, raise,
  lift, item, io_error, ◌>>=◌, ◌>>◌,
}
use wetland.Exec.{header_fields, file_header}

-- A dictionary of names, with a text for a file and a dictionary for a folder.
mutual
  pub data Node : Type 0 where
    file : Bytes → Node
    folder : Dict → Node

  pub data Dict : Type 0 where
    empty : Dict
    entry : Bytes → Node → Dict → Dict

-- f[name] = node
unfoldable pub put : Bytes → Node → Dict → Dict
put name node empty = entry name node empty
put name node (entry n m f) =
    if bytes_eq name n then entry n node f else entry n m (put name node f)

-- The deque of messages, and what was printed.
pub record Scp : Type 0 where
  pub dq : List Bytes
  pub printed : List Bytes

abbrev pub tail_message : Bytes
tail_message = codes "E\n"

abbrev pub nul : Bytes
nul = 0 ∷ []

-- ^D\d{4}\s+\d+\s+\S+\n$
abbrev pub folder_header : Pattern
folder_header = char b'D' ∷ header_fields

unfoldable pub print : Bytes → Py Scp (Unit {0})
print text s = (returned tt, record s { printed = s.printed ++ text ∷ [] })

abbrev pop_from : List Bytes → Scp → Outcome Bytes × Scp
pop_from [] s = (raised index_error, s)
pop_from (m ∷ dq) s = (returned m, record s { dq = dq })

unfoldable pub popleft : Py Scp Bytes
popleft s = pop_from s.dq s

-- datas and datas[0] != 'E\n' fails
unfoldable pub at_tail : List Bytes → Bool
at_tail [] = true
at_tail (m ∷ dq) = bytes_eq m tail_message

-- tmp.endswith('\x00')
unfoldable pub ends_with_nul : Bytes → Bool
ends_with_nul [] = false
ends_with_nul (c ∷ []) = c == 0
ends_with_nul (c ∷ d ∷ s) = ends_with_nul (d ∷ s)

-- tmp[:-1]
unfoldable pub drop_last : Bytes → Bytes
drop_last [] = []
drop_last (c ∷ []) = []
drop_last (c ∷ d ∷ s) = c ∷ drop_last (d ∷ s)

abbrev pub is_length : ℕ → ℤ → Bool
is_length k (pos n) = k == n
is_length k (negsuc n) = false

-- Lines 163 to 175: the contents of a file of length `n`, and the messages after it.
unfoldable pub read_contents : ℤ → List Bytes → List Bytes → Outcome Bytes × List Bytes
unfolding ends_with_nul drop_last concat
read_contents n contents [] = (raised index_error, [])
read_contents n contents (tmp ∷ dq) =
    let rest = read_contents n (contents ++ tmp ∷ []) dq in
    if bytes_eq tmp nul
    then (returned (concat contents), dq)
    else if ends_with_nul tmp && is_length (length (concat contents) + length tmp - 1) n
    then (returned (concat (contents ++ drop_last tmp ∷ [])), dq)
    else rest

unfoldable pub contents_of : ℤ → Py Scp Bytes
unfolding read_contents
contents_of n s = let r = read_contents n [] s.dq in (r.0, record s { dq = r.1 })

-- The rest of the loop, and a call of the method: both start with the messages that are left.
module _ (again : Dict → Py Scp (Option Dict)) where
  -- Lines 158 to 160, and the next round.
  unfoldable pub close_folder : Dict → Bytes → Dict → Bytes → Py Scp (Option Dict)
  unfolding print put
  close_folder f name sub_dict tail s =
      if bytes_eq tail tail_message
      then again (put name (folder sub_dict) f) s
      else (do print (codes "[-] scp tail error"); pure none) s

  -- Lines 154 to 160.
  unfoldable pub add_folder : Dict → Bytes → Option Dict → Py Scp (Option Dict)
  unfolding popleft close_folder
  add_folder f name none = pure none
  add_folder f name (some sub_dict) = do tail ← popleft; close_folder f name sub_dict tail

  -- Lines 152 to 179.
  unfoldable pub by_header : Dict → Bytes → Bytes → ℤ → Py Scp (Option Dict)
  unfolding add_folder contents_of print put
  by_header f hdr name n s =
      if re_match folder_header hdr
      then (do sub_dict ← again empty; add_folder f name sub_dict) s
      else if re_match file_header hdr
      then (do c ← contents_of n; again (put name (file c) f)) s
      else (do print (codes "[-] scp head error"); pure none) s

  -- Lines 149 to 179.
  unfoldable pub add_entry : Dict → Bytes → Py Scp (Option Dict)
  unfolding by_header split strip int
  add_entry f hdr = do
    name ← lift (item (split 32 (strip hdr)) 2)
    w ← lift (item (split 32 (strip hdr)) 1)
    n ← lift (int w)
    by_header f hdr name n

  -- One test of `while`, with what follows it.
  unfoldable pub extract_round : Dict → Py Scp (Option Dict)
  unfolding at_tail popleft add_entry
  extract_round f s =
      if at_tail s.dq then (returned (some f), s) else (do hdr ← popleft; add_entry f hdr) s

-- On fuel: every round takes a message.
unfoldable pub extract_loop : ℕ → Dict → Py Scp (Option Dict)
unfolding extract_round
extract_loop zero f = raise other_error
extract_loop (suc fuel) f = extract_round (extract_loop fuel) f

unfoldable pub extract_files : Py Scp (Option Dict)
unfolding extract_loop
extract_files s = extract_loop (suc (length s.dq)) empty s

-- The folders that were made and the files that were written, in order. The disk had none of them,
-- and refuses nothing else.
pub data Write : Type 0 where
  makedirs : Bytes → Write
  write : Bytes → Bytes → Write

-- What `save_files` does with an entry: the text of a file, or a call of itself.
pub data Saver : Type 0 where
  text : Bytes → Saver
  call : (Bytes → Py (List Write) (Unit {0})) → Saver

abbrev Savers : Type 0
Savers = List (Bytes × Saver)

unfoldable pub look_up : Bytes → Savers → Option Saver
look_up name [] = none
look_up name ((n, s) ∷ m) = if bytes_eq n name then some s else look_up name m

-- A path of a folder that was made.
unfoldable pub is_folder : List Write → Bytes → Bool
is_folder [] path = false
is_folder (makedirs p ∷ ws) path = bytes_eq p path || is_folder ws path
is_folder (write p c ∷ ws) path = is_folder ws path

-- A path of a file that was written.
unfoldable pub is_file : List Write → Bytes → Bool
is_file [] path = false
is_file (makedirs p ∷ ws) path = is_file ws path
is_file (write p c ∷ ws) path = bytes_eq p path || is_file ws path

-- A path that goes on below that of a file.
unfoldable pub below_file : List Write → Bytes → Bool
below_file [] path = false
below_file (makedirs p ∷ ws) path = below_file ws path
below_file (write p c ∷ ws) path =
    bytes_eq (take (length p + 1) path) (p ++ b'/' ∷ []) || below_file ws path

-- os.path.exists
unfoldable pub is_there : List Write → Bytes → Bool
unfolding is_folder is_file
is_there ws path = is_folder ws path || is_file ws path

abbrev log_write : Write → Py (List Write) (Unit {0})
log_write w ws = (returned tt, ws ++ w ∷ [])

-- if not os.path.exists(path): os.makedirs(path), which raises ENOENT on '' and ENOTDIR below a
-- file.
unfoldable pub make_folder : Bytes → Py (List Write) (Unit {0})
unfolding is_there below_file
make_folder path ws =
    if is_empty path
    then (raised (io_error 2), ws)
    else if is_there ws path
    then (returned tt, ws)
    else if below_file ws path
    then (raised (io_error 20), ws)
    else log_write (makedirs path) ws

-- with open(path, 'wb') as f: f.write(content), which raises EISDIR on a folder.
unfoldable pub write_file : Bytes → Bytes → Py (List Write) (Unit {0})
unfolding is_folder below_file
write_file path content ws =
    if below_file ws path
    then (raised (io_error 20), ws)
    else if is_folder ws path
    then (raised (io_error 21), ws)
    else log_write (write path content) ws

-- self.save_files(file_dict[name], path): a missing name raises, and a text has no `items`.
unfoldable pub save_sub : Option Saver → Bytes → Py (List Write) (Unit {0})
unfolding make_folder
save_sub none path = raise key_error
save_sub (some (text c)) path = do make_folder path; raise attribute_error
save_sub (some (call save)) path = save path

-- Lines 186 to 198: `all` is the dictionary, and `name` is overwritten before it is looked up.
unfoldable pub save_entries : Savers → Savers → Bytes → Py (List Write) (Unit {0})
unfolding save_sub look_up re_sub path_join write_file
save_entries all [] root = pure tt
save_entries all ((name, text c) ∷ m) root = do
  write_file (path_join root (re_sub name)) c
  save_entries all m root
save_entries all ((name, call s) ∷ m) root = do
  save_sub (look_up (re_sub name) all) (path_join root (re_sub name))
  save_entries all m root

unfoldable pub save_all : Savers → Bytes → Py (List Write) (Unit {0})
unfolding save_entries make_folder
save_all m root = do make_folder root; save_entries m m root

unfoldable pub savers : Dict → Savers
unfolding save_all
savers empty = []
savers (entry name (file c) f) = (name, text c) ∷ savers f
savers (entry name (folder g) f) = (name, call (save_all (savers g))) ∷ savers f

unfoldable pub save_files : Dict → Bytes → Py (List Write) (Unit {0})
unfolding savers
save_files f root = save_all (savers f) root
