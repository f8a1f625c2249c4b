-- ===== src/Log.antt =====
-- The plugin `log`: the text logs of each address (wetland/output_plugin/log.py).
pub mod Folders
use wetland.Prelude.{
  Bytes, codes, bytes_eq, is_in, join, path_join, Files, append_file, List, [], ◌∷◌, ◌++◌,
  if◌then◌else◌,
}
use wetland.Event.{Event, wetland_subject, content_subject}

-- The folder of the address `hacker_ip` under the folder of all logs.
unfoldable pub get_logpath : Bytes → Bytes → Bytes
get_logpath logpath hacker_ip = path_join logpath hacker_ip

-- ' '.join([now, action, content, '\n'])
unfoldable pub action_line : Bytes → Event → Bytes
action_line now e = join (codes " ") (now ∷ e.action ∷ e.content ∷ codes "\n" ∷ [])

-- ' '.join([now, content, '\n'])
unfoldable pub content_line : Bytes → Event → Bytes
content_line now e = join (codes " ") (now ∷ e.content ∷ codes "\n" ∷ [])

-- `now` is what `time.strftime` returns in the call.
unfoldable pub send : Bytes → Bytes → Event → Files → Files
unfolding action_line content_line
send logpath now e files =
    if bytes_eq e.subject wetland_subject
    then append_file (path_join logpath (codes "wetland.log")) (action_line now e) files
    else if bytes_eq e.subject content_subject
    then append_file (path_join logpath (e.action ++ codes ".log")) (content_line now e) files
    else if is_in e.subject (codes "sftpfile" ∷ codes "sftpserver" ∷ [])
    then append_file (path_join logpath (codes "sftp.log")) (action_line now e) files
    else files

-- The calls of `send` in order, each with its time.
unfoldable pub send_all : Bytes → List (Bytes × Event) → Files → Files
unfolding send
send_all logpath [] files = files
send_all logpath ((now, e) ∷ es) files = send_all logpath es (send logpath now e files)
