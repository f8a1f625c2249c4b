-- ===== src/Plugins.antt =====
-- Which events the plugins report (wetland/output.py and wetland/output_plugin).
pub mod Filters
pub mod Messages
pub mod Posts
pub mod Jsonlog
mod Tests
use wetland.Prelude.{
  Bytes, codes, bytes_eq, is_in, Bool, true, false, not, ◌&&◌, ◌||◌, List, [], ◌∷◌, ◌==◌,
  if◌then◌else◌,
}
use wetland.Prelude.Py.{Outcome, returned, raised, attribute_error}
use wetland.Event.{Event, wetland_subject, content_subject}

-- get_plugins: the names of the section `output` whose value is the text 'true'
unfoldable pub get_plugins : List (Bytes × Bytes) → List Bytes
unfolding bytes_eq
get_plugins [] = []
get_plugins ((k, v) ∷ items) =
    let rest = get_plugins items in if bytes_eq v (codes "true") then k ∷ rest else rest

-- sub in s
unfoldable pub has_prefix : Bytes → Bytes → Bool
has_prefix [] s = true
has_prefix (c ∷ p) [] = false
has_prefix (c ∷ p) (d ∷ s) = c == d && has_prefix p s

unfoldable pub has_substring : Bytes → Bytes → Bool
unfolding has_prefix
has_substring p [] = has_prefix p []
has_substring p (d ∷ s) = has_prefix p (d ∷ s) || has_substring p s

abbrev pub sftp_subjects : List Bytes
sftp_subjects = codes "sftpfile" ∷ codes "sftpserver" ∷ []

-- jsonlog.send, lines 45 to 61: whether the event is written
unfoldable pub jsonlog_reports : Event → Bool
jsonlog_reports e =
    if bytes_eq e.subject wetland_subject
      && is_in e.action (
          codes "login_successful"
          ∷ codes "shell command"
          ∷ codes "exec command"
          ∷ codes "direct_request"
          ∷ codes "reverse_request"
          ∷ [])
    then true
    else if is_in e.subject sftp_subjects
    then true
    else if bytes_eq e.subject content_subject && is_in e.action (codes "pwd" ∷ [])
    then true
    else bytes_eq e.subject (codes "upfile")

-- mqtt.send, lines 11 to 29
unfoldable pub mqtt_reports : Event → Bool
mqtt_reports e =
    if bytes_eq e.subject wetland_subject
      && is_in e.action (
          codes "login_successful"
          ∷ codes "shell command"
          ∷ codes "exec command"
          ∷ codes "direct_request"
          ∷ codes "reverse_request"
          ∷ codes "download"
          ∷ [])
    then true
    else if is_in e.subject sftp_subjects
    then true
    else if bytes_eq e.subject content_subject && is_in e.action (codes "pwd" ∷ [])
    then true
    else bytes_eq e.subject (codes "upfile")

-- bearychat.send, lines 18 to 22
unfoldable pub bearychat_reports : Event → Bool
bearychat_reports e =
    if not (bytes_eq e.subject wetland_subject) && not (has_substring (codes "sftp") e.subject)
    then false
    else not (
        is_in e.action (
          codes "env_request"
          ∷ codes "pty_request"
          ∷ codes "global_request"
          ∷ codes "channel_request"
          ∷ []))

-- email.send, line 25
unfoldable pub email_reports : Event → Bool
email_reports e = bytes_eq e.subject wetland_subject

-- `ssh_server` has no attribute `myip`, which the message of jsonlog needs.
unfoldable pub jsonlog_send : Event → Outcome Bool
jsonlog_send e = if jsonlog_reports e then raised attribute_error else returned true

-- The plugin has no attribute `tos`: its addresses are names of the module.
unfoldable pub email_send : Event → Outcome Bool
email_send e = if email_reports e then raised attribute_error else returned false
