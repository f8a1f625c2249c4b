-- ===== src/Exec/Tests.antt =====
-- Exec sessions, with uploads of scp.
use wetland.Prelude.{
  arith, All, none, str, is_in, bytes_eq, re_sub, path_join, map, concat, codes, Bytes, List, [],
  ◌∷◌, ◌++◌, ◌≡◌, refl, true, false, some, re_match, pos, re_split,
}
use wetland.Prelude.Py.{Outcome, returned}
use wetland.Exec.Upload.{arriving, copied, upload_copied}
use wetland.Exec.Parts.{IsExecLog}
use wetland.Exec.Logged.{exec_service-IsExecLog}
use wetland.Relay.{send, hacker, docker, Trace, hacker_in, docker_in, Round, waiting}
use wetland.Relay.Recorded.{sent, emitted, crossed, IsRound}
use wetland.Log.{send_all}
use wetland.Exec.Lost.{exec_service_upload_lost}
use wetland.Exec.Replayed.{exec_log, exec_replay, IsSaved, exec_service_download}
use wetland.Playlog.Lines.{IsStamp}
use wetland.Playlog.Items.{stamped}
use wetland.Playlog.Scp.{put, makedirs, write, is_there, below_file}
use wetland.Playlog.Scp.RoundTrip.{Tree, done, send_file, send_folder, messages, IsSendable}
use wetland.Playlog.ExecPlayer.{scp_command}
use wetland.Playlog.Program.{save_path}
use wetland.Exec.{
  upload_command, file_header, length_field, Exec, exec_service, copies, loop, unbound,
}

abbrev all_return : Trace → Outcome (Unit {0})
all_return t = returned tt

upload_commands :
    re_match upload_command (codes "scp -t /tmp")
      ∷ re_match upload_command (codes "scp -r -t /tmp/a")
      ∷ re_match upload_command (codes "scp -v -t /tmp")
      ∷ re_match upload_command (codes "scp -f /tmp")
      ∷ []
    ≡ true ∷ true ∷ false ∷ false ∷ []
unfolding re_match
upload_commands = refl

headers :
    re_match file_header (codes "C0644 12 a.txt\n")
      ∷ re_match file_header (codes "D0755 0 dir\n")
      ∷ re_match file_header (codes "C0644 12 a.txt")
      ∷ []
    ≡ true ∷ false ∷ false ∷ []
unfolding re_match
headers = refl

header_length : length_field (codes "C0644 12 a.txt\n") ≡ returned (pos 12)
unfolding length_field
header_length = refl

runs_split : re_split (codes "scp  -t /tmp ") ≡ codes "scp" ∷ codes "-t" ∷ codes "/tmp" ∷ [] ∷ []
unfolding re_split
runs_split = refl

abbrev typed : List Bytes → List Round
typed [] = []
typed (t ∷ ts) =
    record { events = hacker_in (some t) false ∷ []; hacker_eof = false; docker_eof = false }
    ∷ typed ts

-- The zero byte that ends a file is copied with it, if it comes in the same text.
uploaded :
    copies (
      exec_service all_return
        (codes "scp -t /tmp")
        (typed (codes "C0644 4 a\n" ∷ codes "ab" ∷ (codes "cd" ++ 0 ∷ []) ∷ []))
        [])
    ≡ (codes "abcd" ++ 0 ∷ []) ∷ []
unfolding exec_service re_match length_field copies
uploaded = refl

abbrev before : Exec
before = record { trace = []; filelen = pos 0; nowlen = 0; scpfile = unbound; files = [] }

upload_copied_example :
    loop all_return true
      (arriving (codes "C0644 4 a\n" ∷ (codes "ab" ∷ (codes "cd" ++ 0 ∷ []) ∷ [])))
      before
    ≡ (
      waiting,
      copied
          (map (send docker) (codes "C0644 4 a\n" ∷ codes "ab" ∷ (codes "cd" ++ 0 ∷ []) ∷ []))
          ((codes "abcd" ++ 0 ∷ []) ∷ []),
    )
unfolding re_match length_field concat copies
upload_copied_example =
    upload_copied all_return (λ t. refl) (codes "C0644 4 a\n") (codes "ab" ∷ [])
      (codes "cd" ++ 0 ∷ []) (codes "abcd") (0 ∷ []) before refl refl refl (refl, tt) refl refl
      (omega arith)

exec_service-IsExecLog_example :
    IsExecLog
      (codes "ls")
      (re_match upload_command (codes "ls"))
      (exec_service all_return (codes "ls") (typed (codes "y" ∷ [])) []).trace
exec_service-IsExecLog_example =
    exec_service-IsExecLog all_return (codes "ls") (typed (codes "y" ∷ [])) refl

-- The hacker asks, and then the container sends a folder with one file in two texts.
abbrev tree : Tree
tree =
    send_folder (codes "0755") (codes "dir")
      (send_file (codes "0644") (codes "notes") (codes "ab" ∷ []) (codes "c") done) done

abbrev answered : List Bytes → List Round
answered [] = []
answered (t ∷ ts) =
    record { events = docker_in (some t) none false ∷ []; hacker_eof = false; docker_eof = false }
    ∷ answered ts

abbrev fetching : List Round
fetching =
    typed ((0 ∷ []) ∷ [])
    ++ answered (
        codes "D0755 0 dir\n"
        ∷ codes "C0644 3 notes\n"
        ∷ codes "ab"
        ∷ (codes "c" ++ 0 ∷ [])
        ∷ codes "E\n"
        ∷ [])

abbrev download : Bytes
download = codes "scp -r -f dir"

tree-IsSendable : IsSendable tree
unfolding bytes_eq
tree-IsSendable = (
  record { digits = (refl, (refl, (refl, (refl, tt)))); four = refl },
  record { solid = (refl, (refl, (refl, tt))); some_text = λ e. cc },
  (
    record { digits = (refl, (refl, (refl, (refl, tt)))); four = refl },
    record { solid = (refl, (refl, (refl, (refl, (refl, tt))))); some_text = λ e. cc },
    (refl, tt),
    tt,
  ),
  tt,
)

fetching-IsRound : All IsRound fetching
fetching-IsRound = ground arith

abbrev at_noon : Bytes
at_noon = codes "180101-12:00:00"

at_noon-IsStamp : IsStamp at_noon
at_noon-IsStamp = record { solid = ground arith; some_text = λ e. cc }

fetching-crossed :
    crossed (exec_service all_return download fetching []).trace
    ≡ (hacker, 0 ∷ [])
      ∷ (docker, codes "D0755 0 dir\n")
      ∷ (docker, codes "C0644 3 notes\n")
      ∷ (docker, codes "ab")
      ∷ (docker, codes "c" ++ 0 ∷ [])
      ∷ (docker, codes "E\n")
      ∷ []
unfolding exec_service re_match crossed
fetching-crossed = refl

fetching_sent : sent hacker (exec_service all_return download fetching []).trace ≡ messages tree
unfolding exec_service re_match concat str
fetching_sent = refl

download_words :
    (re_match scp_command download ≡ true)
    × (is_in (codes "-f") (re_split download) ≡ true)
    × (re_match upload_command download ≡ false)
unfolding re_match re_split is_in bytes_eq
download_words = (refl, refl, refl)

exec_service_download_example :
    IsSaved
      (exec_replay (codes "log/10.0.0.1") (some (codes "out")) [] (
        send_all
          (codes "log/10.0.0.1")
          (stamped (λ n. at_noon) 0 (emitted (exec_service all_return download fetching []).trace))
          (λ p. [])
          (exec_log (codes "log/10.0.0.1"))))
      (makedirs (codes "out")
        ∷ makedirs (codes "out/dir")
        ∷ write (codes "out/dir/notes") (codes "abc")
        ∷ [])
unfolding save_path put re_sub path_join bytes_eq concat is_there below_file
exec_service_download_example =
    exec_service_download all_return download fetching (λ n. at_noon) (codes "log/10.0.0.1")
      (codes "log/10.0.0.1") [] (some (codes "out")) (λ p. []) (0 ∷ []) _ tree refl download_words.0
      download_words.1 download_words.2 (ground arith) fetching-IsRound (λ k. at_noon-IsStamp) refl
      fetching-crossed fetching_sent tree-IsSendable (λ e. cc) (refl, tt, tt)
      ((refl, refl, refl), ((refl, refl, refl), ((refl, refl), tt)))

-- The container takes a file that the hacker sends.
abbrev sending : List Round
sending =
    answered ((0 ∷ []) ∷ [])
    ++ typed (codes "C0644 4 a\n" ∷ codes "ab" ∷ (codes "cd" ++ 0 ∷ []) ∷ [])

abbrev upload : Bytes
upload = codes "scp -t /tmp"

sending-IsRound : All IsRound sending
sending-IsRound = ground arith

sending_sent : sent hacker (exec_service all_return upload sending []).trace ≡ (0 ∷ []) ∷ []
unfolding exec_service re_match length_field
sending_sent = refl

upload_words :
    (re_match upload_command upload ≡ true)
    × (re_match scp_command upload ≡ true)
    × (is_in (codes "-f") (re_split upload) ≡ false)
unfolding re_match re_split is_in bytes_eq
upload_words = (refl, refl, refl)

exec_service_upload_lost_example :
    IsSaved
      (exec_replay (codes "log/10.0.0.1") (some (codes "out")) [] (
        send_all
          (codes "log/10.0.0.1")
          (stamped (λ n. at_noon) 0 (emitted (exec_service all_return upload sending []).trace))
          (λ p. [])
          (exec_log (codes "log/10.0.0.1"))))
      []
exec_service_upload_lost_example =
    exec_service_upload_lost all_return upload sending (λ n. at_noon) (codes "log/10.0.0.1")
      (codes "log/10.0.0.1") [] (some (codes "out")) (λ p. []) refl upload_words.0 upload_words.1
      upload_words.2 (ground arith) sending-IsRound (λ k. at_noon-IsStamp) refl
      (rw sending_sent (λ e. cc))
