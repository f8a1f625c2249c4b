-- ===== src/Exec/Lost.antt =====
-- An scp upload from the channels of its exec session to util/playlog.py, which finds no file
-- (wetland/services/exec_service.py, wetland/output_plugin/log.py, util/playlog.py).
use wetland.Prelude.{
  ℕ, suc, Bytes, codes, bytes_eq, is_in, re_match, re_split, Files, IsByte, All, List, [], ◌∷◌,
  Option, true, false, ◌≡◌, ◌≢◌, refl, ap, ◌∙◌, arith,
}
use wetland.Prelude.Py.{Outcome, returned}
use wetland.Relay.{Side, hacker, docker, Trace, Round, exec_command}
use wetland.Relay.Recorded.{sent, emitted, crossed, IsRound}
use wetland.Log.{send_all}
use wetland.Exec.{exec_service, upload_command}
use wetland.Exec.Told.{exec_service-IsTold, kept}
use wetland.Exec.Replayed.{exec_log, exec_replay, IsSaved, exec_get-stamped}
use wetland.Playlog.{Entry, Session}
use wetland.Playlog.Lines.{IsStamp}
use wetland.Playlog.Items.{Piece, said, noted, texts, stamped, entries, entries_full}
use wetland.Playlog.Choose.{choose_player-log}
use wetland.Playlog.ExecPlayer.{ExecReader, scp_command, texts_of, exec_get, settle_session}
use wetland.Playlog.ExecRead.{reading}
use wetland.Playlog.Players.{exec_show, show_sessions, act}
use wetland.Playlog.Players.Laws.{upload_settled}
use wetland.Playlog.Program.{playlog, save_path, exec_start, fresh_reader}

-- The texts of the hacker.
abbrev typed : List (Side × Bytes) → List Bytes
typed [] = []
typed ((hacker, text) ∷ l) = text ∷ typed l
typed ((docker, text) ∷ l) = typed l

typed-kept : (l : List (Side × Bytes)) → typed (kept true l) ≡ []
unfolding kept
typed-kept [] = refl
typed-kept ((hacker, text) ∷ l) = typed-kept l
typed-kept ((docker, text) ∷ l) = typed-kept l

texts_of-typed :
    (now : ℕ → Bytes) (n : ℕ) (is : List Piece)
    → texts_of (codes "[H]") (entries now n is) ≡ typed (texts is)
unfolding texts_of entries texts bytes_eq
texts_of-typed now n [] = refl
texts_of-typed now n (said hacker text ∷ is) = ap (λ l. text ∷ l) (texts_of-typed now (suc n) is)
texts_of-typed now n (said docker text ∷ is) = texts_of-typed now (suc n) is
texts_of-typed now n (noted name text ∷ is) = texts_of-typed now (suc n) is

-- A session in which only the container said something, and its first entry.
record IsHeard (es : Session) : Type 0 where
  first : Entry
  others : Session
  split : es ≡ first ∷ others
  from_hacker : texts_of (codes "[H]") others ≡ []

IsHeard-session : (es : Session) → es ≢ [] → texts_of (codes "[H]") es ≡ [] → IsHeard es
unfolding texts_of
IsHeard-session [] n h = absurd (n refl)
IsHeard-session (e ∷ es) n h = record {
  first = e;
  others = es;
  split = refl;
  from_hacker = quiet h;
}
  where
    quiet : texts_of (codes "[H]") (e ∷ es) ≡ [] → texts_of (codes "[H]") es ≡ []
    quiet k = ground (arith, k)

exec_replay-settled :
    (folder answer contents : Bytes) (s : Option Bytes) (r : Outcome (Unit {0}) × ExecReader)
    → exec_get (save_path s) contents fresh_reader ≡ r
    → r.0 ≡ returned tt
    → r.1.writes ≡ []
    → r.1.reader.sessions ≡ []
    → IsSaved (exec_replay folder s answer contents) []
unfolding playlog exec_start exec_show show_sessions act
exec_replay-settled folder answer contents s r g h w k =
    rw ((choose_player-log folder).1, g, h, k) (record { result = refl; disk = w })

-- In an exec session whose command is an upload of scp, for exec_service and for util/playlog.py,
-- has no word -f, and is taken by the container, with channels that deliver bytes, where something
-- is handed to the hacker's sendall, whatever else the channels answer or raise, if the plugin log
-- writes the events in their order, with times of one word, to the logs of an address whose
-- exec.log was empty: util/playlog.py, given that exec.log alone, returns and writes nothing to the
-- disk, so that what the hacker uploads is not extracted.
pub exec_service_upload_lost :
    (answers : Trace → Outcome (Unit {0})) (cmd : Bytes) (rounds : List Round) (now : ℕ → Bytes)
    (logpath folder answer : Bytes) (s : Option Bytes) (files : Files)
    → answers (exec_command cmd ∷ []) ≡ returned tt
    → re_match upload_command cmd ≡ true
    → re_match scp_command cmd ≡ true
    → is_in (codes "-f") (re_split cmd) ≡ false
    → All IsByte cmd
    → All IsRound rounds
    → ((k : ℕ) → IsStamp (now k))
    → files (exec_log logpath) ≡ []
    → sent hacker (exec_service answers cmd rounds []).trace ≢ []
    → IsSaved
        (exec_replay folder s answer (
          send_all logpath
            (stamped now 0 (emitted (exec_service answers cmd rounds []).trace))
            files
            (exec_log logpath)))
        []
unfolding entries
exec_service_upload_lost answers cmd rounds now logpath folder answer s files a u m f c q h e n =
    let told = exec_service-IsTold answers cmd rounds a q in
    let all = ap (λ b. kept b (crossed (exec_service answers cmd rounds []).trace)) u in
    let heard =
      IsHeard-session (entries now 3 told.items)
        (entries_full now 3 told.items (rw told.to_hacker n))
        (texts_of-typed now 3 told.items ∙ ap typed (told.order ∙ all) ∙ typed-kept _) in
    let command : Entry = record { time = now 1; direction = codes "[H]"; text = cmd } in
    let es = command ∷ heard.first ∷ heard.others in
    let lost =
      upload_settled (save_path s) command heard.first heard.others (reading es fresh_reader) m f
        heard.from_hacker in
    rw told.events (
      exec_replay-settled folder answer _ s
        (settle_session (save_path s) es (reading es fresh_reader))
        (exec_get-stamped logpath (save_path s) cmd now told.items files e h c told.bytes
          ∙ ap
              (λ d. settle_session (save_path s) (command ∷ d) (reading (command ∷ d) fresh_reader))
              heard.split)
        lost.0 lost.1 (ap (λ r. r.sessions) lost.2))
