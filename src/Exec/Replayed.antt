-- ===== src/Exec/Replayed.antt =====
-- Transfers of scp from the channels of their exec session to the folder of the saved files
-- (wetland/services/exec_service.py, wetland/output_plugin/log.py, util/playlog.py).
use wetland.Prelude.{
  ℕ, suc, Bytes, codes, bytes_eq, is_in, re_match, re_split, path_join, Files, IsByte, All, map,
  List, [], ◌∷◌, ◌++◌, Option, none, true, false, ◌≡◌, ◌≢◌, refl, ap, ◌∙◌,
}
use wetland.Prelude.Py.{Outcome, returned}
use wetland.Relay.{Side, hacker, docker, Trace, Round, exec_command}
use wetland.Relay.Recorded.{sent, emitted, crossed, IsRound}
use wetland.Log.{send_all}
use wetland.Exec.{exec, exec_service, upload_command}
use wetland.Exec.Told.{announced, exec_service-IsTold, kept, kept_all}
use wetland.Playlog.{Entry, Session}
use wetland.Playlog.Lines.{Recording, IsStamp}
use wetland.Playlog.Items.{
  Piece, said, noted, event_of, texts, shown, HasBytes, stamped, entries, entries-IsEntry,
  marker_event, send_all-transcript,
}
use wetland.Playlog.Choose.{choose_player-log}
use wetland.Playlog.Scp.{Write, empty, makedirs}
use wetland.Playlog.Scp.RoundTrip.{Tree, messages, received, IsSendable}
use wetland.Playlog.Scp.Saved.{IsPlainIn, Fits, written}
use wetland.Playlog.ExecPlayer.{scp_command, texts_of, exec_get, settle_session}
use wetland.Playlog.ExecRead.{reading, exec_get-send_all}
use wetland.Playlog.Players.{exec_show, show_sessions, act}
use wetland.Playlog.Players.Laws.{download_settled}
use wetland.Playlog.Program.{Run, playlog, save_path, exec_start, fresh_reader}

abbrev pub exec_log : Bytes → Bytes
exec_log logpath = path_join logpath (codes "exec.log")

texts_of-entries :
    (now : ℕ → Bytes) (n : ℕ) (is : List Piece)
    → texts_of (codes "[V]") (entries now n is) ≡ shown is
unfolding texts_of entries shown bytes_eq
texts_of-entries now n [] = refl
texts_of-entries now n (said docker text ∷ is) =
    ap (λ l. text ∷ l) (texts_of-entries now (suc n) is)
texts_of-entries now n (said hacker text ∷ is) = texts_of-entries now (suc n) is
texts_of-entries now n (noted name text ∷ is) = texts_of-entries now (suc n) is

-- If the hacker's text is the first, the entry that `scp` takes off with the command is the
-- hacker's, and what is left has all texts of the container.
pub record IsOpened (es : Session) (container : List Bytes) : Type 0 where
  pub first : Entry
  pub others : Session
  pub split : es ≡ first ∷ others
  pub from_container : texts_of (codes "[V]") others ≡ container

entries-IsOpened :
    (now : ℕ → Bytes) (n : ℕ) (is : List Piece) (first : Bytes) (rest : List (Side × Bytes))
    → texts is ≡ (hacker, first) ∷ rest
    → IsOpened (entries now n is) (shown is)
unfolding entries texts shown
entries-IsOpened now n [] first rest h = cc
entries-IsOpened now n (said hacker text ∷ is) first rest h = record {
  first = record { time = now n; direction = codes "[H]"; text = text };
  others = entries now (suc n) is;
  split = refl;
  from_container = texts_of-entries now (suc n) is;
}
entries-IsOpened now n (said docker text ∷ is) first rest h = cc
entries-IsOpened now n (noted name text ∷ is) first rest h =
    entries-IsOpened now (suc n) is first rest h

-- The program returned, and did these writes.
pub record IsSaved (r : Outcome (Unit {0}) × Run) (writes : List Write) : Type 0 where
  pub result : r.0 ≡ returned tt
  pub disk : r.1.writes ≡ writes

-- util/playlog.py with the contents of an exec.log.
abbrev pub exec_replay : Bytes → Option Bytes → Bytes → Bytes → Outcome (Unit {0}) × Run
exec_replay folder s answer contents =
    playlog (record { t = none; p = folder ++ codes "/exec.log"; s = s }) contents answer
      (record { acts = []; writes = [] })

exec_replay-IsSaved :
    (folder answer contents : Bytes) (s : Option Bytes) (c d : Entry) (others : Session) (t : Tree)
    → exec_get (save_path s) contents fresh_reader
      ≡ settle_session (save_path s) (c ∷ d ∷ others) (reading (c ∷ d ∷ others) fresh_reader)
    → re_match scp_command c.text ≡ true
    → is_in (codes "-f") (re_split c.text) ≡ true
    → texts_of (codes "[V]") others ≡ messages t
    → IsSendable t
    → received empty t ≢ empty
    → IsPlainIn (received empty t) (received empty t)
    → Fits [] (makedirs (save_path s) ∷ written (save_path s) (received empty t))
    → IsSaved
        (exec_replay folder s answer contents)
        (makedirs (save_path s) ∷ written (save_path s) (received empty t))
unfolding playlog exec_start exec_show show_sessions act
exec_replay-IsSaved folder answer contents s c d others t g m f v h n p q =
    rw
      (
        (choose_player-log folder).1,
        g,
        download_settled (save_path s) c d others t (reading (c ∷ d ∷ others) fresh_reader) m f v h
            n p q,
      )
      (record { result = refl; disk = refl })

pub exec_get-stamped :
    (logpath save_folder cmd : Bytes) (now : ℕ → Bytes) (is : List Piece) (files : Files)
    → files (exec_log logpath) ≡ []
    → ((k : ℕ) → IsStamp (now k))
    → All IsByte cmd
    → All HasBytes is
    → let es = entries now 1 (announced cmd ++ is) in
      exec_get save_folder
        (send_all logpath
          (stamped now 0 (marker_event exec ∷ map (event_of exec) (announced cmd ++ is)))
          files
          (exec_log logpath))
        fresh_reader
      ≡ settle_session save_folder es (reading es fresh_reader)
exec_get-stamped logpath save_folder cmd now is files e h c b =
    let items = announced cmd ++ is in
    let recording : Recording = record { start = now 0; entries = entries now 1 items } in
    ap (λ contents. exec_get save_folder contents fresh_reader)
      (send_all-transcript exec refl (unfold bytes_eq in refl) logpath now 0 items files)
    ∙ exec_get-send_all save_folder logpath recording files e
        (record { stamp = h 0; each = entries-IsEntry now 1 items h (c, (tt, b)) })

-- What the hacker fetched with scp is what is saved: in an exec session whose command is one of scp
-- with a word -f and is no upload, and is taken by the container, with channels that deliver bytes,
-- where the first text that crosses is the hacker's and the texts for the hacker's sendall are the
-- messages of a tree of files whose modes have four digits and whose names have no white space, in
-- texts of which none but a last one is a single zero byte, whatever else the channels answer or
-- raise, if the plugin log writes the events in their order, with times of one word, to the logs of
-- an address whose exec.log was empty: util/playlog.py, given that exec.log alone, with a folder of
-- the downloads that is not there before and a disk that refuses nothing else, returns and writes
-- the tree to that folder, with dictionaries in the order of insertion, and nothing else, if the
-- tree is not empty, its folders are found under their changed names, no folder is to be made where
-- something was put before, and no file is to be written where a folder was made or below a file.
pub exec_service_download :
    (answers : Trace → Outcome (Unit {0})) (cmd : Bytes) (rounds : List Round) (now : ℕ → Bytes)
    (logpath folder answer : Bytes) (s : Option Bytes) (files : Files) (first : Bytes)
    (rest : List (Side × Bytes)) (t : Tree)
    → answers (exec_command cmd ∷ []) ≡ returned tt
    → re_match scp_command cmd ≡ true
    → is_in (codes "-f") (re_split cmd) ≡ true
    → re_match upload_command cmd ≡ false
    → All IsByte cmd
    → All IsRound rounds
    → ((k : ℕ) → IsStamp (now k))
    → files (exec_log logpath) ≡ []
    → crossed (exec_service answers cmd rounds []).trace ≡ (hacker, first) ∷ rest
    → sent hacker (exec_service answers cmd rounds []).trace ≡ messages t
    → IsSendable t
    → received empty t ≢ empty
    → IsPlainIn (received empty t) (received empty t)
    → Fits [] (makedirs (save_path s) ∷ written (save_path s) (received empty t))
    → IsSaved
        (exec_replay folder s answer (
          send_all logpath
            (stamped now 0 (emitted (exec_service answers cmd rounds []).trace))
            files
            (exec_log logpath)))
        (makedirs (save_path s) ∷ written (save_path s) (received empty t))
unfolding entries
exec_service_download answers cmd rounds now logpath folder answer s files first rest t a m f u c q
      h e o v i n p w =
    let told = exec_service-IsTold answers cmd rounds a q in
    let all =
      ap (λ b. kept b (crossed (exec_service answers cmd rounds []).trace)) u ∙ kept_all _ in
    let opened = entries-IsOpened now 3 told.items first rest (told.order ∙ all ∙ o) in
    let command : Entry = record { time = now 1; direction = codes "[H]"; text = cmd } in
    rw told.events (
      exec_replay-IsSaved folder answer _ s command opened.first opened.others t
        (exec_get-stamped logpath (save_path s) cmd now told.items files e h c told.bytes
          ∙ ap
              (λ es.
                settle_session (save_path s) (command ∷ es) (reading (command ∷ es) fresh_reader))
              opened.split)
        m f (opened.from_container ∙ told.to_hacker ∙ v) i n p w)
