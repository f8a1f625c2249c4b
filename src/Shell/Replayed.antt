-- ===== src/Shell/Replayed.antt =====
-- A shell session from its channels to the terminal on which its log is replayed
-- (wetland/services/shell_service.py, wetland/output_plugin/log.py, util/playlog.py).
use wetland.Prelude.{
  ℕ, suc, Bytes, codes, bytes_eq, path_join, Files, All, map, List, [], ◌∷◌, ◌++◌, Option, none,
  str, Bool-cases, inl, inr, ◌≡◌, ◌≢◌, refl, ap, sym, ◌∙◌,
}
use wetland.Prelude.Py.{Outcome, returned}
use wetland.Relay.{hacker, docker, Trace, Round}
use wetland.Relay.Recorded.{sent, emitted, IsRound}
use wetland.Log.{send_all}
use wetland.Shell.{shell_service}
use wetland.Shell.Told.{shell_service-IsTold}
use wetland.Playlog.{Entry, Session, shell_get}
use wetland.Playlog.Lines.{
  Recording, IsRecording, transcript, transcript-append, send_all-append, IsStamp,
}
use wetland.Playlog.RoundTrip.{played, get-send_all}
use wetland.Playlog.Choose.{choose_player-log}
use wetland.Playlog.Players.{Acts, write_out, lstrip_newlines}
use wetland.Playlog.Program.{Run, playlog}
use wetland.Playlog.Items.{
  Piece, said, noted, event_of, shown, HasBytes, stamped, entries, marker_event, entries-IsEntry,
  entries_full, send_all-transcript,
}
use wetland.Playlog.Played.{output, played_entries, screen, shell_start_lem, output-shell_start}
use mathlib.Core.List.{map-append}
use wetland.Prelude.{All-append, length}
use wetland.Playlog.Replayed.{sessions, played_full}

abbrev pub shell_log : Bytes → Bytes
shell_log logpath = path_join logpath (codes "shell.log")

-- The container's texts on the terminal.
abbrev pub plays : List Bytes → Acts
plays ts = map (λ t. write_out (lstrip_newlines t)) ts

output-entries :
    (now : ℕ → Bytes) (n : ℕ) (is : List Piece)
    → output (played_entries (entries now n is)) ≡ plays (shown is)
unfolding output played_entries entries shown bytes_eq
output-entries now n [] = refl
output-entries now n (said docker text ∷ is) =
    ap (λ l. write_out (lstrip_newlines text) ∷ l) (output-entries now (suc n) is)
output-entries now n (said hacker text ∷ is) = elim (Bool-cases (bytes_eq text (codes "\r"))) [
  | inl w ↦ rw w (output-entries now (suc n) is)
  | inr w ↦ rw w (output-entries now (suc n) is)
]
output-entries now n (noted name text ∷ is) = output-entries now (suc n) is

played_last :
    (ss : List Session) (s : Session)
    → All (λ s. s ≢ []) ss
    → s ≢ []
    → played ([] ∷ (ss ++ s ∷ [])) ≡ ss ++ s ∷ []
played_last [] s h n = refl
played_last (d ∷ ss) s h n =
    played_full d (ss ++ s ∷ []) (h.0, All-append (λ s. s ≢ []) ss (s ∷ []) h.1 (n, tt))

-- The log after sessions that it already holds.
shell_get-stamped :
    (logpath : Bytes) (earlier : List Recording) (now : ℕ → Bytes) (is : List Piece) (files : Files)
    → files (shell_log logpath) ≡ []
    → All IsRecording earlier
    → All (λ s. s ≢ []) (sessions earlier)
    → ((k : ℕ) → IsStamp (now k))
    → All HasBytes is
    → entries now 1 is ≢ []
    → shell_get (
        send_all logpath
          (transcript (codes "shell") earlier
            ++ stamped now 0 (marker_event (codes "shell") ∷ map (event_of (codes "shell")) is))
          files
          (shell_log logpath))
      ≡ returned (sessions earlier ++ entries now 1 is ∷ [])
shell_get-stamped logpath earlier now is files e r f h b n =
    let recording : Recording = record { start = now 0; entries = entries now 1 is } in
    let before = transcript (codes "shell") earlier in
    let after = transcript (codes "shell") (recording ∷ []) in
    ap shell_get (
      rw (send_all-append logpath before _ files) (
        send_all-transcript (codes "shell") refl (unfold bytes_eq in refl) logpath now 0 is
          (send_all logpath before files))
      ∙ ap (λ (g : Files). g (shell_log logpath)) (sym (send_all-append logpath before after files))
      ∙ ap (λ l. send_all logpath l files (shell_log logpath))
          (sym (transcript-append (codes "shell") earlier (recording ∷ []))))
    ∙ get-send_all logpath (codes "shell") (earlier ++ recording ∷ []) files e (
        All-append IsRecording earlier (recording ∷ []) r
          (record { stamp = h 0; each = entries-IsEntry now 1 is h b }, tt))
    ∙ rw (map-append (λ (c : Recording). c.entries) earlier (recording ∷ []))
        (ap returned (played_last (sessions earlier) (entries now 1 is) f n))

-- util/playlog.py with the contents of a shell.log, where session `n` is asked for.
abbrev pub shell_replay : Bytes → Option Bytes → ℕ → Bytes → Outcome (Unit {0}) × Run
shell_replay folder s n contents =
    playlog (record { t = none; p = folder ++ codes "/shell.log"; s = s }) contents (str n)
      (record { acts = []; writes = [] })

-- With a log that `get` reads as `ss` and one more session, the program returned, showed nothing on
-- the terminal but the list of the sessions, the banners and these texts, and wrote nothing to the
-- disk.
pub record IsReplay (contents : Bytes) (ss : List Session) (r : Outcome (Unit {0}) × Run)
    (texts : List Bytes) : Type 0 where
  pub first : Entry
  pub others : Session
  pub read : shell_get contents ≡ returned (ss ++ (first ∷ others) ∷ [])
  pub result : r.0 ≡ returned tt
  pub terminal : output r.1.acts ≡ screen ss first others (plays texts)
  pub disk : r.1.writes ≡ []

shell_replay-IsReplay :
    (folder : Bytes) (s : Option Bytes) (contents : Bytes) (ss : List Session) (last : Session)
    (texts : List Bytes)
    → All (λ s. s ≢ []) ss
    → last ≢ []
    → shell_get contents ≡ returned (ss ++ last ∷ [])
    → output (played_entries last) ≡ plays texts
    → IsReplay contents ss (shell_replay folder s (length ss) contents) texts
unfolding playlog
shell_replay-IsReplay folder s contents ss [] texts f n h k = absurd (n refl)
shell_replay-IsReplay folder s contents ss (e ∷ es) texts f n h k =
    let run = shell_start_lem contents ss e es f h in
    record {
      first = e;
      others = es;
      read = h;
      result = rw ((choose_player-log folder).0, run) refl;
      terminal =
          rw ((choose_player-log folder).0, run)
            (output-shell_start ss e es ∙ ap (screen ss e es) k);
      disk = rw ((choose_player-log folder).0) refl;
    }

-- What the hacker saw of a shell is what its replay writes: whatever the two channels answer or
-- raise, if they deliver bytes, something is sent to the hacker, and the plugin log writes the
-- events in their order, with times of one word, behind any well-formed sessions with entries that
-- the same shell.log holds already, then util/playlog.py, given that shell.log alone and asked for
-- the last session, returns; apart from the waits for a key, it shows the list of the sessions, the
-- opening banner, exactly the texts that were handed to the hacker's sendall, in order, each
-- without the line ends at its start, and the closing one, and prints nothing else; and it writes
-- nothing to the disk.
pub shell_service_replayed :
    (answers : Trace → Outcome (Unit {0})) (rounds : List Round) (now : ℕ → Bytes)
    (logpath folder : Bytes) (s : Option Bytes) (earlier : List Recording) (files : Files)
    → All IsRound rounds
    → ((k : ℕ) → IsStamp (now k))
    → sent hacker (shell_service answers rounds []).trace ≢ []
    → files (shell_log logpath) ≡ []
    → All IsRecording earlier
    → All (λ s. s ≢ []) (sessions earlier)
    → let contents =
        send_all logpath
          (transcript (codes "shell") earlier
            ++ stamped now 0 (emitted (shell_service answers rounds []).trace))
          files
          (shell_log logpath) in
      IsReplay contents
        (sessions earlier)
        (shell_replay folder s (length (sessions earlier)) contents)
        (sent hacker (shell_service answers rounds []).trace)
shell_service_replayed answers rounds now logpath folder s earlier files q h n empty r f =
    let told = shell_service-IsTold answers rounds q in
    let items = told.items in
    let full = entries_full now 1 items (rw told.to_hacker n) in
    shell_replay-IsReplay folder s _ (sessions earlier) (entries now 1 items) _ f full
      (rw told.events
        (shell_get-stamped logpath earlier now items files empty r f h told.bytes full))
      (output-entries now 1 items ∙ ap plays told.to_hacker)
