-- ===== src/Playlog/Players/Laws.antt =====
-- What the players show and extract (util/playlog.py).
use wetland.Prelude.{
  ℕ, suc, Bytes, codes, is_in, re_match, re_split, List, [], ◌∷◌, ◌++◌, some, true, false, ◌≡◌, ◌≢◌,
  Bool-cases, if◌then◌else◌, inl, inr, refl,
}
use wetland.Prelude.Py.{returned, raised, index_error}
use wetland.Playlog.{Entry, Session, shell_get}
use wetland.Playlog.Scp.{Dict, empty, entry, makedirs, extract_files}
use wetland.Playlog.Scp.RoundTrip.{Tree, messages, received, IsSendable, extract_files-messages}
use wetland.Playlog.Scp.Saved.{IsPlainIn, Fits, written, save_files-written}
use wetland.Playlog.Players.{Acts, print, detected, span, list_sessions, numbered, act, shell_start}
use wetland.Playlog.ExecPlayer.{
  scp_command, at_word, download_folder, upload_file, ExecReader, texts_of, extract, save, transfer,
  scp, settle_session,
}

-- An entry gives a session both its times.
span_some : (e : Entry) (es : Session) → (r : Bytes × Bytes) × (span (e ∷ es) ≡ returned r)
unfolding span
span_some e [] = ((e.time, e.time), refl)
span_some e (d ∷ es) = let (r, h) = span_some d es in ((e.time, r.1), rw h)

list_sessions_raises :
    (before after : List Session) (n : ℕ) (acts : Acts)
    → (list_sessions n (before ++ [] ∷ after) acts).0 ≡ raised index_error
unfolding list_sessions span act
list_sessions_raises [] after n acts = refl
list_sessions_raises ([] ∷ before) after n acts = refl
list_sessions_raises ((e ∷ es) ∷ before) after n acts =
    let (r, k) = span_some e es in
    rw k (list_sessions_raises before after (suc n) (acts ++ print (numbered n r) ∷ []))

-- A log in which get finds an empty session ends shell_player.start with an IndexError, before it
-- asks for a session.
pub shell_start_raises :
    (contents answer : Bytes) (before after : List Session) (acts : Acts)
    → shell_get contents ≡ returned (before ++ [] ∷ after)
    → (shell_start contents answer acts).0 ≡ raised index_error
unfolding shell_start act
shell_start_raises contents answer before after acts h = rw h (
    rw (list_sessions_raises before after 0 (acts ++ print (detected (before ++ [] ∷ after)) ∷ [])))

extract-messages :
    (t : Tree) (s : ExecReader)
    → IsSendable t
    → extract (messages t) s ≡ (returned (some (received empty t)), s)
unfolding extract
extract-messages t s h = rw (extract_files-messages t s.printed h)

save-written :
    (save_path : Bytes) (f : Dict) (s : ExecReader)
    → f ≢ empty
    → IsPlainIn f f
    → Fits s.writes (makedirs save_path ∷ written save_path f)
    → save save_path (some f) s
      ≡ (returned tt, record s { writes = s.writes ++ makedirs save_path ∷ written save_path f })
unfolding save
save-written save_path empty s n h k = absurd (n refl)
save-written save_path (entry name node f) s n h k =
    rw (save_files-written (entry name node f) save_path s.writes h k)

-- What is printed when a session is seen to be an scp that sends from the container.
abbrev pub found_at : Entry → Bytes
found_at c =
    at_word (re_split c.text)
      (if is_in (codes "-r") (re_split c.text) then download_folder else upload_file)

-- A session in which the hacker fetched a tree of files that fits where it goes: the tree is saved.
pub download_settled :
    (save_path : Bytes) (c d : Entry) (datas : Session) (t : Tree) (s : ExecReader)
    → re_match scp_command c.text ≡ true
    → is_in (codes "-f") (re_split c.text) ≡ true
    → texts_of (codes "[V]") datas ≡ messages t
    → IsSendable t
    → received empty t ≢ empty
    → IsPlainIn (received empty t) (received empty t)
    → Fits s.writes (makedirs save_path ∷ written save_path (received empty t))
    → settle_session save_path (c ∷ d ∷ datas) s ≡ (
      returned tt,
      record s {
        printed = s.printed ++ found_at c ∷ [];
        writes = s.writes ++ makedirs save_path ∷ written save_path (received empty t);
      },
    )
unfolding settle_session scp transfer
download_settled save_path c d datas t s m f v h n p q =
    rw (m, f, v)
      (rw (extract-messages t _ h) (
        rw
          (save-written save_path (received empty t)
            (record s { printed = s.printed ++ found_at c ∷ [] }) n p q)
          refl))

-- A session in which the hacker uploaded with scp, and whose log holds no text of the hacker's
-- after the command and the entry behind it: nothing is written.
pub upload_settled :
    (save_path : Bytes) (c d : Entry) (datas : Session) (s : ExecReader)
    → re_match scp_command c.text ≡ true
    → is_in (codes "-f") (re_split c.text) ≡ false
    → texts_of (codes "[H]") datas ≡ []
    → ((settle_session save_path (c ∷ d ∷ datas) s).0 ≡ returned tt)
      × ((settle_session save_path (c ∷ d ∷ datas) s).1.writes ≡ s.writes)
      × ((settle_session save_path (c ∷ d ∷ datas) s).1.reader ≡ s.reader)
unfolding settle_session scp transfer extract extract_files save
upload_settled save_path c d datas s m f v =
    elim (Bool-cases (is_in (codes "-t") (re_split c.text))) [
      | inl upload ↦ rw (m, f, upload, v) (refl, refl, refl)
      | inr invalid ↦ rw (m, f, invalid) (refl, refl, refl)
    ]
