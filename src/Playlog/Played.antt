-- ===== src/Playlog/Played.antt =====
-- What `shell_player` shows of a log, and what it writes to the terminal of one of its sessions
-- (util/playlog.py).
use wetland.Prelude.{
  ℕ, suc, Bytes, codes, bytes_eq, str, int-str, length, All, All-append, List, [], ◌∷◌, ◌++◌,
  append_assoc, append-nil, Bool-cases, inl, inr, ◌&&◌, ◌≡◌, ◌≢◌, refl, ap, sym, ◌∙◌, if◌then◌else◌,
}
use wetland.Prelude.Py.{returned, item}
use wetland.Playlog.{Entry, Session, shell_get}
use wetland.Playlog.Players.{
  Acts, print, write_out, print_error, wait, clear, detected, opening, numbered, lstrip_newlines,
  play_entry, play_each, item_at, play, list_sessions, replay, shell_start, act,
}
use wetland.Playlog.Replayed.{span_lem, last_time}

-- What appears on the terminal: everything but the waits for a key.
unfoldable pub output : Acts → Acts
output [] = []
output (wait ∷ rest) = output rest
output (write_out text ∷ rest) = write_out text ∷ output rest
output (print text ∷ rest) = print text ∷ output rest
output (print_error e ∷ rest) = print_error e ∷ output rest
output (clear ∷ rest) = clear ∷ output rest

-- What is played of an entry.
abbrev pub played_entry : Entry → Acts
played_entry e =
    if bytes_eq e.direction (codes "[V]")
    then write_out (lstrip_newlines e.text) ∷ []
    else if bytes_eq e.direction (codes "[H]") && bytes_eq e.text (codes "\r")
    then wait ∷ []
    else []

unfoldable pub played_entries : Session → Acts
played_entries [] = []
played_entries (e ∷ es) = played_entry e ++ played_entries es

play_each_lem :
    (es : Session) (acts : Acts) → play_each es acts ≡ (returned tt, acts ++ played_entries es)
unfolding play_each play_entry played_entries act
play_each_lem [] acts = ap (λ a. (returned tt, a)) (sym (append-nil acts))
play_each_lem (e ∷ es) acts = elim (Bool-cases (bytes_eq e.direction (codes "[V]"))) [
  | inl v ↦ rw (v, play_each_lem es) (ap (λ a. (returned tt, a)) (append_assoc acts _ _))
  | inr v ↦ elim (Bool-cases (bytes_eq e.direction (codes "[H]") && bytes_eq e.text (codes "\r"))) [
    | inl w ↦ rw (v, w, play_each_lem es) (ap (λ a. (returned tt, a)) (append_assoc acts _ _))
    | inr w ↦ rw (v, w, play_each_lem es) refl
  ]
]

-- The times of a session that is not empty.
abbrev pub times : Entry → Session → Bytes × Bytes
times e es = (e.time, last_time e.time es)

play_lem :
    (e : Entry) (es : Session) (acts : Acts)
    → play (e ∷ es) acts ≡ (
      returned tt,
      acts
          ++ print (opening (times e es))
            ∷ (played_entries (e ∷ es) ++ print (codes "Session closed") ∷ []),
    )
unfolding play act
play_lem e es acts =
    rw (span_lem e es, play_each_lem (e ∷ es) (acts ++ print (opening (times e es)) ∷ []))
      (ap (λ a. (returned tt, a)) (simp append_assoc))

output-append : (a b : Acts) → output (a ++ b) ≡ output a ++ output b
unfolding output
output-append [] b = refl
output-append (wait ∷ a) b = output-append a b
output-append (write_out text ∷ a) b = ap (λ l. write_out text ∷ l) (output-append a b)
output-append (print text ∷ a) b = ap (λ l. print text ∷ l) (output-append a b)
output-append (print_error e ∷ a) b = ap (λ l. print_error e ∷ l) (output-append a b)
output-append (clear ∷ a) b = ap (λ l. clear ∷ l) (output-append a b)

-- The lines that name the sessions.
abbrev pub listing : ℕ → List Session → Acts
listing n [] = []
listing n ([] ∷ ss) = []
listing n ((e ∷ es) ∷ ss) = print (numbered n (times e es)) ∷ listing (suc n) ss

list_sessions_lem :
    (n : ℕ) (ss : List Session) (acts : Acts)
    → All (λ s. s ≢ []) ss
    → list_sessions n ss acts ≡ (returned tt, acts ++ listing n ss)
unfolding list_sessions act
list_sessions_lem n [] acts h = ap (λ a. (returned tt, a)) (sym (append-nil acts))
list_sessions_lem n ([] ∷ ss) acts h = absurd (h.0 refl)
list_sessions_lem n ((e ∷ es) ∷ ss) acts h =
    let title = print (numbered n (times e es)) in
    rw (span_lem e es, list_sessions_lem (suc n) ss (acts ++ title ∷ []) h.1)
      (ap (λ a. (returned tt, a)) (append_assoc acts (title ∷ []) (listing (suc n) ss)))

output-listing : (n : ℕ) (ss : List Session) → output (listing n ss) ≡ listing n ss
unfolding output
output-listing n [] = refl
output-listing n ([] ∷ ss) = refl
output-listing n ((e ∷ es) ∷ ss) =
    ap (λ l. print (numbered n (times e es)) ∷ l) (output-listing (suc n) ss)

item_last : (ss : List Session) (s : Session) → item (ss ++ s ∷ []) (length ss) ≡ returned s
item_last [] s = refl
item_last (t ∷ ss) s = item_last ss s

-- What follows the listing.
abbrev pub replayed : Entry → Session → Acts
replayed e es =
    clear
    ∷ print (opening (times e es))
    ∷ (played_entries (e ∷ es) ++ print (codes "Session closed") ∷ [])

pub shell_start_lem :
    (contents : Bytes) (ss : List Session) (e : Entry) (es : Session)
    → All (λ s. s ≢ []) ss
    → shell_get contents ≡ returned (ss ++ (e ∷ es) ∷ [])
    → shell_start contents (str (length ss)) [] ≡ (
      returned tt,
      print (detected (ss ++ (e ∷ es) ∷ [])) ∷ (listing 0 (ss ++ (e ∷ es) ∷ []) ++ replayed e es),
    )
unfolding shell_start replay item_at act
shell_start_lem contents ss e es h g =
    rw
      (
        g,
        list_sessions_lem 0 (ss ++ (e ∷ es) ∷ []) (print (detected (ss ++ (e ∷ es) ∷ [])) ∷ [])
            (All-append (λ s. s ≢ []) ss ((e ∷ es) ∷ []) h ((λ k. cc), tt)),
        int-str (length ss),
        item_last ss (e ∷ es),
        play_lem e es,
      )
      (ap (λ a. (returned tt, print (detected (ss ++ (e ∷ es) ∷ [])) ∷ a))
        (append_assoc (listing 0 (ss ++ (e ∷ es) ∷ [])) (clear ∷ []) _))

-- The terminal where the last of the sessions, `e ∷ es`, is asked for: the list of the sessions,
-- and then, on a cleared screen, the played entries between the two banners.
abbrev pub screen : List Session → Entry → Session → Acts → Acts
screen ss e es played =
    print (detected (ss ++ (e ∷ es) ∷ []))
    ∷ (listing 0 (ss ++ (e ∷ es) ∷ [])
        ++ (clear ∷ print (opening (times e es)) ∷ (played ++ print (codes "Session closed") ∷ [])))

pub output-shell_start :
    (ss : List Session) (e : Entry) (es : Session)
    → output (
        print (detected (ss ++ (e ∷ es) ∷ [])) ∷ (listing 0 (ss ++ (e ∷ es) ∷ []) ++ replayed e es))
      ≡ screen ss e es (output (played_entries (e ∷ es)))
unfolding output
output-shell_start ss e es =
    let all = ss ++ (e ∷ es) ∷ [] in
    ap (λ l. print (detected all) ∷ l)
      (output-append (listing 0 all) (replayed e es)
        ∙ rw
            (
              output-listing 0 all,
              output-append (played_entries (e ∷ es)) (print (codes "Session closed") ∷ []),
            )
            refl)
