-- ===== src/Playlog/Scp/RoundTrip.antt =====
-- What scp sends for a tree of files, and what `extract_files` makes of it (util/playlog.py).
use wetland.Prelude.{
  ℕ, zero, suc, ◌+◌, ◌-◌, ◌<◌, ◌≤◌, Bytes, bytes_eq, concat, length, length-append, List, [], ◌∷◌,
  ◌++◌, append_assoc, append-nil, Option, some, true, false, ◌&&◌, ◌==◌, All, AreDigits-IsSolid,
  pos, ◌≡◌, ◌∙◌, refl, ap, arith,
}
use wetland.Prelude.Py.{Py, returned}
use wetland.Playlog.Scp.{
  Dict, file, folder, empty, put, Scp, tail_message, nul, popleft, at_tail, ends_with_nul,
  drop_last, is_length, read_contents, contents_of, add_folder, close_folder, by_header,
  extract_round, extract_loop, extract_files,
}
use wetland.Playlog.Scp.Header.{
  IsName, IsMode, header, file_header_matches, folder_header_matches, file_header_only,
  add_entry-header,
}

-- What is sent, with the modes: a file in texts, the last of which comes with the zero byte, or a
-- folder.
pub data Tree : Type 0 where
  done : Tree
  send_file : Bytes → Bytes → List Bytes → Bytes → Tree → Tree
  send_folder : Bytes → Bytes → Tree → Tree → Tree

abbrev pub messages : Tree → List Bytes
messages done = []
messages (send_file mode name cs last t) =
    header b'C' mode (length (concat cs ++ last)) name ∷ (cs ++ (last ++ nul) ∷ messages t)
messages (send_folder mode name sub t) =
    header b'D' mode 0 name ∷ (messages sub ++ tail_message ∷ messages t)

-- The same as a dictionary, added to `f`.
abbrev pub received : Dict → Tree → Dict
received f done = f
received f (send_file mode name cs last t) = received (put name (file (concat cs ++ last)) f) t
received f (send_folder mode name sub t) = received (put name (folder (received empty sub)) f) t

-- Modes have four digits, names no white space, and no text of a file but the last is a single zero byte.
abbrev pub IsSendable : Tree → Type 0
IsSendable done = Unit
IsSendable (send_file mode name cs last t) =
    IsMode mode × IsName name × All (λ c. bytes_eq c nul ≡ false) cs × IsSendable t
IsSendable (send_folder mode name sub t) = IsMode mode × IsName name × IsSendable sub × IsSendable t

concat-append : (xs ys : List Bytes) → concat (xs ++ ys) ≡ concat xs ++ concat ys
unfolding concat
concat-append [] ys = refl
concat-append (x ∷ xs) ys = simp (concat-append xs ys, append_assoc)

ends_with_nul-append : (s : Bytes) → ends_with_nul (s ++ nul) ≡ true
unfolding ends_with_nul
ends_with_nul-append [] = refl
ends_with_nul-append (c ∷ []) = refl
ends_with_nul-append (c ∷ d ∷ s) = ends_with_nul-append (d ∷ s)

drop_last-append : (s : Bytes) → drop_last (s ++ nul) ≡ s
unfolding drop_last
drop_last-append [] = refl
drop_last-append (c ∷ []) = refl
drop_last-append (c ∷ d ∷ s) = ap (λ (t : Bytes). c ∷ t) (drop_last-append (d ∷ s))

-- A text before the last one does not complete the content.
is_inner :
    (tmp : Bytes) (p n : ℕ)
    → p + length tmp ≤ n
    → (ends_with_nul tmp && is_length (p + length tmp - 1) (pos n)) ≡ false
unfolding ends_with_nul
is_inner [] p n h = refl
is_inner (c ∷ s) p n h = ground (arith, is_last)
  where
    is_last : p + suc (length s) - 1 == n ≡ false
    is_last = ground arith

not_nul : (c : ℕ) (s : Bytes) → bytes_eq (c ∷ (s ++ nul)) nul ≡ false
unfolding bytes_eq
not_nul c [] = ground arith
not_nul c (d ∷ s) = ground arith

completes :
    (s : Bytes) (p n : ℕ) → p + length s ≡ n → is_length (p + length (s ++ nul) - 1) (pos n) ≡ true
completes s p n h = ground (arith, length-append {0} s nul)

concat_one :
    (contents : List Bytes) (c : Bytes) → concat (contents ++ c ∷ []) ≡ concat contents ++ c
unfolding concat
concat_one contents c = rw (concat-append contents (c ∷ []), append-nil c)

read_last :
    (contents : List Bytes) (last : Bytes) (n : ℕ) (dq : List Bytes)
    → length (concat contents) + length last ≡ n
    → read_contents (pos n) contents ((last ++ nul) ∷ dq) ≡ (returned (concat contents ++ last), dq)
unfolding read_contents bytes_eq
read_last contents [] n dq h = rw append-nil
read_last contents (c ∷ last) n dq h = rw (
  not_nul c last,
  ends_with_nul-append (c ∷ last),
  completes (c ∷ last) (length (concat contents)) n h,
  drop_last-append (c ∷ last),
  concat_one contents (c ∷ last),
)

lengths :
    (contents : List Bytes) (c : Bytes) (cs : List Bytes) (last : Bytes) (n : ℕ)
    → length (concat contents) + length ((c ++ concat cs) ++ last) ≡ n
    → length (concat (contents ++ c ∷ [])) + length (concat cs ++ last) ≡ n
lengths contents c cs last n h = rw (concat_one contents c) (
    omega (
      arith,
      h,
      length-append {0} (concat contents) c,
      length-append {0} (c ++ concat cs) last,
      length-append {0} c (concat cs),
      length-append {0} (concat cs) last,
    ))

read_contents-sent :
    (contents cs : List Bytes) (last : Bytes) (n : ℕ) (dq : List Bytes)
    → All (λ c. bytes_eq c nul ≡ false) cs
    → length (concat contents) + length (concat cs ++ last) ≡ n
    → read_contents (pos n) contents (cs ++ (last ++ nul) ∷ dq)
      ≡ (returned (concat contents ++ (concat cs ++ last)), dq)
unfolding read_contents concat
read_contents-sent contents [] last n dq a h = read_last contents last n dq h
read_contents-sent contents (c ∷ cs) last n dq a h =
    rw
      (
        a.0,
        is_inner c (length (concat contents)) n (
            omega
              (arith, length-append {0} (c ++ concat cs) last, length-append {0} c (concat cs))),
      )
      (read_contents-sent (contents ++ c ∷ []) cs last n dq a.1 (lengths contents c cs last n h)
        ∙ ap (λ (b : Bytes). (returned b, dq)) (rw (concat_one contents c) (simp append_assoc)))

-- A state with given messages.
abbrev with_dq : List Bytes → Scp → Scp
with_dq dq s = record s { dq = dq }

module _ (again : Dict → Py Scp (Option Dict)) where
  extract_round-file :
      (f : Dict) (mode name : Bytes) (cs : List Bytes) (last : Bytes) (dq : List Bytes) (s : Scp)
      → IsMode mode
      → IsName name
      → All (λ c. bytes_eq c nul ≡ false) cs
      → extract_round again f (
          with_dq
            (header b'C' mode (length (concat cs ++ last)) name ∷ (cs ++ (last ++ nul) ∷ dq))
            s)
        ≡ again (put name (file (concat cs ++ last)) f) (with_dq dq s)
  unfolding extract_round at_tail popleft bytes_eq by_header contents_of
  extract_round-file f mode name cs last dq s m h a =
      let n = length (concat cs ++ last) in
      add_entry-header b'C' mode n name h (refl, AreDigits-IsSolid mode m.digits) again f
        (with_dq (cs ++ (last ++ nul) ∷ dq) s)
      ∙ rw (file_header_only mode n name, file_header_matches mode n name m h)
          (rw (read_contents-sent [] cs last n dq a (omega arith)) refl)

  extract_round-done :
      (f : Dict) (rest : List Bytes) (s : Scp)
      → at_tail rest ≡ true
      → extract_round again f (with_dq rest s) ≡ (returned (some f), with_dq rest s)
  unfolding extract_round
  extract_round-done f rest s e = rw e

  extract_round-folder :
      (f : Dict) (mode name : Bytes) (dq : List Bytes) (s : Scp) (g : Dict) (dq' : List Bytes)
      → IsMode mode
      → IsName name
      → again empty (with_dq dq s) ≡ (returned (some g), with_dq (tail_message ∷ dq') s)
      → extract_round again f (with_dq (header b'D' mode 0 name ∷ dq) s)
        ≡ again (put name (folder g) f) (with_dq dq' s)
  unfolding extract_round at_tail popleft bytes_eq by_header add_folder close_folder
  extract_round-folder f mode name dq s g dq' m h e =
      add_entry-header b'D' mode 0 name h (refl, AreDigits-IsSolid mode m.digits) again f
        (with_dq dq s)
      ∙ rw (folder_header_matches mode 0 name m h) (rw e refl)

at_tail_message : (dq : List Bytes) → at_tail (tail_message ∷ dq) ≡ true
unfolding at_tail bytes_eq
at_tail_message dq = refl

length-messages :
    (xs : List Bytes) (m : Bytes) (ys : List Bytes)
    → length (xs ++ m ∷ ys) ≡ length xs + suc (length ys)
length-messages xs m ys = length-append xs (m ∷ ys)

extract_loop-messages :
    (t : Tree) (fuel : ℕ) (f : Dict) (rest : List Bytes) (s : Scp)
    → IsSendable t
    → at_tail rest ≡ true
    → length (messages t) < fuel
    → extract_loop fuel f (with_dq (messages t ++ rest) s)
      ≡ (returned (some (received f t)), with_dq rest s)
unfolding extract_loop
extract_loop-messages t zero f rest s h e k = elim k [ ]
extract_loop-messages done (suc fuel) f rest s h e k =
    extract_round-done (extract_loop fuel) f rest s e
extract_loop-messages (send_file mode name cs last t) (suc fuel) f rest s h e k =
    rw (append_assoc cs ((last ++ nul) ∷ messages t) rest) (
      extract_round-file (extract_loop fuel) f mode name cs last (messages t ++ rest) s h.0 h.1 h.2
      ∙ extract_loop-messages t fuel (put name (file (concat cs ++ last)) f) rest s h.3 e
          (omega (arith, length-messages cs (last ++ nul) (messages t))))
extract_loop-messages (send_folder mode name sub t) (suc fuel) f rest s h e k =
    rw (append_assoc (messages sub) (tail_message ∷ messages t) rest) (
      extract_round-folder (extract_loop fuel) f mode name _ s (received empty sub)
        (messages t ++ rest) h.0 h.1
        (extract_loop-messages sub fuel empty (tail_message ∷ (messages t ++ rest)) s h.2
          (at_tail_message (messages t ++ rest))
          (omega (arith, length-messages (messages sub) tail_message (messages t))))
      ∙ extract_loop-messages t fuel (put name (folder (received empty sub)) f) rest s h.3 e
          (omega (arith, length-messages (messages sub) tail_message (messages t))))

-- The messages in which scp sends a tree of files, whose modes have four digits and whose names
-- have no white space, in texts of which none but a last one is a single zero byte, are extracted
-- as that tree; no message is left, and nothing is printed.
pub extract_files-messages :
    (t : Tree) (printed : List Bytes)
    → IsSendable t
    → extract_files (record { dq = messages t; printed = printed })
      ≡ (returned (some (received empty t)), record { dq = []; printed = printed })
unfolding extract_files at_tail
extract_files-messages t printed h = rw (append-nil (messages t)) at (
    extract_loop-messages t (suc (length (messages t))) empty []
      (record { dq = []; printed = printed }) h refl (omega arith))
