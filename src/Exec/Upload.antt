-- ===== src/Exec/Upload.antt =====
-- The copies of uploads (lines 43 to 61 of wetland/services/exec_service.py).
use wetland.Prelude.{
  ℕ, ◌+◌, ◌≤◌, ◌<◌, Bytes, List, [], ◌∷◌, ◌++◌, map, append_assoc, length, length-append, concat,
  All, true, false, some, re_match, pos, ◌≡◌, ◌∙◌, refl, arith,
}
use wetland.Prelude.Py.{Outcome, returned}
use wetland.Relay.{Trace, send, docker, Round, hacker_in, go_on, waiting}
use wetland.Exec.{
  Exec, opened, closed, file_header, length_field, copies, capture, keep_text, start_file, advance,
  write_scpfile, handle_event, handle_events, loop, close_scpfile,
}

-- The texts of an upload, each in a poll of its own, while neither side has ended its input.
abbrev pub arriving : List Bytes → List Round
arriving ts =
    map
      (λ t. record {
        events = hacker_in (some t) false ∷ [];
        hacker_eof = false;
        docker_eof = false;
      })
      ts

-- A copy of a file of `n` bytes, `m` of which were counted.
abbrev copying : Trace → ℕ → ℕ → Bytes → List Bytes → Exec
copying t n m c files = record {
  trace = t;
  filelen = pos n;
  nowlen = m;
  scpfile = opened c;
  files = files;
}

-- The state behind a complete copy.
abbrev pub copied : Trace → List Bytes → Exec
copied t files = record { trace = t; filelen = pos 0; nowlen = 0; scpfile = closed; files = files }

abbrev IsContent : Bytes → Type 0
IsContent t = re_match file_header t ≡ false

capture_part :
    (text : Bytes) (t : Trace) (n m : ℕ) (c : Bytes) (files : List Bytes)
    → IsContent text
    → m + length text < n
    → capture text (copying t n m c files)
      ≡ (returned tt, copying t n (m + length text) (c ++ text) files)
unfolding capture keep_text write_scpfile advance
capture_part text t n m c files h k = ground (arith, h)

capture_last :
    (text : Bytes) (t : Trace) (n m : ℕ) (c : Bytes) (files : List Bytes)
    → IsContent text
    → m < n
    → n ≤ m + length text
    → capture text (copying t n m c files) ≡ (returned tt, copied t (files ++ (c ++ text) ∷ []))
unfolding capture keep_text write_scpfile advance close_scpfile copies
capture_last text t n m c files h k l = ground (arith, h)

module _ (answers : Trace → Outcome (Unit {0}))
    (sent_all : (t : Trace) → answers t ≡ returned tt) where
  -- A text that is copied is then sent.
  handle_event-captured :
      (text : Bytes) (s s' : Exec)
      → capture text s ≡ (returned tt, s')
      → handle_event answers true (hacker_in (some text) false) s
        ≡ (returned go_on, record s' { trace = s'.trace ++ send docker text ∷ [] })
  unfolding handle_event
  handle_event-captured text s s' h = rw (h, sent_all (s'.trace ++ send docker text ∷ []))

  loop-captured :
      (text : Bytes) (ts : List Bytes) (s s' : Exec)
      → capture text s ≡ (returned tt, s')
      → loop answers true (arriving (text ∷ ts)) s
        ≡ loop answers true (arriving ts) (record s' { trace = s'.trace ++ send docker text ∷ [] })
  unfolding loop handle_events
  loop-captured text ts s s' h = rw (handle_event-captured text s s' h) refl

  loop_waits : (s : Exec) → loop answers true [] s ≡ (waiting, s)
  unfolding loop
  loop_waits s = refl

  loop-copying :
      (cs : List Bytes) (last : Bytes) (t : Trace) (n m : ℕ) (c : Bytes) (files : List Bytes)
      → All IsContent cs
      → IsContent last
      → m + length (concat cs) < n
      → n ≤ m + length (concat cs ++ last)
      → loop answers true (arriving (cs ++ last ∷ [])) (copying t n m c files) ≡ (
        waiting,
        copied
            (t ++ map (send docker) (cs ++ last ∷ []))
            (files ++ (c ++ (concat cs ++ last)) ∷ []),
      )
  unfolding concat
  loop-copying [] last t n m c files a h k l =
      loop-captured last [] (copying t n m c files) _
        (capture_last last t n m c files h (omega arith) l)
      ∙ loop_waits _
  loop-copying (x ∷ cs) last t n m c files a h k l =
      loop-captured x (cs ++ last ∷ []) (copying t n m c files) _
        (capture_part x t n m c files a.0 (omega (arith, length-append {0} x (concat cs))))
      ∙ (loop-copying cs last (t ++ send docker x ∷ []) n (m + length x) (c ++ x) files a.1 h
            (omega (arith, length-append {0} x (concat cs)))
            (omega (
              arith,
              length-append {0} (x ++ concat cs) last,
              length-append {0} x (concat cs),
              length-append {0} (concat cs) last,
            ))
          ∙ simp append_assoc)

  capture_header :
      (h : Bytes) (n : ℕ) (s : Exec)
      → re_match file_header h ≡ true
      → length_field h ≡ returned (pos n)
      → s.nowlen ≡ 0
      → capture h s ≡ (returned tt, copying s.trace n 0 [] (copies s))
  unfolding capture start_file
  capture_header h n s k l z = ground (arith, k, l, z)

  -- An upload whose header names the length of a content, in a session that is not in the middle of
  -- one, whose texts are no headers and of which only the last completes the content, with each
  -- text in a poll of its own, in which neither side ends its input, if all calls on the channels
  -- return: the loop waits on, every text is sent on, and one copy is added, which holds the
  -- content and what follows it in the last text.
  pub upload_copied :
      (h : Bytes) (cs : List Bytes) (last content after : Bytes) (s : Exec)
      → re_match file_header h ≡ true
      → length_field h ≡ returned (pos (length content))
      → s.nowlen ≡ 0
      → All IsContent cs
      → IsContent last
      → concat cs ++ last ≡ content ++ after
      → length (concat cs) < length content
      → loop answers true (arriving (h ∷ (cs ++ last ∷ []))) s ≡ (
        waiting,
        copied
            (s.trace ++ map (send docker) (h ∷ (cs ++ last ∷ [])))
            (copies s ++ (content ++ after) ∷ []),
      )
  upload_copied h cs last content after s k l z a b e lt =
      loop-captured h (cs ++ last ∷ []) s _ (capture_header h (length content) s k l z)
      ∙ (loop-copying cs last (s.trace ++ send docker h ∷ []) (length content) 0 [] (copies s) a b
            (omega arith) (rw e (omega (arith, length-append {0} content after)))
          ∙ rw e (simp append_assoc))
