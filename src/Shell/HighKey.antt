-- ===== src/Shell/HighKey.antt =====
-- A byte that visual.txt does not list (lines 29 to 43 of wetland/services/shell_service.py).
use wetland.Prelude.{
  ℕ, ◌≤◌, codes, bytes_eq, List, [], ◌∷◌, ◌++◌, append_assoc, Bool, none, some, ◌≡◌, arith,
}
use wetland.Prelude.Py.{Outcome, returned, raised, key_error}
use wetland.Relay.{hacker, docker, Trace, emit, send, text_event, finished}
use wetland.Shell.{
  Shell, visual_byte, visual, append_visual, type_key, from_hacker, handle_event, loop,
}
use wetland.Relay.{Ready, Round, hacker_in}

visual_byte_high : (c : ℕ) → 128 ≤ c → visual_byte c ≡ none
unfolding visual_byte
visual_byte_high c h = ground arith

type_key_high : (c : ℕ) (s : Shell) → 128 ≤ c → type_key (c ∷ []) s ≡ (raised key_error, s)
unfolding type_key visual append_visual bytes_eq
type_key_high c s h = ground (arith, visual_byte_high c h)

module _ (answers : Trace → Outcome (Unit {0})) (c : ℕ) (high : 128 ≤ c) where
  -- What the key leaves: it is sent and logged.
  abbrev pub typed : Shell → Shell
  typed s = record s {
    trace =
        s.trace ++ send docker (c ∷ []) ∷ emit (text_event (codes "shell") hacker (c ∷ [])) ∷ [];
  }

  from_hacker_high :
      (s : Shell)
      → answers (s.trace ++ send docker (c ∷ []) ∷ []) ≡ returned tt
      → from_hacker answers (some (c ∷ [])) s ≡ (raised key_error, typed s)
  unfolding from_hacker
  from_hacker_high s h = rw (
    h,
    type_key_high c _ high,
    append_assoc s.trace (send docker (c ∷ []) ∷ [])
        (emit (text_event (codes "shell") hacker (c ∷ [])) ∷ []),
  )

  -- A byte from 128 on that the hacker types, if its sendall returns, is sent and logged and ends
  -- the loop: no later event or round is handled.
  pub loop_high_key :
      (eof hacker_eof docker_eof : Bool) (events : List Ready) (rounds : List Round) (s : Shell)
      → answers (s.trace ++ send docker (c ∷ []) ∷ []) ≡ returned tt
      → loop answers
          (record {
            events = hacker_in (some (c ∷ [])) eof ∷ events;
            hacker_eof = hacker_eof;
            docker_eof = docker_eof;
          }
            ∷ rounds)
          s
        ≡ (finished, typed s)
  unfolding loop handle_event
  loop_high_key eof hacker_eof docker_eof events rounds s h = rw (from_hacker_high s h)
