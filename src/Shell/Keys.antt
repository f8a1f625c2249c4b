-- ===== src/Shell/Keys.antt =====
-- The command line that `shell_service` reconstructs from the keys (lines 36 to 43 of
-- wetland/services/shell_service.py).
use wetland.Prelude.{
  concat, ℕ, zero, suc, ◌≤◌, ◌<◌, Bytes, codes, bytes_eq, length, map, All, List, [], ◌∷◌, ◌++◌,
  append_assoc, append-nil, length-append, Bool, true, false, Option, none, some, ◌≡◌, refl, ap,
  ◌∙◌, arith, ◌==◌, if◌then◌else◌, Bool-cases, inl, inr,
}
use wetland.Prelude.Py.{Py, Outcome, returned, pure, ◌>>◌}
use wetland.Event.{wetland_subject}
use wetland.Relay.{emit}
use wetland.Shell.{Shell, type_key, visual_byte, visual, pop, append_visual}

-- The keys one after the other, each a text of one byte.
abbrev pub type_keys : List ℕ → Py Shell (Unit {0})
type_keys [] = pure tt
type_keys (c ∷ ks) = do type_key (c ∷ []); type_keys ks

-- The keys that no later delete takes back, and how many deletes are left over: read from the
-- right, each delete takes the nearest key on its left that is not taken yet.
abbrev sweep_key : ℕ → List ℕ × ℕ → List ℕ × ℕ
sweep_key c (kept, zero) = if c == 127 then (kept, 1) else (c ∷ kept, 0)
sweep_key c (kept, suc n) = if c == 127 then (kept, suc (suc n)) else (kept, n)

abbrev pub sweep : List ℕ → List ℕ × ℕ
sweep [] = ([], 0)
sweep (c ∷ ks) = sweep_key c (sweep ks)

abbrev pub or_empty : Option Bytes → Bytes
or_empty none = []
or_empty (some v) = v

-- An ASCII key other than return.
abbrev pub IsKey : ℕ → Type 0
IsKey c = (c < 128) × (c == 13 ≡ false)

abbrev is_some : Option Bytes → Bool
is_some none = false
is_some (some v) = true

-- The bytes below `top` that visual.txt lists.
listed_to : ℕ → ℕ
listed_to zero = 0
listed_to (suc top) =
    let before = listed_to top in if is_some (visual_byte top) then suc before else before

listed_to-le : (top : ℕ) → listed_to top ≤ top
unfolding listed_to
listed_to-le zero = omega arith
listed_to-le (suc top) = ground (arith, listed_to-le top)

-- If as many are listed as there are, each is.
is_listed : (top c : ℕ) → listed_to top ≡ top → c < top → is_some (visual_byte c) ≡ true
unfolding listed_to
is_listed zero c full low = absurd (omega arith)
is_listed (suc top) c full low = elim (Bool-cases (c == top)) [
  | inl last ↦ ground (arith, listed_to-le top)
  | inr other ↦ ground (arith, listed_to-le top, is_listed top c)
]

ascii_listed : listed_to 128 ≡ 128
unfolding listed_to visual_byte
ascii_listed = refl

or_empty-some : (v : Option Bytes) → is_some v ≡ true → v ≡ some (or_empty v)
or_empty-some none h = cc
or_empty-some (some v) h = refl

visual_byte-some : (c : ℕ) → c < 128 → visual_byte c ≡ some (or_empty (visual_byte c))
visual_byte-some c h = or_empty-some (visual_byte c) (is_listed 128 c ascii_listed h)

-- pop, n times
abbrev pops : ℕ → List Bytes → List Bytes
pops zero l = l
pops (suc n) l = pops n (pop l)

pop-append : (l : List Bytes) (v : Bytes) → pop (l ++ v ∷ []) ≡ l
unfolding pop
pop-append [] v = refl
pop-append (w ∷ []) v = refl
pop-append (w ∷ x ∷ l) v = ap (λ (r : List Bytes). w ∷ r) (pop-append (x ∷ l) v)

length-pop : (l : List Bytes) (n : ℕ) → suc n ≤ length l → n ≤ length (pop l)
unfolding pop
length-pop [] n h = absurd (omega arith)
length-pop (w ∷ []) n h = omega arith
length-pop (w ∷ x ∷ l) zero h = omega arith
length-pop (w ∷ x ∷ l) (suc n) h = omega (arith, length-pop (x ∷ l) n)

type_delete :
    (c : ℕ) (s : Shell)
    → c == 127 ≡ true
    → 1 ≤ length s.command
    → type_key (c ∷ []) s ≡ (returned tt, record s { command = pop s.command })
unfolding type_key bytes_eq
type_delete c s e h = ground arith

type_other :
    (c : ℕ) (s : Shell)
    → IsKey c
    → c == 127 ≡ false
    → type_key (c ∷ []) s
      ≡ (returned tt, record s { command = s.command ++ or_empty (visual_byte c) ∷ [] })
unfolding type_key bytes_eq visual append_visual
type_other c s h k = ground (arith, visual_byte-some c h.0, h.1)

-- The command line after the keys, where the deletes left over reach what was there before.
abbrev after : List ℕ × ℕ → Shell → Outcome (Unit {0}) × Shell
after w s = (
  returned tt,
  record s { command = pops w.1 s.command ++ map (λ c. or_empty (visual_byte c)) w.0 },
)

after_key :
    (c : ℕ) (ks : List ℕ) (s : Shell) (w : List ℕ × ℕ)
    → IsKey c
    → ((t : Shell) → w.1 ≤ length t.command → type_keys ks t ≡ after w t)
    → (sweep_key c w).1 ≤ length s.command
    → type_keys (c ∷ ks) s ≡ after (sweep_key c w) s
after_key c ks s (kept, zero) h ih k = elim (Bool-cases (c == 127)) [
  | inl delete ↦
      let k' : 1 ≤ length s.command = rw delete at k in
      rw (delete, type_delete c s delete k')
        (ih (record s { command = pop s.command }) (omega arith))
  | inr other ↦
      rw (other, type_other c s h other)
        (ih (record s { command = s.command ++ or_empty (visual_byte c) ∷ [] }) (omega arith)
          ∙ rw (append_assoc s.command (or_empty (visual_byte c) ∷ []) _))
]
after_key c ks s (kept, suc n) h ih k = elim (Bool-cases (c == 127)) [
  | inl delete ↦
      let k' : suc (suc n) ≤ length s.command = rw delete at k in
      rw (delete, type_delete c s delete (omega arith))
        (ih (record s { command = pop s.command }) (length-pop s.command (suc n) k'))
  | inr other ↦
      let k' : n ≤ length s.command = rw other at k in
      rw (other, type_other c s h other)
        (ih (record s { command = s.command ++ or_empty (visual_byte c) ∷ [] })
            (omega (arith, length-append s.command (or_empty (visual_byte c) ∷ [])))
          ∙ rw (pop-append s.command (or_empty (visual_byte c))))
]

type_keys-sweep :
    (ks : List ℕ) (s : Shell)
    → All IsKey ks
    → (sweep ks).1 ≤ length s.command
    → type_keys ks s ≡ after (sweep ks) s
type_keys-sweep [] s h k = rw (append-nil s.command)
type_keys-sweep (c ∷ ks) s h k = after_key c ks s (sweep ks) h.0 (λ t. type_keys-sweep ks t h.1) k

-- From an empty command line, ASCII keys other than return in which each delete has a key to take
-- back, followed by return, are reported as the visual forms of the keys that no delete takes back,
-- and the next line starts empty.
pub type_line :
    (ks : List ℕ) (s : Shell)
    → All IsKey ks
    → (sweep ks).1 ≡ 0
    → s.command ≡ []
    → (do type_keys ks; type_key (codes "\r")) s ≡ (
      returned tt,
      record {
        trace =
            s.trace
            ++ emit (record {
              subject = wetland_subject;
              action = codes "shell command";
              content = concat (map (λ c. or_empty (visual_byte c)) (sweep ks).0);
            })
              ∷ [];
        command = [];
      },
    )
unfolding type_key bytes_eq
type_line ks s h k e = rw (type_keys-sweep ks s h (omega arith), k, e)
