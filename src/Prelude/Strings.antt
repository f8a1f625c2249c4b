-- ===== src/Prelude/Strings.antt =====
-- The methods of Python's `str` that the program calls: split, strip, the lines of a file, `in`,
-- and the codec "hex".
use wetland.Prelude.Tests.{◌==◌, leb, ltb, if◌then◌else◌}
use wetland.Prelude.Lists.{All, is_empty}
use wetland.Prelude.Text.{Bytes}
use wetland.Prelude.Py.{Outcome, returned, raised, type_error}
use Prim.Native.Nat.{ℕ, zero, suc, ◌+◌, ◌-◌, ◌*◌, ◌/◌, ◌%◌, ◌<◌}
use mathlib.Core.Path.{◌≡◌, refl, ap}
use mathlib.Core.Logic.{◌≢◌}
use mathlib.Core.Bool.{Bool, true, false, ◌&&◌, ◌||◌}
use mathlib.Core.Option.{Option, none, some}
use mathlib.Core.List.{List, [], ◌∷◌, ◌++◌, append_assoc}
use native.Mathlib.Omega.{arith}

unfoldable pub cons_head : ℕ → List Bytes → List Bytes
cons_head c [] = (c ∷ []) ∷ []
cons_head c (w ∷ ws) = (c ∷ w) ∷ ws

unfoldable pub decimal : ℕ → ℕ → Bytes → Bytes
decimal zero n out = out
decimal (suc fuel) n out =
    let d = (n % 10 + 48) ∷ out in
    let rest = decimal fuel (n / 10) d in if ltb n 10 then d else rest

-- str(n): a number has no more digits than its value plus one.
unfoldable pub str : ℕ → Bytes
unfolding decimal
str n = decimal (suc n) n []

-- s.split(sep) for a separator of one byte
unfoldable pub split : ℕ → Bytes → List Bytes
unfolding cons_head
split sep [] = [] ∷ []
split sep (c ∷ s) = let rest = split sep s in if c == sep then [] ∷ rest else cons_head c rest

-- The lines of a file, each with its newline.
unfoldable pub read_lines : Bytes → List Bytes
unfolding cons_head
read_lines [] = []
read_lines (c ∷ s) =
    let rest = read_lines s in if c == b'\n' then (c ∷ []) ∷ rest else cons_head c rest

-- c.isspace()
abbrev pub is_space : ℕ → Bool
is_space c = c == 32 || leb 9 c && leb c 13

unfoldable pub lstrip : Bytes → Bytes
lstrip [] = []
lstrip (c ∷ s) = if is_space c then lstrip s else c ∷ s

unfoldable pub rstrip : Bytes → Bytes
rstrip [] = []
rstrip (c ∷ s) = let rest = rstrip s in if is_empty rest && is_space c then [] else c ∷ rest

unfoldable pub strip : Bytes → Bytes
unfolding lstrip rstrip
strip s = rstrip (lstrip s)

-- chr(c) in s
unfoldable pub contains : ℕ → Bytes → Bool
contains c [] = false
contains c (d ∷ s) = d == c || contains c s

abbrev hex_digit : ℕ → ℕ
hex_digit n = if ltb n 10 then n + 48 else n + 87

abbrev unhex_digit : ℕ → Option ℕ
unhex_digit c =
    if leb 48 c && leb c 57
    then some (c - 48)
    else if leb 97 c && leb c 102
    then some (c - 87)
    else if leb 65 c && leb c 70
    then some (c - 55)
    else none

-- s.encode("hex")
unfoldable pub hex_encode : Bytes → Bytes
hex_encode [] = []
hex_encode (c ∷ s) = hex_digit (c / 16) ∷ hex_digit (c % 16) ∷ hex_encode s

abbrev push : Option ℕ → Option ℕ → Outcome Bytes → Outcome Bytes
push (some h) (some l) (returned s) = returned ((h * 16 + l) ∷ s)
push _ _ _ = raised type_error

-- s.decode("hex")
unfoldable pub hex_decode : Bytes → Outcome Bytes
hex_decode [] = returned []
hex_decode (a ∷ []) = raised type_error
hex_decode (a ∷ b ∷ s) = push (unhex_digit a) (unhex_digit b) (hex_decode s)

abbrev pub IsByte : ℕ → Type 0
IsByte c = c < 256

-- No white space.
abbrev pub IsSolid : Bytes → Type 0
IsSolid = All (λ c. is_space c ≡ false)

abbrev pub Lacks : ℕ → Bytes → Type 0
Lacks b = All (λ c. c == b ≡ false)

digit_back : (n : ℕ) → n < 16 → unhex_digit (hex_digit n) ≡ some n
digit_back n h = ground arith

-- The codec gives back every text of bytes.
pub hex_decode-encode : (s : Bytes) → All IsByte s → hex_decode (hex_encode s) ≡ returned s
unfolding hex_decode hex_encode
hex_decode-encode [] h = refl
hex_decode-encode (c ∷ s) h = rw (hex_decode-encode s h.1) (
    rw (digit_back (c / 16) (omega arith), digit_back (c % 16) (omega arith))
      (ap (λ (d : ℕ). returned (d ∷ s)) (omega arith)))

hex_digit_solid : (n : ℕ) → is_space (hex_digit n) ≡ false
hex_digit_solid n = ground arith

hex_digit_colon : (n : ℕ) → n < 16 → hex_digit n == b':' ≡ false
hex_digit_colon n h = ground arith

pub hex_encode-IsSolid : (s : Bytes) → IsSolid (hex_encode s)
unfolding hex_encode
hex_encode-IsSolid [] = tt
hex_encode-IsSolid (c ∷ s) =
    (hex_digit_solid (c / 16), (hex_digit_solid (c % 16), hex_encode-IsSolid s))

pub hex_encode-Lacks : (s : Bytes) → All IsByte s → Lacks b':' (hex_encode s)
unfolding hex_encode
hex_encode-Lacks [] h = tt
hex_encode-Lacks (c ∷ s) h = (
  hex_digit_colon (c / 16) (omega arith),
  (hex_digit_colon (c % 16) (omega arith), hex_encode-Lacks s h.1),
)

-- A word without the separator is the first part.
pub split-append :
    (sep : ℕ) (a b : Bytes) → Lacks sep a → split sep (a ++ sep ∷ b) ≡ a ∷ split sep b
unfolding split
split-append sep [] b h = ground arith
split-append sep (c ∷ a) b h = rw (split-append sep a b h.1, h.0)

pub split_word : (sep : ℕ) (a : Bytes) → Lacks sep a → split sep a ≡ a ∷ []
unfolding split
split_word sep [] h = refl
split_word sep (c ∷ a) h = rw (split_word sep a h.1, h.0)

pub read_lines-append :
    (a b : Bytes) → Lacks b'\n' a → read_lines (a ++ b'\n' ∷ b) ≡ (a ++ b'\n' ∷ []) ∷ read_lines b
unfolding read_lines
read_lines-append [] b h = refl
read_lines-append (c ∷ a) b h = rw (read_lines-append a b h.1, h.0)

pub contains-append : (c : ℕ) (a b : Bytes) → contains c (a ++ c ∷ b) ≡ true
unfolding contains
contains-append c [] b = ground arith
contains-append c (d ∷ a) b = ground (arith, contains-append c a b)

rstrip_blank : (a b : Bytes) → rstrip b ≡ [] → rstrip (a ++ b) ≡ rstrip a
unfolding rstrip
rstrip_blank [] b h = h
rstrip_blank (c ∷ a) b h = rw (rstrip_blank a b h)

rstrip_solid : (w : Bytes) → IsSolid w → rstrip w ≡ w
unfolding rstrip
rstrip_solid [] h = refl
rstrip_solid (c ∷ w) h = ground (arith, rstrip_solid w h.1, h.0)

is_empty-append : (a w : Bytes) → w ≢ [] → is_empty (a ++ w) ≡ false
is_empty-append [] [] k = absurd (k refl)
is_empty-append [] (c ∷ w) k = refl
is_empty-append (c ∷ a) w k = refl

rstrip_word : (a w : Bytes) → rstrip w ≡ w → w ≢ [] → rstrip (a ++ w) ≡ a ++ w
unfolding rstrip
rstrip_word [] w h k = h
rstrip_word (c ∷ a) w h k = rw (rstrip_word a w h k, is_empty-append a w k)

lstrip_solid : (t b : Bytes) → IsSolid t → t ≢ [] → lstrip (t ++ b) ≡ t ++ b
unfolding lstrip
lstrip_solid [] b h k = absurd (k refl)
lstrip_solid (c ∷ t) b h k = rw h.0

-- Two words and a blank tail: what is left of the line.
pub strip_line :
    (t w : Bytes)
    → IsSolid t
    → t ≢ []
    → IsSolid w
    → w ≢ []
    → strip (t ++ 32 ∷ (w ++ 32 ∷ 10 ∷ [])) ≡ t ++ 32 ∷ w
unfolding strip
strip_line t w h k h' k' = rw (
  lstrip_solid t (32 ∷ (w ++ 32 ∷ 10 ∷ [])) h k,
  ← append_assoc t (32 ∷ []) (w ++ 32 ∷ 10 ∷ []),
  ← append_assoc (t ++ 32 ∷ []) w (32 ∷ 10 ∷ []),
  rstrip_blank ((t ++ 32 ∷ []) ++ w) (32 ∷ 10 ∷ []) refl,
  rstrip_word (t ++ 32 ∷ []) w (rstrip_solid w h') k',
  append_assoc t (32 ∷ []) w,
)

pub IsSolid-Lacks : (c : ℕ) (w : Bytes) → is_space c ≡ true → IsSolid w → Lacks c w
IsSolid-Lacks c [] h k = tt
IsSolid-Lacks c (d ∷ w) h k = (ground (arith, k.0), IsSolid-Lacks c w h k.1)

pub strip_solid : (w : Bytes) → IsSolid w → strip w ≡ w
unfolding strip lstrip
strip_solid [] h = refl
strip_solid (c ∷ w) h = rw h.0 (rstrip_solid (c ∷ w) h)

lstrip_first : (c : ℕ) (s : Bytes) → is_space c ≡ false → lstrip (c ∷ s) ≡ c ∷ s
unfolding lstrip
lstrip_first c s h = rw h

-- A blank tail after a word that follows anything that starts with no space.
pub strip_tail :
    (c : ℕ) (a w b : Bytes)
    → is_space c ≡ false
    → IsSolid w
    → w ≢ []
    → rstrip b ≡ []
    → strip ((c ∷ a) ++ (w ++ b)) ≡ (c ∷ a) ++ w
unfolding strip
strip_tail c a w b h s n e = rw (
  lstrip_first c (a ++ (w ++ b)) h,
  ← append_assoc a w b,
  rstrip_blank (c ∷ (a ++ w)) b e,
  rstrip_word (c ∷ a) w (rstrip_solid w s) n,
)
