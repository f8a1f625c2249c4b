-- ===== src/Prelude/Numbers.antt =====
-- Python's `int` of a text.
use wetland.Prelude.Tests.{◌==◌, leb, ltb, Bool-cases, if◌then◌else◌}
use wetland.Prelude.Text.{Bytes}
use wetland.Prelude.Strings.{strip, str, decimal, IsSolid, strip_solid}
use wetland.Prelude.Lists.{All}
use wetland.Prelude.Regex.{is_digit}
use wetland.Prelude.Py.{Outcome, returned, raised, value_error}
use Prim.Native.Nat.{ℕ, zero, suc, ◌+◌, ◌-◌, ◌*◌, ◌/◌, ◌%◌, ◌<◌}
use mathlib.Core.Path.{◌≡◌, ◌∙◌, refl, ap}
use mathlib.Core.Logic.{inl, inr, ◌≢◌}
use native.Mathlib.Omega.{arith}
use mathlib.Core.Bool.{Bool, true}
use mathlib.Core.List.{[], ◌∷◌}

-- `negsuc n` is -(n + 1).
pub data ℤ : Type 0 where
  pos : ℕ → ℤ
  negsuc : ℕ → ℤ

abbrev pub negate : ℕ → ℤ
negate zero = pos 0
negate (suc n) = negsuc n

-- n >= k, for a count `n`
abbrev pub reaches : ℕ → ℤ → Bool
reaches n (pos k) = leb k n
reaches n (negsuc k) = true

-- The number that a text of digits continues.
unfoldable pub digits_from : ℕ → Bytes → Outcome ℕ
digits_from n [] = returned n
digits_from n (c ∷ s) =
    let rest = digits_from (n * 10 + (c - 48)) s in if is_digit c then rest else raised value_error

unfoldable pub digits : Bytes → Outcome ℕ
unfolding digits_from
digits [] = raised value_error
digits (c ∷ s) = digits_from 0 (c ∷ s)

abbrev pub map_outcome : (ℕ → ℤ) → Outcome ℕ → Outcome ℤ
map_outcome f (returned n) = returned (f n)
map_outcome f (raised e) = raised e

unfoldable pub signed : Bytes → Outcome ℤ
unfolding digits
signed [] = raised value_error
signed (c ∷ s) =
    if c == b'-'
    then map_outcome negate (digits s)
    else if c == b'+'
    then map_outcome pos (digits s)
    else map_outcome pos (digits (c ∷ s))

-- int(s)
unfoldable pub int : Bytes → Outcome ℤ
unfolding signed strip
int s = signed (strip s)

abbrev pub AreDigits : Bytes → Type 0
AreDigits = All (λ c. is_digit c ≡ true)

decimal-AreDigits : (fuel n : ℕ) (out : Bytes) → AreDigits out → AreDigits (decimal fuel n out)
unfolding decimal
decimal-AreDigits zero n out h = h
decimal-AreDigits (suc fuel) n out h = elim (Bool-cases (ltb n 10)) [
  | inl small ↦ rw small (ground arith, h)
  | inr large ↦ rw large (decimal-AreDigits fuel (n / 10) ((n % 10 + 48) ∷ out) (ground arith, h))
]

pub str-AreDigits : (n : ℕ) → AreDigits (str n)
unfolding str
str-AreDigits n = decimal-AreDigits (suc n) n [] tt

digits_from_digit :
    (m d n : ℕ) (out : Bytes)
    → d < 10
    → m * 10 + d ≡ n
    → digits_from m ((d + 48) ∷ out) ≡ digits_from n out
unfolding digits_from
digits_from_digit m d n out h e =
    let digit : is_digit (d + 48) ≡ true = ground arith in
    rw digit (ap (λ (k : ℕ). digits_from k out) (omega arith))

-- The digits of `n`, read before a text, are read as `n`.
digits_from-decimal :
    (fuel n : ℕ) (out : Bytes) → n < fuel → digits_from 0 (decimal fuel n out) ≡ digits_from n out
unfolding decimal
digits_from-decimal zero n out h = elim h [ ]
digits_from-decimal (suc fuel) n out h = elim (Bool-cases (ltb n 10)) [
  | inl small ↦ rw small (digits_from_digit 0 (n % 10) n out (omega arith) (ground arith))
  | inr large ↦ rw large (
      digits_from-decimal fuel (n / 10) ((n % 10 + 48) ∷ out) (ground arith)
      ∙ digits_from_digit (n / 10) (n % 10) n out (omega arith) (omega arith))
]

decimal_some : (fuel n : ℕ) (out : Bytes) → out ≢ [] → decimal fuel n out ≢ []
unfolding decimal
decimal_some zero n out h = h
decimal_some (suc fuel) n out h = elim (Bool-cases (ltb n 10)) [
  | inl small ↦ rw small (λ e. cc)
  | inr large ↦ rw large (decimal_some fuel (n / 10) ((n % 10 + 48) ∷ out) (λ e. cc))
]

pub str_some : (n : ℕ) → str n ≢ []
unfolding str decimal
str_some n = elim (Bool-cases (ltb n 10)) [
  | inl small ↦ rw small (λ e. cc)
  | inr large ↦ rw large (decimal_some n (n / 10) ((n % 10 + 48) ∷ []) (λ e. cc))
]

pub AreDigits-IsSolid : (s : Bytes) → AreDigits s → IsSolid s
AreDigits-IsSolid [] h = tt
AreDigits-IsSolid (c ∷ s) h = (ground (arith, h.0), AreDigits-IsSolid s h.1)

signed_digits : (s : Bytes) → AreDigits s → s ≢ [] → signed s ≡ map_outcome pos (digits_from 0 s)
unfolding signed digits
signed_digits [] h n = absurd (n refl)
signed_digits (c ∷ s) h n = ground (arith, h.0)

digits_from-str : (n : ℕ) → digits_from 0 (str n) ≡ returned n
unfolding str digits_from
digits_from-str n = digits_from-decimal (suc n) n [] (omega arith)

-- A number that `str` printed is read back by `int`.
pub int-str : (n : ℕ) → int (str n) ≡ returned (pos n)
unfolding int
int-str n = rw (strip_solid (str n) (AreDigits-IsSolid (str n) (str-AreDigits n))) (
    signed_digits (str n) (str-AreDigits n) (str_some n) ∙ ap (map_outcome pos) (digits_from-str n))
