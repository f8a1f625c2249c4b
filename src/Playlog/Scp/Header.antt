-- ===== src/Playlog/Scp/Header.antt =====
-- The headers of scp, and how `extract_files` takes them apart (util/playlog.py).
use wetland.Prelude.{
  ℕ, Bytes, split, strip, str, str-AreDigits, AreDigits, AreDigits-IsSolid, int-str, IsSolid,
  IsSolid-Lacks, All, strip_tail, rstrip, split-append, split_word, is_space, is_digit, is_solid,
  pos, one, star, char, Pattern, re_match, re_match-one, re_match-star, [], ◌∷◌, ◌++◌, append_assoc,
  Bool, true, false, ◌≡◌, ◌≢◌, refl, str_some, length, arith,
}
use wetland.Prelude.Py.{Py}
use wetland.Exec.{file_header}
use wetland.Playlog.Scp.{Dict, Scp, folder_header, add_entry, by_header}

-- A name without white space.
pub record IsName (name : Bytes) : Type 0 where
  pub solid : IsSolid name
  pub some_text : name ≢ []

-- 'C0644 12 name\n' and 'D0755 0 name\n'
abbrev pub header : ℕ → Bytes → ℕ → Bytes → Bytes
header letter mode n name = (letter ∷ mode) ++ (32 ∷ (str n ++ 32 ∷ (name ++ 10 ∷ [])))

-- Four digits.
pub record IsMode (mode : Bytes) : Type 0 where
  pub digits : AreDigits mode
  pub four : length mode ≡ 4

matches_end : re_match (char b'\n' ∷ []) (10 ∷ []) ≡ true
unfolding re_match
matches_end = refl

matches_name :
    (name : Bytes)
    → IsName name
    → re_match (one is_solid ∷ star is_solid ∷ char b'\n' ∷ []) (name ++ 10 ∷ []) ≡ true
matches_name [] h = absurd (h.some_text refl)
matches_name (c ∷ name) h =
    rw (re_match-one is_solid (star is_solid ∷ char b'\n' ∷ []) c (name ++ 10 ∷ []) (rw h.solid.0))
      (re_match-star is_solid (char b'\n' ∷ []) name (10 ∷ []) (solids name h.solid.1) matches_end)
  where
    solids : (w : Bytes) → IsSolid w → All (λ c. is_solid c ≡ true) w
    solids [] k = tt
    solids (d ∷ w) k = (rw k.0, solids w k.1)

abbrev after_number : Pattern
after_number = one is_space ∷ star is_space ∷ one is_solid ∷ star is_solid ∷ char b'\n' ∷ []

-- A repeated class may take nothing.
star_none :
    (p : ℕ → Bool) (r : Pattern) (s : Bytes) → re_match r s ≡ true → re_match (star p ∷ r) s ≡ true
star_none p r s h = re_match-star p r [] s tt h

matches_number :
    (w s : Bytes)
    → AreDigits w
    → w ≢ []
    → re_match after_number s ≡ true
    → re_match (one is_digit ∷ star is_digit ∷ after_number) (w ++ s) ≡ true
matches_number [] s h n k = absurd (n refl)
matches_number (c ∷ w) s h n k =
    rw (re_match-one is_digit (star is_digit ∷ after_number) c (w ++ s) h.0)
      (re_match-star is_digit after_number w s h.1 k)

matches_fields :
    (w name : Bytes)
    → AreDigits w
    → w ≢ []
    → IsName name
    → re_match
        (one is_space ∷ star is_space ∷ one is_digit ∷ star is_digit ∷ after_number)
        (32 ∷ (w ++ 32 ∷ (name ++ 10 ∷ [])))
      ≡ true
matches_fields w name h n k =
    rw
      (re_match-one is_space (star is_space ∷ one is_digit ∷ star is_digit ∷ after_number) 32
        (w ++ 32 ∷ (name ++ 10 ∷ [])) refl)
      (star_none is_space (one is_digit ∷ star is_digit ∷ after_number) _ (
        matches_number w (32 ∷ (name ++ 10 ∷ [])) h n (
          rw
            (re_match-one is_space (star is_space ∷ one is_solid ∷ star is_solid ∷ char b'\n' ∷ [])
              32 (name ++ 10 ∷ []) refl)
            (star_none is_space (one is_solid ∷ star is_solid ∷ char b'\n' ∷ []) _
              (matches_name name k)))))

abbrev after_mode : Pattern
after_mode = one is_space ∷ star is_space ∷ one is_digit ∷ star is_digit ∷ after_number

matches_mode :
    (mode s : Bytes) (r : Pattern)
    → IsMode mode
    → re_match r s ≡ true
    → re_match (one is_digit ∷ one is_digit ∷ one is_digit ∷ one is_digit ∷ r) (mode ++ s) ≡ true
matches_mode [] s r h k = absurd (omega (arith, h.four))
matches_mode (c ∷ []) s r h k = absurd (omega (arith, h.four))
matches_mode (c ∷ d ∷ []) s r h k = absurd (omega (arith, h.four))
matches_mode (c ∷ d ∷ e ∷ []) s r h k = absurd (omega (arith, h.four))
matches_mode (c ∷ d ∷ e ∷ f ∷ []) s r h k = rw (
  re_match-one is_digit _ c (d ∷ e ∷ f ∷ s) h.digits.0,
  re_match-one is_digit _ d (e ∷ f ∷ s) h.digits.1.0,
  re_match-one is_digit _ e (f ∷ s) h.digits.1.1.0,
  re_match-one is_digit r f s h.digits.1.1.1.0,
  k,
)
matches_mode (c ∷ d ∷ e ∷ f ∷ g ∷ mode) s r h k = absurd (omega (arith, h.four))

module _ (mode : Bytes) (n : ℕ) (name : Bytes) where
  pub file_header_matches :
      IsMode mode → IsName name → re_match file_header (header b'C' mode n name) ≡ true
  unfolding re_match
  file_header_matches m h =
      matches_mode mode (32 ∷ (str n ++ 32 ∷ (name ++ 10 ∷ []))) after_mode m
        (matches_fields (str n) name (str-AreDigits n) (str_some n) h)

  pub folder_header_matches :
      IsMode mode → IsName name → re_match folder_header (header b'D' mode n name) ≡ true
  unfolding re_match
  folder_header_matches m h =
      matches_mode mode (32 ∷ (str n ++ 32 ∷ (name ++ 10 ∷ []))) after_mode m
        (matches_fields (str n) name (str-AreDigits n) (str_some n) h)

  -- A file is no folder.
  pub file_header_only : re_match folder_header (header b'C' mode n name) ≡ false
  unfolding re_match
  file_header_only = refl

blank : rstrip (10 ∷ []) ≡ []
unfolding rstrip
blank = refl

module _ (letter : ℕ) (mode : Bytes) (n : ℕ) (name : Bytes) (h : IsName name)
    (solid : IsSolid (letter ∷ mode)) where
  before_name :
      (x : Bytes) → (mode ++ 32 ∷ (str n ++ 32 ∷ [])) ++ x ≡ mode ++ 32 ∷ (str n ++ 32 ∷ x)
  before_name x = simp append_assoc

  strip-header : strip (header letter mode n name) ≡ (letter ∷ mode) ++ (32 ∷ (str n ++ 32 ∷ name))
  strip-header =
      rw (← before_name (name ++ 10 ∷ []), ← before_name name)
        (strip_tail letter (mode ++ 32 ∷ (str n ++ 32 ∷ [])) name (10 ∷ []) solid.0 h.solid
          h.some_text blank)

  split-header : split 32 (strip (header letter mode n name)) ≡ (letter ∷ mode) ∷ str n ∷ name ∷ []
  split-header = rw strip-header (
      rw (
        split-append 32 (letter ∷ mode) (str n ++ 32 ∷ name)
            (IsSolid-Lacks 32 (letter ∷ mode) refl solid),
        split-append 32 (str n) name
            (IsSolid-Lacks 32 (str n) refl (AreDigits-IsSolid (str n) (str-AreDigits n))),
        split_word 32 name (IsSolid-Lacks 32 name refl h.solid),
      ))

  -- The fields that `extract_files` reads are the name and the length.
  pub add_entry-header :
      (again : Dict → Py Scp _) (f : Dict) (s : Scp)
      → add_entry again f (header letter mode n name) s
        ≡ by_header again f (header letter mode n name) name (pos n) s
  unfolding add_entry
  add_entry-header again f s = rw split-header (rw (int-str n))
