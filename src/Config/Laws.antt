-- ===== src/Config/Laws.antt =====
-- What `reqpubip` finds (wetland/config.py).
use wetland.Prelude.{
  ℕ, zero, suc, Bytes, split-append, Lacks, Bool, true, false, ◌&&◌, ◌==◌, List, [], ◌∷◌, ◌++◌, ◌≡◌,
  refl, Bool-cases, inl, inr,
}
use wetland.Config.{
  split_lines, last_part, outer_address, Attempt, failed, reply, found, request_loop, reqpubip,
}

split_lines_word : (b : Bytes) → Lacks 13 b → split_lines b ≡ b ∷ []
unfolding split_lines
split_lines_word [] h = refl
split_lines_word (c ∷ []) h = refl
split_lines_word (c ∷ d ∷ s) h = rw (h.0, split_lines_word (d ∷ s) h.1)

-- The last line of a text, after some others.
record Lines (s b : Bytes) : Type 0 where
  first : Bytes
  others : List Bytes
  result : split_lines s ≡ first ∷ (others ++ b ∷ [])

Lines-cons : (c d : ℕ) (s b : Bytes) → Lines s b → Lines (d ∷ s) b → Lines (c ∷ d ∷ s) b
unfolding split_lines
Lines-cons c d s b after inner = elim (Bool-cases (c == 13 && d == 10)) [
  | inl newline ↦ record {
    first = [];
    others = after.first ∷ after.others;
    result = rw (newline, after.result);
  }
  | inr letter ↦ record {
    first = c ∷ inner.first;
    others = inner.others;
    result = rw (letter, inner.result);
  }
]

one_before : (c : ℕ) (b : Bytes) → Lacks 13 b → split_lines (c ∷ 13 ∷ 10 ∷ b) ≡ (c ∷ []) ∷ b ∷ []
unfolding split_lines
one_before c b h = elim (Bool-cases (c == 13)) [
  | inl same ↦ rw (same, split_lines_word b h)
  | inr other ↦ rw (other, split_lines_word b h)
]

Lines-append : (a b : Bytes) → Lacks 13 b → Lines (a ++ 13 ∷ 10 ∷ b) b
unfolding split_lines
Lines-append [] b h = record { first = []; others = []; result = rw (split_lines_word b h) }
Lines-append (c ∷ []) b h = record { first = c ∷ []; others = []; result = one_before c b h }
Lines-append (c ∷ d ∷ a) b h =
    Lines-cons c d (a ++ 13 ∷ 10 ∷ b) b (Lines-append a b h) (Lines-append (d ∷ a) b h)

last_part-append : (w : Bytes) (ws : List Bytes) (b : Bytes) → last_part (w ∷ (ws ++ b ∷ [])) ≡ b
unfolding last_part
last_part-append w [] b = refl
last_part-append w (v ∷ ws) b = last_part-append v ws b

-- A reply of any head, a line break, an address and a newline gives that address, if nothing after
-- the break holds a carriage return and the address holds no newline.
outer_address-reply :
    (head ip rest : Bytes)
    → Lacks 13 (ip ++ b'\n' ∷ rest)
    → Lacks b'\n' ip
    → outer_address (head ++ 13 ∷ 10 ∷ (ip ++ b'\n' ∷ rest)) ≡ ip
unfolding outer_address
outer_address-reply head ip rest h k =
    let l = Lines-append head (ip ++ b'\n' ∷ rest) h in
    rw (l.result) (
      rw (last_part-append l.first l.others (ip ++ b'\n' ∷ rest))
        (rw (split-append b'\n' ip rest k)))

abbrev failures : ℕ → List Attempt → List Attempt
failures zero rest = rest
failures (suc n) rest = failed ∷ failures n rest

-- However often the connection fails, the request goes on, and the first reply that comes ends it
-- with the address that it names, if no carriage return comes behind the line break before the
-- address and no newline is in it.
pub reqpubip_found :
    (n : ℕ) (head ip rest inip : Bytes) (later : List Attempt)
    → Lacks 13 (ip ++ b'\n' ∷ rest)
    → Lacks b'\n' ip
    → reqpubip (failures n (reply (head ++ 13 ∷ 10 ∷ (ip ++ b'\n' ∷ rest)) inip ∷ later))
      ≡ found ip inip
unfolding reqpubip request_loop
reqpubip_found n head ip rest inip later h k = after_failures false n
  where
    after_failures :
        (bound : Bool) (n : ℕ)
        → request_loop bound
            (failures n (reply (head ++ 13 ∷ 10 ∷ (ip ++ b'\n' ∷ rest)) inip ∷ later))
          ≡ found ip inip
    after_failures bound zero = rw (outer_address-reply head ip rest h k)
    after_failures bound (suc n) = after_failures true n
