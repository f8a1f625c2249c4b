-- ===== src/Playlog/Scp/Total.antt =====
-- The loop of `extract_files` ends (util/playlog.py).
use wetland.Prelude.{
  ℕ, ◌*◌, ◌==◌, pos, negate, zero, suc, ◌≤◌, ◌<◌, ◌+◌, ◌-◌, Bytes, List, [], ◌∷◌, ◌++◌, length,
  concat, Option, none, some, Bool, true, false, ◌&&◌, bytes_eq, re_match, ℤ, int, split, strip,
  ◌≢◌, arith, if◌then◌else◌, signed, digits, digits_from, is_digit, map_outcome,
}
use wetland.Prelude.Py.{Py, Outcome, returned, raised, continue, value_error, other_error, item}
use wetland.Exec.{file_header}
use wetland.Playlog.Scp.{
  Dict, file, folder, empty, put, Scp, popleft, at_tail, tail_message, folder_header, read_contents,
  contents_of, add_folder, close_folder, by_header, add_entry, extract_round, extract_loop,
  extract_files, nul, ends_with_nul, is_length, print,
}

-- The result of a run that did not run out of fuel.
abbrev pub InFuel : {A : Type 0} → Outcome A → Type 0
InFuel (returned a) = Unit
InFuel (raised e) = e ≢ other_error

-- It is such a run, with at most `n` messages left.
abbrev Ends : {A : Type 0} → ℕ → Outcome A × Scp → Type 0
Ends n r = InFuel r.0 × (length r.1.dq ≤ n)

-- With fewer than `k` messages a statement ends, and adds none.
abbrev EndsBelow : ℕ → (Dict → Py Scp (Option Dict)) → Type 0
EndsBelow k again = (f : Dict) (s : Scp) → length s.dq < k → Ends (length s.dq) (again f s)

Ends-le : {A : Type 0} (n m : ℕ) (r : Outcome A × Scp) → n ≤ m → Ends n r → Ends m r
Ends-le n m r l h = (h.0, omega (arith, h.1))

Ends-bind :
    {A B : Type 0} (n : ℕ) (r : Outcome A × Scp) (f : A → Py Scp B)
    → Ends n r
    → ((a : A) (s : Scp) → length s.dq ≤ n → Ends n (f a s))
    → Ends n (continue r.0 f r.1)
Ends-bind n (returned a, s) f h k = k a s h.1
Ends-bind n (raised e, s) f h k = h

if-Ends :
    {A : Type 0} (n : ℕ) (b : Bool) (x y : Outcome A × Scp)
    → Ends n x
    → Ends n y
    → Ends n (if b then x else y)
if-Ends n true x y h k = h
if-Ends n false x y h k = k

if-InFuel :
    {A : Type 0} (b : Bool) (x y : Outcome A) → InFuel x → InFuel y → InFuel (if b then x else y)
if-InFuel true x y h k = h
if-InFuel false x y h k = k

if-pair-InFuel :
    {A B : Type 0} (b : Bool) (x y : Outcome A × B)
    → InFuel x.0
    → InFuel y.0
    → InFuel (if b then x else y).0
if-pair-InFuel true x y h k = h
if-pair-InFuel false x y h k = k

read_contents-InFuel : (n : ℤ) (contents dq : List Bytes) → InFuel (read_contents n contents dq).0
unfolding read_contents
read_contents-InFuel n contents [] = λ e. cc
read_contents-InFuel n contents (tmp ∷ dq) =
    let rest = read_contents-InFuel n (contents ++ tmp ∷ []) dq in
    if-pair-InFuel (bytes_eq tmp nul) _ _ tt (
      if-pair-InFuel (ends_with_nul tmp && is_length (length (concat contents) + length tmp - 1) n)
        _ (read_contents n (contents ++ tmp ∷ []) dq) tt rest)

length-read_contents :
    (n : ℤ) (contents dq : List Bytes) → length (read_contents n contents dq).1 ≤ length dq
unfolding read_contents
length-read_contents n contents [] = omega arith
length-read_contents n contents (tmp ∷ dq) =
    ground (arith, length-read_contents n (contents ++ tmp ∷ []) dq)

contents_of-Ends : (n : ℤ) (s : Scp) → Ends (length s.dq) (contents_of n s)
unfolding contents_of
contents_of-Ends n s = (read_contents-InFuel n [] s.dq, length-read_contents n [] s.dq)

digits_from-InFuel : (n : ℕ) (s : Bytes) → InFuel (digits_from n s)
unfolding digits_from
digits_from-InFuel n [] = tt
digits_from-InFuel n (c ∷ s) =
    if-InFuel (is_digit c) (digits_from (n * 10 + (c - 48)) s) (raised value_error)
      (digits_from-InFuel (n * 10 + (c - 48)) s) (λ e. cc)

digits-InFuel : (s : Bytes) → InFuel (digits s)
unfolding digits
digits-InFuel [] = λ e. cc
digits-InFuel (c ∷ s) = digits_from-InFuel 0 (c ∷ s)

map_outcome-InFuel : (f : ℕ → ℤ) (r : Outcome ℕ) → InFuel r → InFuel (map_outcome f r)
map_outcome-InFuel f (returned n) h = tt
map_outcome-InFuel f (raised e) h = h

signed-InFuel : (s : Bytes) → InFuel (signed s)
unfolding signed
signed-InFuel [] = λ e. cc
signed-InFuel (c ∷ s) =
    if-InFuel (c == b'-') _ _ (map_outcome-InFuel negate (digits s) (digits-InFuel s)) (
      if-InFuel (c == b'+') _ _ (map_outcome-InFuel pos (digits s) (digits-InFuel s))
        (map_outcome-InFuel pos (digits (c ∷ s)) (digits-InFuel (c ∷ s))))

int-InFuel : (s : Bytes) → InFuel (int s)
unfolding int
int-InFuel s = signed-InFuel (strip s)

item-InFuel : (l : List Bytes) (i : ℕ) → InFuel (item l i)
item-InFuel [] i = λ e. cc
item-InFuel (x ∷ l) zero = tt
item-InFuel (x ∷ l) (suc i) = item-InFuel l i

module _ (k : ℕ) (again : Dict → Py Scp (Option Dict)) (ends : EndsBelow k again) where
  add_folder-Ends :
      (f : Dict) (name : Bytes) (sub : Option Dict) (n : ℕ) (s : Scp)
      → length s.dq ≤ n
      → n < k
      → Ends n (add_folder again f name sub s)
  unfolding add_folder close_folder popleft print
  add_folder-Ends f name none n s h l = (tt, h)
  add_folder-Ends f name (some sub) n s h l = tail s.dq h
    where
      tail :
          (dq : List Bytes)
          → length dq ≤ n
          → Ends n (add_folder again f name (some sub) (record s { dq = dq }))
      tail [] h = (λ e. cc, h)
      tail (m ∷ dq) h =
          if-Ends n (bytes_eq m tail_message) _ _
            (Ends-le (length dq) n (again (put name (folder sub) f) (record s { dq = dq }))
              (omega arith) (ends (put name (folder sub) f) (record s { dq = dq }) (omega arith)))
            (tt, omega arith)

  by_header-Ends :
      (f : Dict) (hdr name : Bytes) (z : ℤ) (n : ℕ) (s : Scp)
      → length s.dq ≤ n
      → n < k
      → Ends n (by_header again f hdr name z s)
  unfolding by_header print
  by_header-Ends f hdr name z n s h l =
      if-Ends n (re_match folder_header hdr) _ _
        (Ends-bind n (again empty s) (add_folder again f name)
          (Ends-le (length s.dq) n (again empty s) h (ends empty s (omega arith)))
          (λ sub s' h'. add_folder-Ends f name sub n s' h' l))
        (if-Ends n (re_match file_header hdr) _ _
          (Ends-bind n (contents_of z s) (λ c. again (put name (file c) f))
            (Ends-le (length s.dq) n (contents_of z s) h (contents_of-Ends z s))
            (λ c s' h'.
              Ends-le (length s'.dq) n (again (put name (file c) f) s') h'
                (ends (put name (file c) f) s' (omega arith))))
          (tt, h))

  add_entry-Ends :
      (f : Dict) (hdr : Bytes) (n : ℕ) (s : Scp)
      → length s.dq ≤ n
      → n < k
      → Ends n (add_entry again f hdr s)
  unfolding add_entry
  add_entry-Ends f hdr n s h l =
      Ends-bind n (item (split 32 (strip hdr)) 2, s) _ (item-InFuel _ 2, h)
        λ name s1 h1.
          Ends-bind n (item (split 32 (strip hdr)) 1, s1) _ (item-InFuel _ 1, h1)
            λ w s2 h2.
              Ends-bind n (int w, s2) _ (int-InFuel w, h2)
                λ z s3 h3. by_header-Ends f hdr name z n s3 h3 l

  extract_round-Ends : EndsBelow (suc k) (extract_round again)
  unfolding extract_round popleft
  extract_round-Ends f s h = messages s.dq h
    where
      messages :
          (dq : List Bytes)
          → length dq < suc k
          → Ends (length dq) (extract_round again f (record s { dq = dq }))
      messages [] h = (tt, omega arith)
      messages (m ∷ dq) h =
          if-Ends (suc (length dq)) (at_tail (m ∷ dq)) _ _ (tt, omega arith)
            (Ends-le (length dq) (suc (length dq)) (add_entry again f m (record s { dq = dq }))
              (omega arith)
              (add_entry-Ends f m (length dq) (record s { dq = dq }) (omega arith) (omega arith)))

extract_loop-Ends : (fuel : ℕ) → EndsBelow fuel (extract_loop fuel)
unfolding extract_loop
extract_loop-Ends zero f s h = elim h [ ]
extract_loop-Ends (suc fuel) f s h =
    extract_round-Ends fuel (extract_loop fuel) (extract_loop-Ends fuel) f s h

-- Whatever the messages: extract_files ends within its fuel, and adds no message.
pub extract_files_ends :
    (s : Scp) → InFuel (extract_files s).0 × (length (extract_files s).1.dq ≤ length s.dq)
unfolding extract_files
extract_files_ends s = extract_loop-Ends (suc (length s.dq)) empty s (omega arith)
