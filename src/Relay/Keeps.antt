-- ===== src/Relay/Keeps.antt =====
-- Statements of the services that keep a predicate of the state, whether they return or raise
-- (wetland/services).
use wetland.Prelude.{Bool, true, false, if◌then◌else◌}
use wetland.Prelude.Py.{Py, Outcome, returned, raised, continue, ◌>>=◌, ◌>>◌}
use wetland.Relay.{Flow, go_on, stop, Status, when, unless_stopped, after_round, next_round}

module _ {S : Type 0} (P : S → Type 0) where
  abbrev pub Keeps : {A : Type 0} → Py S A → Type 0
  Keeps m = (s : S) → P s → P (m s).1

  continue-Keeps :
      {A B : Type 0} (o : Outcome A) (f : A → Py S B) (s : S)
      → P s
      → ((a : A) → Keeps (f a))
      → P (continue o f s).1
  continue-Keeps (returned a) f s h k = k a s h
  continue-Keeps (raised e) f s h k = h

  pub Keeps-bind :
      {A B : Type 0} (m : Py S A) (f : A → Py S B)
      → Keeps m
      → ((a : A) → Keeps (f a))
      → Keeps (m >>= f)
  Keeps-bind m f h k s p = continue-Keeps (m s).0 f (m s).1 (h s p) k

  pub Keeps-next : {A B : Type 0} (m : Py S A) (n : Py S B) → Keeps m → Keeps n → Keeps (m >> n)
  Keeps-next m n h k = Keeps-bind m (λ _. n) h (λ _. k)

  pub Keeps-when : (b : Bool) (m : Py S (Unit {0})) → Keeps m → Keeps (when b m)
  Keeps-when true m h s p = h s p
  Keeps-when false m h s p = p

  pub if-Keeps :
      {A : Type 0} (b : Bool) (x y : Outcome A × S) → P x.1 → P y.1 → P (if b then x else y).1
  if-Keeps true x y h k = h
  if-Keeps false x y h k = k

  pub Keeps-unless_stopped :
      (flow : Flow) (m : Py S (Unit {0})) → Keeps m → Keeps (unless_stopped flow m)
  Keeps-unless_stopped go_on m h s p = h s p
  Keeps-unless_stopped stop m h s p = p

  pub next_round-Keeps :
      (o : Outcome (Unit {0})) (eof : Bool) (rest : Status × S) (s : S)
      → P s
      → P rest.1
      → P (next_round (after_round o eof) rest s).1
  next_round-Keeps (returned x) true rest s h k = h
  next_round-Keeps (returned x) false rest s h k = k
  next_round-Keeps (raised e) eof rest s h k = h
