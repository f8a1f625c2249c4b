-- ===== src/Prelude/Py.antt =====
-- Statements of Python: they read and write a state, and return or raise. What was written before
-- a raise stays written, so the state comes back beside the exception too.
use Prim.Native.Nat.{ℕ}
use mathlib.Core.Option.{none, some}
use mathlib.Core.List.{List}
use wetland.Prelude.Lists.{get_elem?}

-- The exceptions that the program raises itself or tells apart; `io_error` carries an errno.
pub data PyError : Type 0 where
  type_error key_error index_error value_error attribute_error : PyError
  ssh_exception channel_exception other_error : PyError
  system_exit : ℕ → PyError
  io_error : ℕ → PyError

pub data Outcome {ℓ} (A : Type ℓ) : Type ℓ where
  returned : A → Outcome A
  raised : PyError → Outcome A

abbrev pub Py {ℓ κ} : Type ℓ → Type κ → Type (ℓ ⊔ κ)
Py S A = S → Outcome A × S

module _ {ℓ κ} {S : Type ℓ} {A : Type κ} where
  abbrev pub pure : A → Py S A
  pure a s = (returned a, s)

  abbrev pub raise : PyError → Py S A
  raise e s = (raised e, s)

  -- The value of an expression that touches no state.
  abbrev pub lift : Outcome A → Py S A
  lift r s = (r, s)

module _ {ℓ κ μ} {S : Type ℓ} {A : Type κ} {B : Type μ} where
  abbrev pub continue : Outcome A → (A → Py S B) → Py S B
  continue (returned a) f s = f a s
  continue (raised e) f s = (raised e, s)

  infixl 10 ◌>>=◌ ◌>>◌
  abbrev pub ◌>>=◌ : Py S A → (A → Py S B) → Py S B
  ◌>>=◌ m f s = let r = m s in continue r.0 f r.1

  abbrev pub ◌>>◌ : Py S A → Py S B → Py S B
  m >> n = m >>= λ _. n

  abbrev pub settle : Outcome A → (PyError → Py S B) → (A → Py S B) → Py S B
  settle (returned a) handler orelse s = orelse a s
  settle (raised e) handler orelse s = handler e s

  -- try: m / except Exception as e: handler e / else: orelse
  abbrev pub try_except_else : Py S A → (PyError → Py S B) → (A → Py S B) → Py S B
  try_except_else m handler orelse s = let r = m s in settle r.0 handler orelse r.1

-- l[i]
abbrev pub item {ℓ} : {A : Type ℓ} → List A → ℕ → Outcome A
item l i = elim (get_elem? l i) [ none ↦ raised index_error | some a ↦ returned a ]
