-- ===== src/Output.antt =====
-- The threads of `output.o`: one for each event and plugin (wetland/output.py).
pub mod Order
mod Tests
use wetland.Prelude.{Bytes, List, [], ◌∷◌, ◌++◌, map, ◌≡◌}
use wetland.Event.{Event}

-- A call of `send` of a plugin.
abbrev pub Call : Type 0
Call = Bytes × Event

-- What was emitted, the threads that were started and have not run, and the calls in the order in
-- which they ran.
pub record Output : Type 0 where
  pub emitted : List Event
  pub started : List Call
  pub sent : List Call

abbrev pub calls : List Bytes → Event → List Call
calls plugins e = map (λ p. (p, e)) plugins

-- output.o
unfoldable pub o : List Bytes → Event → Output → Output
o plugins e s = record s { emitted = s.emitted ++ e ∷ []; started = s.started ++ calls plugins e }

-- Some thread runs, whichever the scheduler takes.
pub data Step (plugins : List Bytes) (s : Output) (t : Output) : Type 0 where
  emit : (e : Event) → t ≡ o plugins e s → Step plugins s t
  thread :
      (before after : List Call) (c : Call)
      → s.started ≡ before ++ c ∷ after
      → t ≡ record s { started = before ++ after; sent = s.sent ++ c ∷ [] }
      → Step plugins s t

pub data Reach (plugins : List Bytes) (s : Output) : Output → Type 0 where
  here : Reach plugins s s
  next : {t u : Output} → Reach plugins s t → Step plugins t u → Reach plugins s u
