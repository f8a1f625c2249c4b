-- ===== src/Output/Order.antt =====
-- What the threads of wetland/output.py deliver, and in which order.
use wetland.Prelude.{Bytes, List, [], ◌∷◌, ◌++◌, append_assoc, append-nil, ◌≡◌, refl, sym}
use mathlib.Core.List.{Perm, perm_middle}
use mathlib.Core.List.Perm
use wetland.Event.{Event}
use wetland.Output.{Call, Output, calls, o, Step, emit, thread, Reach, here, next}

-- One call for each event and plugin.
abbrev pub fan_out : List Bytes → List Event → List Call
fan_out plugins [] = []
fan_out plugins (e ∷ es) = calls plugins e ++ fan_out plugins es

abbrev pub idle : Output
idle = record { emitted = []; started = []; sent = [] }

fan_out-append :
    (plugins : List Bytes) (es : List Event) (e : Event)
    → fan_out plugins (es ++ e ∷ []) ≡ fan_out plugins es ++ calls plugins e
fan_out-append plugins [] e = append-nil (calls plugins e)
fan_out-append plugins (d ∷ es) e =
    rw (fan_out-append plugins es e) (sym (append_assoc (calls plugins d) _ _))

module _ (plugins : List Bytes) where
  -- Every call has run, or its thread is started.
  abbrev IsComplete : Output → Type 0
  IsComplete s = Perm (s.sent ++ s.started) (fan_out plugins s.emitted)

  o-IsComplete : (e : Event) (s : Output) → IsComplete s → IsComplete (o plugins e s)
  unfolding o
  o-IsComplete e s h =
      rw (fan_out-append plugins s.emitted e, ← append_assoc s.sent s.started (calls plugins e))
        (Perm.append_right (calls plugins e) h)

  run-IsComplete :
      (s : Output) (before after : List Call) (c : Call)
      → s.started ≡ before ++ c ∷ after
      → IsComplete s
      → IsComplete (record s { started = before ++ after; sent = s.sent ++ c ∷ [] })
  run-IsComplete s before after c e h =
      Perm.trans
        (rw (append_assoc s.sent (c ∷ []) (before ++ after))
          (Perm.append_left s.sent (Perm.symm (perm_middle before after))))
        (rw e at h)

  Step-IsComplete : {s t : Output} → Step plugins s t → IsComplete s → IsComplete t
  Step-IsComplete {s} (emit e q) h = rw q (o-IsComplete e s h)
  Step-IsComplete {s} (thread before after c e q) h = rw q (run-IsComplete s before after c e h)

  Reach-IsComplete : {s t : Output} → Reach plugins s t → IsComplete s → IsComplete t
  Reach-IsComplete here h = h
  Reach-IsComplete (next r st) h = Step-IsComplete st (Reach-IsComplete r h)

  -- However the threads are scheduled: when none is left to run, the calls of the plugins are, up
  -- to their order, one for each plugin and emitted event.
  pub sent-fan_out :
      (s : Output) → Reach plugins idle s → s.started ≡ [] → Perm s.sent (fan_out plugins s.emitted)
  sent-fan_out s r e = rw (append-nil s.sent) at (rw e at (Reach-IsComplete r (Perm.refl [])))

-- The order in which events are emitted is not kept, with any plugin and any two events.
pub order_lost :
    (p : Bytes) (d e : Event)
    → Reach
        (p ∷ [])
        idle
        (record { emitted = d ∷ e ∷ []; started = []; sent = (p, e) ∷ (p, d) ∷ [] })
unfolding o
order_lost p d e =
    next
      (next (next (next here (emit d refl)) (emit e refl))
        (thread ((p, d) ∷ []) [] (p, e) refl refl))
      (thread [] [] (p, d) refl refl)
