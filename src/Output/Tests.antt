-- ===== src/Output/Tests.antt =====
-- Two events for two plugins.
use wetland.Prelude.{codes, Bytes, List, [], ◌∷◌, refl}
use mathlib.Core.List.{Perm}
use wetland.Event.{Event, content_subject}
use wetland.Output.{Output, o, Reach, here, next, emit, thread}
use wetland.Output.Order.{fan_out, idle, sent-fan_out}

abbrev both : List Bytes
both = codes "log" ∷ codes "mqtt" ∷ []

abbrev typed : Event
typed = record { subject = content_subject; action = codes "shell"; content = codes "[H]:6c" }

abbrev delivered : Output
delivered = record {
  emitted = typed ∷ [];
  started = [];
  sent = (codes "mqtt", typed) ∷ (codes "log", typed) ∷ [];
}

reached : Reach both idle delivered
unfolding o
reached =
    next
      (next (next here (emit typed refl))
        (thread ((codes "log", typed) ∷ []) [] (codes "mqtt", typed) refl refl))
      (thread [] [] (codes "log", typed) refl refl)

sent-fan_out_example : Perm delivered.sent (fan_out both delivered.emitted)
sent-fan_out_example = sent-fan_out both delivered reached refl
