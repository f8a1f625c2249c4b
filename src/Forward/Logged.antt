-- ===== src/Forward/Logged.antt =====
-- The log of a forwarded connection (wetland/services/direct_service.py and reverse_service.py).
use wetland.Prelude.{
  ℕ, Bytes, List, [], ◌∷◌, ◌++◌, append_assoc, Option, none, some, Bool, true, false, ◌&&◌, refl,
  Bool-cases, inl, inr, bytes_eq,
}
use wetland.Prelude.Py.{Py, Outcome, returned, raised, continue, ◌>>◌}
use wetland.Relay.{
  Side, hacker, docker, Effect, Trace, Status, waiting, finished, emit, send, close, shutdown_write,
  send_exit_status, call, half_close, close_both, text_event,
}
use wetland.Relay.Recorded.{IsLogged, IsLogged-append}
use wetland.Forward.{
  Turn, Forward, direct, reverse, action, relay, half_close_if, relay_round, relay_loop, relay_end,
  direct_service, appears, after_relay, opposite, reverse_handler2,
}

-- Each direction is logged, in order and without a gap.
pub record IsCopied (forward : Forward) (t : Trace) : Type 0 where
  pub from_docker : IsLogged (action forward) docker hacker t
  pub from_hacker : IsLogged (action forward) hacker docker t

module _ (forward : Forward) where
  IsCopied-append :
      (a b : Trace) → IsCopied forward a → IsCopied forward b → IsCopied forward (a ++ b)
  IsCopied-append a b h k = record {
    from_docker = IsLogged-append (action forward) docker hacker a b h.from_docker k.from_docker;
    from_hacker = IsLogged-append (action forward) hacker docker a b h.from_hacker k.from_hacker;
  }

  -- A statement that keeps it, whether it returns or raises.
  abbrev Keeps : Py Trace (Unit {0}) → Type 0
  Keeps m = (t : Trace) → IsCopied forward t → IsCopied forward (m t).1

  continue-Keeps :
      (o : Outcome (Unit {0})) (n : Py Trace (Unit {0})) (t : Trace)
      → IsCopied forward t
      → Keeps n
      → IsCopied forward (continue o (λ _. n) t).1
  continue-Keeps (returned x) n t h k = k t h
  continue-Keeps (raised e) n t h k = h

  Keeps-bind : (m n : Py Trace (Unit {0})) → Keeps m → Keeps n → Keeps (m >> n)
  Keeps-bind m n h k t c = continue-Keeps (m t).0 n (m t).1 (h t c) k

  shutdown_write-IsCopied : (side : Side) → IsCopied forward (shutdown_write side ∷ [])
  shutdown_write-IsCopied hacker = record {
    from_docker = record { all = refl };
    from_hacker = record { all = refl };
  }
  shutdown_write-IsCopied docker = record {
    from_docker = record { all = refl };
    from_hacker = record { all = refl };
  }

  send_exit_status-IsCopied : (side : Side) → IsCopied forward (send_exit_status side 0 ∷ [])
  send_exit_status-IsCopied hacker = record {
    from_docker = record { all = refl };
    from_hacker = record { all = refl };
  }
  send_exit_status-IsCopied docker = record {
    from_docker = record { all = refl };
    from_hacker = record { all = refl };
  }

  close-IsCopied : (side : Side) → IsCopied forward (close side ∷ [])
  close-IsCopied hacker = record {
    from_docker = record { all = refl };
    from_hacker = record { all = refl };
  }
  close-IsCopied docker = record {
    from_docker = record { all = refl };
    from_hacker = record { all = refl };
  }

-- A text is logged, and handed to the other side.
copied :
    (forward : Forward) (side : Side) (text : Bytes)
    → IsCopied forward
        (emit (text_event (action forward) side text) ∷ send (opposite side) text ∷ [])
unfolding bytes_eq
copied direct hacker text = record {
  from_docker = record { all = refl };
  from_hacker = record { all = refl };
}
copied direct docker text = record {
  from_docker = record { all = refl };
  from_hacker = record { all = refl };
}
copied reverse hacker text = record {
  from_docker = record { all = refl };
  from_hacker = record { all = refl };
}
copied reverse docker text = record {
  from_docker = record { all = refl };
  from_hacker = record { all = refl };
}

module _ (forward : Forward) (answers : Trace → Outcome (Unit {0})) where
  call-Keeps : (e : Effect) → IsCopied forward (e ∷ []) → Keeps forward (call answers e)
  unfolding call
  call-Keeps e k t h = IsCopied-append forward t (e ∷ []) h k

  relay-Keeps :
      (side : Side) (text : Option Bytes) → Keeps forward (relay forward answers side text)
  unfolding relay call bytes_eq
  relay-Keeps side none t h = h
  relay-Keeps hacker (some text) t h = rw (append_assoc t _ _) (
      IsCopied-append forward t
        (emit (text_event (action forward) hacker text) ∷ send docker text ∷ []) h
        (copied forward hacker text))
  relay-Keeps docker (some text) t h = rw (append_assoc t _ _) (
      IsCopied-append forward t
        (emit (text_event (action forward) docker text) ∷ send hacker text ∷ []) h
        (copied forward docker text))

  half_close_if-Keeps :
      (eof : Bool) (side : Side) → Keeps forward (half_close_if forward answers eof side)
  unfolding half_close_if half_close
  half_close_if-Keeps false side t h = h
  half_close_if-Keeps true side t h =
      Keeps-bind forward (call answers (shutdown_write side))
        (call answers (send_exit_status side 0))
        (call-Keeps (shutdown_write side) (shutdown_write-IsCopied forward side))
        (call-Keeps (send_exit_status side 0) (send_exit_status-IsCopied forward side)) t h

  relay_round-Keeps : (r : Turn) → Keeps forward (relay_round forward answers r)
  unfolding relay_round
  relay_round-Keeps r =
      let shut_hacker = half_close_if forward answers r.docker_eof hacker in
      let shut_docker = half_close_if forward answers r.hacker_eof docker in
      let back = relay forward answers docker r.from_docker in
      Keeps-bind forward (relay forward answers hacker r.from_hacker)
        (do back; shut_hacker; shut_docker) (relay-Keeps hacker r.from_hacker)
        (Keeps-bind forward back (do shut_hacker; shut_docker) (relay-Keeps docker r.from_docker)
          (Keeps-bind forward shut_hacker shut_docker (half_close_if-Keeps r.docker_eof hacker)
            (half_close_if-Keeps r.hacker_eof docker)))

  after_relay-IsCopied :
      (o : Outcome (Unit {0})) (eof : Bool) (rest : Status × Trace) (t : Trace)
      → IsCopied forward t
      → IsCopied forward rest.1
      → IsCopied forward (after_relay forward answers o eof rest t).1
  unfolding after_relay
  after_relay-IsCopied (raised e) eof rest t h k = h
  after_relay-IsCopied (returned x) true rest t h k = h
  after_relay-IsCopied (returned x) false rest t h k = k

  relay_loop-IsCopied :
      (rs : List Turn) (t : Trace)
      → IsCopied forward t
      → IsCopied forward (relay_loop forward answers rs t).1
  unfolding relay_loop
  relay_loop-IsCopied [] t h = h
  relay_loop-IsCopied (r ∷ rs) t h =
      let k = relay_round-Keeps r t h in
      after_relay-IsCopied _ (r.docker_eof && r.hacker_eof) _ _ k (relay_loop-IsCopied rs _ k)

  relay_end-IsCopied :
      (r : Status × Trace) → IsCopied forward r.1 → IsCopied forward (relay_end forward answers r)
  unfolding relay_end close_both
  relay_end-IsCopied (waiting, t) h = h
  relay_end-IsCopied (finished, t) h =
      Keeps-bind forward (call answers (close hacker)) (call answers (close docker))
        (call-Keeps (close hacker) (close-IsCopied forward hacker))
        (call-Keeps (close docker) (close-IsCopied forward docker)) t h

module _ (answers : Trace → Outcome (Unit {0})) where
  served :
      (forward : Forward) (turns : List Turn) (t : Trace)
      → IsCopied forward t
      → IsCopied forward (relay_end forward answers (relay_loop forward answers turns t))
  served forward turns t h =
      relay_end-IsCopied forward answers (relay_loop forward answers turns t)
        (relay_loop-IsCopied forward answers turns t h)

  refused : (forward : Forward) → IsCopied forward (call answers (close docker) []).1
  refused forward =
      call-Keeps forward answers (close docker) (close-IsCopied forward docker) []
        (record { from_docker = record { all = refl }; from_hacker = record { all = refl } })

  -- Whatever the channels answer or raise, and whether or not the hacker's channel appears in
  -- time: a direct connection logs exactly the texts that it handed to `send`, in order, in both
  -- directions.
  direct_service-IsCopied :
      (found : ℕ → Bool) (turns : List Turn)
      → IsCopied direct (direct_service answers found turns [])
  unfolding direct_service bytes_eq
  direct_service-IsCopied found turns = elim (Bool-cases (appears found 0 10)) [
    | inl in_time ↦ rw in_time (
        served direct turns _
          (record { from_docker = record { all = refl }; from_hacker = record { all = refl } }))
    | inr late ↦ rw late (refused direct)
  ]

  -- Whatever the channels answer or raise, and whether or not the channel to the hacker opens: a
  -- reverse connection logs exactly the texts that it handed to send, in order, in both directions.
  pub reverse_handler2-IsCopied :
      (opened : Bool) (ends : Bytes) (turns : List Turn)
      → IsCopied reverse (reverse_handler2 answers opened ends turns [])
  unfolding reverse_handler2 bytes_eq
  reverse_handler2-IsCopied true ends turns =
      served reverse turns _
        (record { from_docker = record { all = refl }; from_hacker = record { all = refl } })
  reverse_handler2-IsCopied false ends turns = refused reverse
