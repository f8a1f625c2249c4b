-- ===== src/SocketServer/Survives.antt =====
-- What ends the loop of the server (wetland/services/SocketServer.py).
use wetland.Prelude.{
  ℕ, Bool, true, false, List, [], ◌∷◌, ◌++◌, Option, none, some, All, ◌≡◌, refl, sym, ap, ◌∙◌,
  append-nil,
}
use wetland.Prelude.Py.{Outcome, returned, raised, io_error}
use wetland.SocketServer.{Server, eintr_retry}
use wetland.SocketServer.Requests.{Arrival, handle_request_noblock}
use wetland.SocketServer.Loop.{
  Round, going, before_test, continued, tested, test_round, finally_reset, serve_round, shutdown,
  reset, serve_ready, serve_loop, serve_forever,
}
use wetland.SocketServer.Closed.{handle_request_noblock-returns, handle_request_noblock_flag}

-- `select` is interrupted a number of times before it answers.
pub data Interrupted : List (Outcome Bool) → Bool → Type 0 where
  answers : (ready : Bool) (rest : List (Outcome Bool)) → Interrupted (returned ready ∷ rest) ready
  interrupts :
      {l : List (Outcome Bool)} {ready : Bool} (errno : ℕ)
      → errno ≡ 4
      → Interrupted l ready
      → Interrupted (raised (io_error errno) ∷ l) ready

eintr_retry-Interrupted :
    {l : List (Outcome Bool)} {ready : Bool}
    → Interrupted l ready
    → eintr_retry l ≡ some (returned ready)
unfolding eintr_retry
eintr_retry-Interrupted (answers ready rest) = refl
eintr_retry-Interrupted (interrupts errno e i) = rw (e, eintr_retry-Interrupted i) refl

-- What `accept` does in the end: a connection, or an error of the socket.
abbrev pub IsAccept : Outcome Arrival → Type 0
IsAccept (returned a) = Unit {0}
IsAccept (raised e) = (errno : ℕ) × (e ≡ io_error errno)

-- A round in which nobody calls `shutdown`.
pub record IsQuiet (r : Round) : Type 0 where
  pub ready : Bool
  pub goes_on : r.stops ≡ false
  pub selected : Interrupted r.selects ready
  pub accept : IsAccept r.accepted

module _ {A : Type 0} where
  -- The requests of the rounds, in order.
  pub served : (rounds : List Round) → All IsQuiet rounds → Server A → Server A
  served [] q s = s
  served (r ∷ rounds) q s = served rounds q.1 (serve_ready q.0.ready r.accepted s).1

  accept_returns :
      (got : Outcome Arrival) (s : Server A)
      → IsAccept got
      → (handle_request_noblock got s).0 ≡ returned tt
  unfolding handle_request_noblock
  accept_returns (returned a) s h = handle_request_noblock-returns a s
  accept_returns (raised e) s h = rw h.1 refl

  serve_ready-returns :
      (ready : Bool) (got : Outcome Arrival) (s : Server A)
      → IsAccept got
      → (serve_ready ready got s).0 ≡ returned tt
  unfolding serve_ready
  serve_ready-returns true got s h = accept_returns got s h
  serve_ready-returns false got s h = refl

  serve_ready_flag :
      (ready : Bool) (got : Outcome Arrival) (s : Server A)
      → (serve_ready ready got s).1.shutdown_request ≡ s.shutdown_request
  unfolding serve_ready
  serve_ready_flag true got s = handle_request_noblock_flag got s
  serve_ready_flag false got s = refl

  continued_lem : (p : Outcome (Unit {0}) × Server A) → p.0 ≡ returned tt → continued p ≡ going p.1
  continued_lem (returned u, s) h = refl
  continued_lem (raised e, s) h = cc

  before_test_quiet : (stops : Bool) (s : Server A) → stops ≡ false → before_test stops s ≡ s
  before_test_quiet stops s h = rw h refl

  tested_quiet :
      (flag ready : Bool) (selected : Option (Outcome Bool)) (got : Outcome Arrival) (s : Server A)
      → flag ≡ false
      → selected ≡ some (returned ready)
      → (serve_ready ready got s).0 ≡ returned tt
      → tested flag selected got s ≡ going (serve_ready ready got s).1
  tested_quiet flag ready selected got s f e k =
      rw (f, e) (continued_lem (serve_ready ready got s) k)

  serve_round_quiet :
      (r : Round) (s : Server A) (q : IsQuiet r)
      → s.shutdown_request ≡ false
      → serve_round r s ≡ going (serve_ready q.ready r.accepted s).1
  unfolding serve_round
  serve_round_quiet r s q h =
      ap (test_round r) (before_test_quiet r.stops s q.goes_on)
      ∙ tested_quiet s.shutdown_request q.ready (eintr_retry r.selects) r.accepted s h
          (eintr_retry-Interrupted q.selected) (serve_ready-returns q.ready r.accepted s q.accept)

  serve_loop_step :
      (r : Round) (rounds : List Round) (s : Server A) (q : IsQuiet r)
      → s.shutdown_request ≡ false
      → serve_loop (r ∷ rounds) s ≡ serve_loop rounds (serve_ready q.ready r.accepted s).1
  unfolding serve_loop
  serve_loop_step r rounds s q h = rw (serve_round_quiet r s q h, serve_loop) refl

  serve_loop-append :
      (rounds later : List Round) (q : All IsQuiet rounds) (s : Server A)
      → s.shutdown_request ≡ false
      → (serve_loop (rounds ++ later) s ≡ serve_loop later (served rounds q s))
        × ((served rounds q s).shutdown_request ≡ false)
  unfolding served
  serve_loop-append [] later q s h = (refl, h)
  serve_loop-append (r ∷ rounds) later q s h =
      let t = (serve_ready q.0.ready r.accepted s).1 in
      let rest =
        serve_loop-append rounds later q.1 t (serve_ready_flag q.0.ready r.accepted s ∙ h) in
      (serve_loop_step r (rounds ++ later) s q.0 h ∙ rest.0, rest.1)

  loop_stops :
      (r : Round) (later : List Round) (s : Server A)
      → r.stops ≡ true
      → serve_loop (r ∷ later) s ≡ (some (returned tt), shutdown s)
  unfolding serve_loop serve_round
  loop_stops r later s h = rw (h, serve_loop) refl

  -- With nobody calling `shutdown` the server runs on: no interrupted `select`, no failing `accept`,
  -- no thread that does not start and no connection that does not shut down ends the loop.
  pub serve_forever_runs :
      (rounds : List Round) (q : All IsQuiet rounds) (s : Server A)
      → s.shutdown_request ≡ false
      → serve_forever rounds s ≡ (none, served rounds q (record s { is_shut_down = false }))
  unfolding serve_forever serve_loop
  serve_forever_runs rounds q s h =
      let t = record s { is_shut_down = false } in
      ap finally_reset
        (ap (λ l. serve_loop l t) (sym (append-nil rounds)) ∙ (serve_loop-append rounds [] q t h).0)

  -- A call of `shutdown` ends it at the next round, with the requests of the rounds before served,
  -- in order, and the flags set for whoever waits.
  pub serve_forever-shutdown :
      (rounds : List Round) (q : All IsQuiet rounds) (r : Round) (later : List Round) (s : Server A)
      → s.shutdown_request ≡ false
      → r.stops ≡ true
      → serve_forever (rounds ++ r ∷ later) s
        ≡ (some (returned tt), reset (served rounds q (record s { is_shut_down = false })))
  unfolding serve_forever serve_loop
  serve_forever-shutdown rounds q r later s h stops =
      let t = record s { is_shut_down = false } in
      ap finally_reset (
        (serve_loop-append rounds (r ∷ later) q t h).0
        ∙ loop_stops r later (served rounds q t) stops)
