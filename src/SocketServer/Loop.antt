-- ===== src/SocketServer/Loop.antt =====
-- `serve_forever` and `shutdown` (wetland/services/SocketServer.py).
use wetland.Prelude.{
  ℕ, ltb, ◌≡◌, refl, ap, ◌∙◌, Bool, true, false, List, [], ◌∷◌, Option, none, some, if◌then◌else◌,
}
use wetland.Prelude.Py.{Outcome, returned, raised}
use wetland.SocketServer.{Server, eintr_retry}
use wetland.SocketServer.Requests.{Arrival, handle_request_noblock}

-- One round of the loop: whether another thread called `shutdown` before the test, what each call
-- of `select` did (`true`: the socket is ready), and what `accept` then did.
pub record Round : Type 0 where
  pub stops : Bool
  pub selects : List (Outcome Bool)
  pub accepted : Outcome Arrival

-- After a round: the loop goes on, or it waits in `select` (`none`), or it ended.
pub data Next (A : Type 0) : Type 0 where
  going : Server A → Next A
  ended : Option (Outcome (Unit {0})) → Server A → Next A

module _ {A : Type 0} where
  -- BaseServer.shutdown, up to the wait
  unfoldable pub shutdown : Server A → Server A
  shutdown s = record s { shutdown_request = true }

  -- The `finally` of serve_forever.
  abbrev pub reset : Server A → Server A
  reset s = record s { shutdown_request = false; is_shut_down = true }

  abbrev pub before_test : Bool → Server A → Server A
  before_test stops s = if stops then shutdown s else s

  -- Line 229 and 230.
  unfoldable pub serve_ready : Bool → Outcome Arrival → Server A → Outcome (Unit {0}) × Server A
  unfolding handle_request_noblock
  serve_ready ready got s = if ready then handle_request_noblock got s else (returned tt, s)

  abbrev pub continued : Outcome (Unit {0}) × Server A → Next A
  continued (returned u, s) = going s
  continued (raised e, s) = ended (some (raised e)) s

  -- The test of the flag, with the outcome of the polling and of `accept`.
  abbrev pub tested : Bool → Option (Outcome Bool) → Outcome Arrival → Server A → Next A
  tested true selected got s = ended (some (returned tt)) s
  tested false none got s = ended none s
  tested false (some (raised e)) got s = ended (some (raised e)) s
  tested false (some (returned ready)) got s = continued (serve_ready ready got s)

  abbrev pub test_round : Round → Server A → Next A
  test_round r t = tested t.shutdown_request (eintr_retry r.selects) r.accepted t

  unfoldable pub serve_round : Round → Server A → Next A
  unfolding eintr_retry shutdown serve_ready
  serve_round r s = test_round r (before_test r.stops s)

  -- The loop; `none` while it runs.
  unfoldable pub serve_loop : List Round → Server A → Option (Outcome (Unit {0})) × Server A
  unfolding serve_round
  serve_loop [] s = (none, s)
  serve_loop (r ∷ rounds) s = elim (serve_round r s) [
    | going t ↦ serve_loop rounds t
    | ended result t ↦ (result, t)
  ]

  abbrev pub finally_reset :
      Option (Outcome (Unit {0})) × Server A → Option (Outcome (Unit {0})) × Server A
  finally_reset (none, s) = (none, s)
  finally_reset (some r, s) = (some r, reset s)

  -- BaseServer.serve_forever
  unfoldable pub serve_forever : List Round → Server A → Option (Outcome (Unit {0})) × Server A
  unfolding serve_loop
  serve_forever rounds s = finally_reset (serve_loop rounds (record s { is_shut_down = false }))

-- The timeout for `select`, of that of the socket and that of the class; `none` waits for ever.
unfoldable pub wait_time : Option ℕ → Option ℕ → Option ℕ
wait_time none timeout = timeout
wait_time (some n) none = some n
wait_time (some n) (some m) = some (if ltb m n then m else n)

module _ {A : Type 0} where
  -- BaseServer.handle_timeout
  unfoldable pub handle_timeout : Server A → Outcome (Unit {0}) × Server A
  handle_timeout s = (returned tt, s)

  -- After `select`: whether the socket is ready, and what `accept` then did.
  abbrev selected :
      Option (Outcome Bool) → Outcome Arrival → Server A → Option (Outcome (Unit {0})) × Server A
  selected none got s = (none, s)
  selected (some (raised e)) got s = (some (raised e), s)
  selected (some (returned true)) got s = let r = handle_request_noblock got s in (some r.0, r.1)
  selected (some (returned false)) got s = let r = handle_timeout s in (some r.0, r.1)

  -- BaseServer.handle_request, with the timeouts of the socket and of the class, and what the calls
  -- of `select` do with a timeout.
  unfoldable pub handle_request :
      Option ℕ
      → Option ℕ
      → (Option ℕ → List (Outcome Bool))
      → Outcome Arrival
      → Server A
      → Option (Outcome (Unit {0})) × Server A
  unfolding wait_time handle_timeout eintr_retry handle_request_noblock
  handle_request socket_timeout timeout selects got s =
      selected (eintr_retry (selects (wait_time socket_timeout timeout))) got s

  -- What a round of the loop leaves.
  abbrev left : Next A → Server A
  left (going s) = s
  left (ended result s) = s

  -- If nobody asks for a shutdown, a round of `serve_forever` leaves the server as one call of
  -- `handle_request` does.
  serve_round-handle_request :
      (socket_timeout timeout : Option ℕ) (selects : Option ℕ → List (Outcome Bool))
      (got : Outcome Arrival) (s : Server A)
      → s.shutdown_request ≡ false
      → left (
          serve_round
            (record {
              stops = false;
              selects = selects (wait_time socket_timeout timeout);
              accepted = got;
            })
            s)
        ≡ (handle_request socket_timeout timeout selects got s).1
  unfolding serve_round handle_request serve_ready handle_timeout
  serve_round-handle_request socket_timeout timeout selects got s h =
      let o = eintr_retry (selects (wait_time socket_timeout timeout)) in
      ap (λ b. left (tested b o got s)) h ∙ by_selected o
    where
      by_continued : (r : Outcome (Unit {0}) × Server A) → left (continued r) ≡ r.1
      by_continued (returned u, t) = refl
      by_continued (raised e, t) = refl

      by_selected : (o : Option (Outcome Bool)) → left (tested false o got s) ≡ (selected o got s).1
      by_selected none = refl
      by_selected (some (raised e)) = refl
      by_selected (some (returned true)) = by_continued (handle_request_noblock got s)
      by_selected (some (returned false)) = refl
