-- ===== src/SocketServer/Closed.antt =====
-- Every accepted connection is closed (wetland/services/SocketServer.py): the loop that accepts
-- and the threads of the requests, in any interleaving.
use wetland.Prelude.{
  ℕ, ◌+◌, ◌==◌, Bool, true, false, List, [], ◌∷◌, ◌++◌, Option, none, some, ◌≡◌, refl, ap,
  if◌then◌else◌, arith,
}
use wetland.Prelude.Py.{Outcome, returned, raised, Py, PyError, type_error}
use wetland.SocketServer.{
  Address, Server, Call, accepts, starts, shuts, closes, reports, Answers, tcp_server_init,
}
use wetland.SocketServer.Requests.{
  Arrival, shutdown_request, handle_error, give_up, process_request, handle_request_noblock,
  process_request_thread,
}

-- How often the connection `r` was accepted, and closed.
abbrev pub accepted_call : ℕ → Call → ℕ
accepted_call r (accepts q) = if q == r then 1 else 0
accepted_call r c = 0

abbrev pub closed_call : ℕ → Call → ℕ
closed_call r (closes q) = if q == r then 1 else 0
closed_call r c = 0

pub total : (Call → ℕ) → List Call → ℕ
total f [] = 0
total f (c ∷ cs) = f c + total f cs

pub count : ℕ → List ℕ → ℕ
count r [] = 0
count r (q ∷ qs) = (if q == r then 1 else 0) + count r qs

total-append : (f : Call → ℕ) (a b : List Call) → total f (a ++ b) ≡ total f a + total f b
unfolding total
total-append f [] b = omega arith
total-append f (c ∷ a) b = omega (arith, total-append f a b)

count-append : (r : ℕ) (a b : List ℕ) → count r (a ++ b) ≡ count r a + count r b
unfolding count
count-append r [] b = omega arith
count-append r (q ∷ a) b = omega (arith, count-append r a b)

module _ {A : Type 0} where
  -- A handler reads and writes the attributes of the server's subclass only.
  abbrev pub on_attributes : Py A (Unit {0}) → Py (Server A) (Unit {0})
  on_attributes handle s = let r = handle s.attributes in (r.0, record s { attributes = r.1 })

  -- The server accepts, a handler works on the shared attributes, or it ends and its thread with it.
  pub data Step : Server A → Server A → Type 0 where
    arrives : (s : Server A) (got : Outcome Arrival) → Step s (handle_request_noblock got s).1
    works : (s : Server A) (change : A → A) → Step s (record s { attributes = change s.attributes })
    ends :
        (s : Server A) (handle : Py A (Unit {0})) (r : ℕ) (shut : Option ℕ) (before after : List ℕ)
        → s.running ≡ before ++ r ∷ after
        → Step s
            (process_request_thread
              (on_attributes handle)
              r
              shut
              (record s { running = before ++ after })).1

  pub data Reach (s : Server A) : Server A → Type 0 where
    here : Reach s s
    next : {t u : Server A} → Reach s t → Step t u → Reach s u

  -- Each connection was accepted as often as it was closed, or has a thread that runs.
  abbrev pub IsAccounted : Server A → Type 0
  IsAccounted s =
      (r : ℕ) → total (accepted_call r) s.calls ≡ total (closed_call r) s.calls + count r s.running

  shutdown_request_lem :
      (r : ℕ) (shut : Option ℕ) (s : Server A)
      → shutdown_request r shut s
        ≡ (returned tt, record s { calls = (s.calls ++ shuts r ∷ []) ++ closes r ∷ [] })
  unfolding shutdown_request
  shutdown_request_lem r none s = refl
  shutdown_request_lem r (some errno) s = refl

  -- The server after an accepted connection, by what starting its thread did.
  abbrev after_arrival : Outcome (Unit {0}) → ℕ → Server A → Server A
  after_arrival (returned u) r s = record s {
    calls = (s.calls ++ accepts r ∷ []) ++ starts r ∷ [];
    running = r ∷ s.running;
  }
  after_arrival (raised e) r s = record s {
    calls =
        ((((s.calls ++ accepts r ∷ []) ++ starts r ∷ []) ++ reports r ∷ []) ++ shuts r ∷ [])
        ++ closes r ∷ [];
  }

  arrival_lem :
      (a : Arrival) (s : Server A) (o : Outcome (Unit {0}))
      → a.started ≡ o
      → (handle_request_noblock (returned a) s).1 ≡ after_arrival o a.request s
  unfolding handle_request_noblock process_request give_up handle_error
  arrival_lem a s (returned u) h = rw h refl
  arrival_lem a s (raised e) h = rw (h, shutdown_request_lem) refl

  arrival_returns :
      (a : Arrival) (s : Server A) (o : Outcome (Unit {0}))
      → a.started ≡ o
      → (handle_request_noblock (returned a) s).0 ≡ returned tt
  unfolding handle_request_noblock process_request give_up handle_error
  arrival_returns a s (returned u) h = rw h refl
  arrival_returns a s (raised e) h = rw (h, shutdown_request_lem) refl

  -- Nothing that happens behind `accept` leaves the method.
  pub handle_request_noblock-returns :
      (a : Arrival) (s : Server A) → (handle_request_noblock (returned a) s).0 ≡ returned tt
  handle_request_noblock-returns a s = arrival_returns a s a.started refl

  accept_error_lem : (e : PyError) (s : Server A) → (handle_request_noblock (raised e) s).1 ≡ s
  unfolding handle_request_noblock
  accept_error_lem type_error s = refl
  accept_error_lem e s = refl

  after_arrival_flag :
      (o : Outcome (Unit {0})) (q : ℕ) (s : Server A)
      → (after_arrival o q s).shutdown_request ≡ s.shutdown_request
  after_arrival_flag (returned u) q s = refl
  after_arrival_flag (raised e) q s = refl

  -- Accepting does not touch the flag by which the loop ends.
  pub handle_request_noblock_flag :
      (got : Outcome Arrival) (s : Server A)
      → (handle_request_noblock got s).1.shutdown_request ≡ s.shutdown_request
  handle_request_noblock_flag (raised e) s = rw (accept_error_lem e s) refl
  handle_request_noblock_flag (returned a) s =
      rw (arrival_lem a s a.started refl) (after_arrival_flag a.started a.request s)

  after_arrival-IsAccounted :
      (o : Outcome (Unit {0})) (q : ℕ) (s : Server A)
      → IsAccounted s
      → IsAccounted (after_arrival o q s)
  unfolding total count
  after_arrival-IsAccounted (returned u) q s h r = omega (arith, h r, total-append)
  after_arrival-IsAccounted (raised e) q s h r = omega (arith, h r, total-append)

  -- The calls of a thread, by how its handler ended.
  abbrev pub after_thread : Outcome (Unit {0}) → ℕ → Server A → Server A
  after_thread (returned u) r s = record s { calls = (s.calls ++ shuts r ∷ []) ++ closes r ∷ [] }
  after_thread (raised e) r s = record s {
    calls = ((s.calls ++ reports r ∷ []) ++ shuts r ∷ []) ++ closes r ∷ [];
  }

  pub thread_lem :
      (handle : Py A (Unit {0})) (r : ℕ) (shut : Option ℕ) (s : Server A) (o : Outcome (Unit {0}))
      → (handle s.attributes).0 ≡ o
      → (process_request_thread (on_attributes handle) r shut s).1
        ≡ after_thread o r (record s { attributes = (handle s.attributes).1 })
  unfolding process_request_thread give_up handle_error
  thread_lem handle r shut s (returned u) h = rw (h, shutdown_request_lem) refl
  thread_lem handle r shut s (raised e) h = rw (h, shutdown_request_lem) refl

  -- A thread that ends closes the connection that it held.
  after_thread-IsAccounted :
      (o : Outcome (Unit {0})) (q : ℕ) (before after : List ℕ) (b : A) (s : Server A)
      → IsAccounted s
      → s.running ≡ before ++ q ∷ after
      → IsAccounted (after_thread o q (record s { running = before ++ after; attributes = b }))
  unfolding total count
  after_thread-IsAccounted (returned u) q before after b s h e r =
      omega (arith, h r, total-append, count-append, ap (count r) e)
  after_thread-IsAccounted (raised x) q before after b s h e r =
      omega (arith, h r, total-append, count-append, ap (count r) e)

  Step-IsAccounted : {s t : Server A} → Step s t → IsAccounted s → IsAccounted t
  Step-IsAccounted (arrives s (raised e)) h = rw (accept_error_lem e s) h
  Step-IsAccounted (arrives s (returned a)) h =
      rw (arrival_lem a s a.started refl) (after_arrival-IsAccounted a.started a.request s h)
  Step-IsAccounted (works s change) h = h
  Step-IsAccounted (ends s handle q shut before after e) h =
      rw (thread_lem handle q shut _ _ refl) (after_thread-IsAccounted _ q before after _ s h e)

  init-IsAccounted :
      (reuse : Bool) (address : Address) (a : A) (os : Answers)
      → IsAccounted (tcp_server_init reuse address a os).1
  unfolding tcp_server_init total count
  init-IsAccounted true address a os r = ground arith
  init-IsAccounted false address a os r = ground arith

  -- From the constructor on, in any interleaving of the loop that accepts with handlers that work
  -- on the shared attributes and with threads that end, also by an exception: each connection was
  -- accepted as often as it was closed, and once more for each thread that still holds it.
  pub Reach-IsAccounted :
      (reuse : Bool) (address : Address) (a : A) (os : Answers) {t : Server A}
      → Reach (tcp_server_init reuse address a os).1 t
      → IsAccounted t
  Reach-IsAccounted reuse address a os here = init-IsAccounted reuse address a os
  Reach-IsAccounted reuse address a os (next reach step) =
      Step-IsAccounted step (Reach-IsAccounted reuse address a os reach)
