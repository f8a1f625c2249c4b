-- ===== src/SocketServer/Requests.antt =====
-- One request: from `accept` to the thread that runs its handler and closes the connection
-- (wetland/services/SocketServer.py).
use wetland.Prelude.{ℕ, Bytes, Bool, true, ◌∷◌, Option, none, some, if◌then◌else◌}
use wetland.Prelude.Py.{Outcome, returned, raised, Py, pure, raise, ◌>>◌, try_except_else, io_error}
use wetland.SocketServer.{Server, accepts, starts, shuts, closes, reports, call}

-- An accepted connection: its descriptor, the address, whether its thread starts, and the errno
-- that `shutdown` raises, if it does.
pub record Arrival : Type 0 where
  pub request : ℕ
  pub client_address : Bytes
  pub started : Outcome (Unit {0})
  pub shut : Option ℕ

-- BaseServer.verify_request
unfoldable pub verify_request : Arrival → Bool
verify_request a = true

abbrev errors : Option ℕ → Outcome (Unit {0})
errors none = returned tt
errors (some errno) = raised (io_error errno)

module _ {A : Type 0} where
  -- TCPServer.get_request
  unfoldable pub get_request : Outcome Arrival → Py (Server A) Arrival
  get_request (raised e) = raise e
  get_request (returned a) = call (accepts a.request) (returned tt) >> pure a

  -- BaseServer.handle_error
  unfoldable pub handle_error : ℕ → Py (Server A) (Unit {0})
  handle_error request = call (reports request) (returned tt)

  -- TCPServer.close_request
  unfoldable pub close_request : ℕ → Py (Server A) (Unit {0})
  close_request request = call (closes request) (returned tt)

  -- except socket.error: pass
  abbrev pass_socket_error : Outcome (Unit {0}) → Py (Server A) (Unit {0})
  pass_socket_error (returned u) = pure tt
  pass_socket_error (raised (io_error errno)) = pure tt
  pass_socket_error (raised e) = raise e

  -- TCPServer.shutdown_request
  unfoldable pub shutdown_request : ℕ → Option ℕ → Py (Server A) (Unit {0})
  unfolding close_request
  shutdown_request request shut = do
    try_except_else (call (shuts request) (errors shut)) (λ e. pass_socket_error (raised e)) pure
    close_request request

  abbrev add_thread : ℕ → Py (Server A) (Unit {0})
  add_thread request s = (returned tt, record s { running = request ∷ s.running })

  -- ThreadingMixIn.process_request: the thread runs from here on
  unfoldable pub process_request : Arrival → Py (Server A) (Unit {0})
  process_request a = do call (starts a.request) a.started; add_thread a.request

  -- except: self.handle_error(...); self.shutdown_request(...)
  unfoldable pub give_up : ℕ → Option ℕ → Py (Server A) (Unit {0})
  unfolding handle_error shutdown_request
  give_up request shut = do handle_error request; shutdown_request request shut

  abbrev serve_request : Arrival → Py (Server A) (Unit {0})
  serve_request a =
      if verify_request a
      then try_except_else (process_request a) (λ e. give_up a.request a.shut) pure
      else shutdown_request a.request a.shut

  abbrev after_accept : Outcome Arrival → Py (Server A) (Unit {0})
  after_accept (returned a) = serve_request a
  after_accept (raised (io_error errno)) = pure tt
  after_accept (raised e) = raise e

  -- BaseServer._handle_request_noblock
  unfoldable pub handle_request_noblock : Outcome Arrival → Py (Server A) (Unit {0})
  unfolding get_request process_request give_up shutdown_request verify_request
  handle_request_noblock got =
      try_except_else (get_request got) (λ e. after_accept (raised e))
        (λ a. after_accept (returned a))

  -- BaseRequestHandler.setup and finish, which tcp_handler does not override
  unfoldable pub setup : Py (Server A) (Unit {0})
  setup = pure tt

  unfoldable pub finish : Py (Server A) (Unit {0})
  finish = pure tt

  -- BaseRequestHandler.__init__, for the `handle` of the class
  unfoldable pub request_handler : Py (Server A) (Unit {0}) → Py (Server A) (Unit {0})
  unfolding setup finish
  request_handler handle = do
    setup
    try_except_else handle (λ e. finish >> raise e) (λ done. finish)

  -- BaseServer.finish_request
  unfoldable pub finish_request : Py (Server A) (Unit {0}) → Py (Server A) (Unit {0})
  unfolding request_handler
  finish_request handle = request_handler handle

  -- ThreadingMixIn.process_request_thread
  unfoldable pub process_request_thread :
      Py (Server A) (Unit {0}) → ℕ → Option ℕ → Py (Server A) (Unit {0})
  unfolding finish_request shutdown_request give_up
  process_request_thread handle request shut =
      try_except_else (do finish_request handle; shutdown_request request shut)
        (λ e. give_up request shut) pure
