-- ===== src/Channels.antt =====
-- The requests on channels: the other methods of `ssh_server` (wetland/server/sshServer.py).
pub mod Requests
pub mod Sessions
mod Tests
use wetland.Prelude.{
  ℕ, Bytes, codes, join, str, Bool, true, false, not, List, [], ◌∷◌, ◌++◌, Option, none, some, ◌==◌,
  if◌then◌else◌,
}
use wetland.Prelude.Py.{
  Py, Outcome, PyError, returned, raised, pure, raise, attribute_error, key_error,
  channel_exception, settle, try_except_else, ◌>>=◌, ◌>>◌,
}
use wetland.Event.{Event, wetland_subject}
use wetland.Docker.{Docker}

-- The threads that a request starts, with the ids of the two channels.
pub data Service : Type 0 where
  shell direct : ℕ → ℕ → Service
  exec : ℕ → ℕ → Bytes → Service
  -- a channel that the container opened, with the two addresses
  reverse : ℕ → Bytes × ℕ → Bytes × ℕ → Service

-- `chain` maps a channel of the hacker to one of the container.
pub record Connection (World : Type 0) : Type 0 where
  pub chain : ℕ → Option ℕ
  pub services : List Service
  pub events : List Event
  pub docker : World

pub data OpenResult : Type 0 where
  open_succeeded open_failed_connect_failed : OpenResult

module _ {World : Type 0} where
  -- self.opt.o('wetland', action, content)
  unfoldable pub tell : Bytes → Bytes → Py (Connection World) (Unit {0})
  tell action content s = (
    returned tt,
    record s {
      events =
          s.events ++ record { subject = wetland_subject; action = action; content = content } ∷ [];
    },
  )

  -- A call of `docker_trans` or of one of its channels.
  unfoldable pub ask : {A : Type 0} → Py World A → Py (Connection World) A
  ask m s = let r = m s.docker in (r.0, record s { docker = r.1 })

  -- self.chain[k] = d
  unfoldable pub link : ℕ → ℕ → Py (Connection World) (Unit {0})
  link k d s = (returned tt, record s { chain = λ j. if k == j then some d else s.chain j })

  -- threading.Thread(target=…).start()
  unfoldable pub start : Service → Py (Connection World) (Unit {0})
  start service s = (returned tt, record s { services = s.services ++ service ∷ [] })

  -- The two ends of a request: report it and answer.
  unfoldable pub answer : Bytes → Bool → Py (Connection World) Bool
  unfolding tell
  answer action b = do tell action (if b then codes "success" else codes "failed"); pure b

  -- `handler` of check_port_forward_request, which the container's transport calls for each channel
  -- that it opens: reverse_handler starts the thread.
  unfoldable pub forwarded : ℕ → Bytes × ℕ → Bytes × ℕ → Py (Connection World) (Unit {0})
  unfolding start
  forwarded chann ori dest = start (reverse chann ori dest)

module _ (D : Docker) where
  open D use {World}

  -- check_channel_request
  unfoldable pub channel_request : Bytes → Py (Connection World) OpenResult
  unfolding tell
  channel_request kind = do tell (codes "channel_request") kind; pure open_succeeded

  -- check_global_request, with str(msg)
  unfoldable pub global_request : Bytes → Py (Connection World) Bool
  unfolding tell
  global_request msg = do tell (codes "global_request") msg; pure true

  -- A session of the container for the channel.
  unfoldable pub open_linked : ℕ → Bool → Py (Connection World) ℕ
  unfolding ask link
  open_linked channel pty = do
    d ← ask D.open_session
    (if pty then ask (D.get_pty d) else pure tt)
    link channel d
    pure d

  -- check_channel_pty_request
  unfoldable pub pty_request : ℕ → Py (Connection World) Bool
  unfolding open_linked answer
  pty_request channel =
      try_except_else (open_linked channel true) (λ _. answer (codes "pty_request") false)
        (λ _. answer (codes "pty_request") true)

  -- Lines 130 to 132: a linked channel may be closed by now, and then there is no session.
  unfoldable pub linked_session : ℕ → Py (Connection World) (Option ℕ)
  linked_session channel s = elim (s.chain channel) [
    | none ↦ (raised key_error, s)
    | some d ↦ (returned (if D.has_channel d s.docker then some d else none), s)
  ]

  -- docker_session.invoke_shell() and the thread, where `None` has no such method
  unfoldable pub invoke : ℕ → Option ℕ → Py (Connection World) (Unit {0})
  unfolding ask start
  invoke channel none = raise attribute_error
  invoke channel (some d) = do ask (D.invoke_shell d); start (shell channel d)

  -- check_channel_shell_request: an exception in the first handler is not caught.
  unfoldable pub shell_request : ℕ → Py (Connection World) Bool
  unfolding answer
  shell_request channel = do
    session ←
        try_except_else (linked_session channel)
          (λ _. do d ← open_linked channel true; pure (some d)) pure
    try_except_else (invoke channel session) (λ _. answer (codes "shell_request") false)
        (λ _. answer (codes "shell_request") true)

  -- check_channel_exec_request
  unfoldable pub exec_request : ℕ → Bytes → Py (Connection World) Bool
  unfolding open_linked start answer
  exec_request channel command =
      try_except_else (do d ← open_linked channel false; start (exec channel d command))
        (λ _. answer (codes "exec_request") false) (λ _. answer (codes "exec_request") true)

  -- check_port_forward_request: the bound port, 0 for a refusal
  unfoldable pub port_forward_request : Bytes → ℕ → Py (Connection World) ℕ
  unfolding ask tell
  port_forward_request address port = do
    flag ← ask (D.request_port_forward address port)
    tell (codes "reverse_request") (
        join (codes ", ")
          ((if flag == 0 then codes "failed" else codes "success") ∷ address ∷ str port ∷ []))
    pure flag

  -- check_channel_forward_agent_request
  unfoldable pub agent_request : Py (Connection World) Bool
  unfolding answer
  agent_request = answer (codes "agent_request") false

  -- docker_session.set_environment_variable(name, value)
  unfoldable pub set_variable : Bytes → Bytes → Option ℕ → Py (Connection World) (Unit {0})
  unfolding ask
  set_variable name value none = raise attribute_error
  set_variable name value (some d) = ask (D.set_environment_variable d name value)

  -- check_channel_env_request
  unfoldable pub env_request : ℕ → Bytes → Bytes → Py (Connection World) Bool
  unfolding answer
  env_request channel name value =
      try_except_else (do session ← linked_session channel; set_variable name value session)
        (λ _. answer (codes "env_request") false) (λ _. answer (codes "env_request") true)

  -- Line 210 catches nothing but `ChannelException`.
  unfoldable pub direct_failed : PyError → Py (Connection World) OpenResult
  unfolding tell
  direct_failed channel_exception = do
    tell (codes "direct_request") (codes "failed")
    pure open_failed_connect_failed
  direct_failed e = raise e

  -- check_channel_direct_tcpip_request, with Python's text of an address
  unfoldable pub direct_request :
      (Bytes × ℕ → Bytes) → ℕ → Bytes × ℕ → Bytes × ℕ → Py (Connection World) OpenResult
  unfolding ask link tell start direct_failed
  direct_request show chanid origin destination =
      try_except_else (do d ← ask (D.open_direct destination origin); link chanid d; pure d)
        direct_failed
        (λ d. do
          tell (codes "direct_request")
              (codes "ori:" ++ show origin ++ codes ", dest:" ++ show destination)
          start (direct chanid d)
          pure open_succeeded)
