-- ===== src/Channels/Sessions.antt =====
-- Requests on a channel that is linked to a session of the container
-- (wetland/server/sshServer.py).
use wetland.Prelude.{
  ℕ, Bytes, codes, Bool, true, false, List, [], ◌∷◌, ◌++◌, some, ◌≡◌, arith, append-nil,
}
use wetland.Prelude.Py.{Outcome, returned, raised}
use wetland.Docker.{Docker}
use wetland.Channels.{
  Connection, Service, shell, shell_request, env_request, linked_session, invoke, set_variable,
}
use wetland.Channels.Requests.{outcome}

-- Whether a call returned.
abbrev pub returns : Outcome (Unit {0}) → Bool
returns (returned x) = true
returns (raised e) = false

abbrev pub started : Bool → Service → List Service
started true service = service ∷ []
started false service = []

module _ (D : Docker) (channel d : ℕ) where
  open D use {World}

  -- After a pty request the shell runs in the session of the pty: no other is opened, and the
  -- container's answer to `invoke_shell` decides, is reported, and starts the service.
  shell_request_linked :
      (s : Connection World)
      → s.chain channel ≡ some d
      → D.has_channel d s.docker ≡ true
      → shell_request D channel s ≡ (
          let r = D.invoke_shell d s.docker in
          (
            returned (returns r.0),
            record s {
              services = s.services ++ started (returns r.0) (shell channel d);
              events = s.events ++ outcome (codes "shell_request") (returns r.0) ∷ [];
              docker = r.1;
            },
          ))
  unfolding shell_request linked_session invoke
  shell_request_linked s h k = ground (arith, append-nil s.services)

  -- A variable is set in the session of the channel; the container's answer decides.
  env_request_linked :
      (name value : Bytes) (s : Connection World)
      → s.chain channel ≡ some d
      → D.has_channel d s.docker ≡ true
      → env_request D channel name value s ≡ (
          let r = D.set_environment_variable d name value s.docker in
          (
            returned (returns r.0),
            record s {
              events = s.events ++ outcome (codes "env_request") (returns r.0) ∷ [];
              docker = r.1;
            },
          ))
  unfolding env_request linked_session set_variable
  env_request_linked name value s h k = ground arith
