-- ===== src/Channels/Requests.antt =====
-- How the requests of wetland/server/sshServer.py answer, and what they report.
use wetland.Prelude.{
  ℕ, Bytes, codes, Bool, true, false, List, [], ◌∷◌, ◌++◌, some, ◌≡◌, arith, if◌then◌else◌,
}
use wetland.Prelude.{◌⊎◌, append-nil}
use wetland.Prelude.Py.{returned}
use wetland.Event.{Event, wetland_subject}
use wetland.Docker.{Docker}
use wetland.Channels.{Connection, Service, exec, pty_request, exec_request}

-- The report of a request that was granted or refused.
abbrev pub outcome : Bytes → Bool → Event
outcome action granted = record {
  subject = wetland_subject;
  action = action;
  content = if granted then codes "success" else codes "failed";
}

module _ (D : Docker) (channel : ℕ) where
  open D use {World}

  -- What a request did that was granted: it opened the session `d` and linked the channel to it.
  pub record IsGranted (action : Bytes) (services : List Service) (before after : Connection World)
      (d : ℕ) : Type 0 where
    pub opened : (D.open_session before.docker).0 ≡ returned d
    pub linked : after.chain channel ≡ some d
    pub reported : after.events ≡ before.events ++ outcome action true ∷ []
    pub started : after.services ≡ before.services ++ services

  pub record IsRefused (action : Bytes) (before after : Connection World) : Type 0 where
    pub unlinked : after.services ≡ before.services
    pub reported : after.events ≡ before.events ++ outcome action false ∷ []

  -- A pty request always answers. Granted, it linked the channel to the session that the container
  -- opened; refused, it started nothing; both are reported, and no service starts.
  pty_request_cases :
      (s : Connection World)
      → ((d : ℕ) × ((pty_request D channel s).0 ≡ returned true)
          × IsGranted (codes "pty_request") [] s (pty_request D channel s).1 d)
        ⊎ (((pty_request D channel s).0 ≡ returned false)
            × IsRefused (codes "pty_request") s (pty_request D channel s).1)
  unfolding pty_request
  pty_request_cases s = ground (arith, append-nil s.services)

  -- An exec request always answers: granted, it linked the channel to the session that the
  -- container opened, started one exec service on the two, and reported success; refused, it
  -- started none and reported failure.
  pub exec_request_cases :
      (command : Bytes) (s : Connection World)
      → ((d : ℕ) × ((exec_request D channel command s).0 ≡ returned true)
          × IsGranted
              (codes "exec_request")
              (exec channel d command ∷ [])
              s
              (exec_request D channel command s).1
              d)
        ⊎ (((exec_request D channel command s).0 ≡ returned false)
            × IsRefused (codes "exec_request") s (exec_request D channel command s).1)
  unfolding exec_request
  exec_request_cases command s = ground arith
