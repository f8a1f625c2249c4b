-- ===== src/Channels/Tests.antt =====
-- Requests to the container for tests.
use wetland.Prelude.{ℕ, codes, [], ◌∷◌, true, false, none, some, ◌≡◌, ◌⊎◌, ◌==◌, if◌then◌else◌}
use wetland.Prelude.Py.{returned}
use wetland.Docker.Sample.{sample}
use wetland.Channels.{Connection, exec, exec_request}
use wetland.Channels.Requests.{IsGranted, IsRefused, exec_request_cases}

abbrev fresh : Connection ℕ
fresh = record { chain = λ k. none; services = []; events = []; docker = 7 }

-- Channel 3 is linked to the session 7.
abbrev linked : Connection ℕ
linked = record fresh { chain = λ k. if k == 3 then some 7 else none }

exec_request_cases_example :
    ((d : ℕ) × ((exec_request sample 3 (codes "ls") fresh).0 ≡ returned true)
      × IsGranted sample 3
          (codes "exec_request")
          (exec 3 d (codes "ls") ∷ [])
          fresh
          (exec_request sample 3 (codes "ls") fresh).1
          d)
    ⊎ (((exec_request sample 3 (codes "ls") fresh).0 ≡ returned false)
        × IsRefused sample 3
            (codes "exec_request")
            fresh
            (exec_request sample 3 (codes "ls") fresh).1)
exec_request_cases_example = exec_request_cases sample 3 (codes "ls") fresh
