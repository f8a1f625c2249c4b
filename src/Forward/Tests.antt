-- ===== src/Forward/Tests.antt =====
-- A direct connection whose channel appears at the second look, and a reverse one.
use wetland.Prelude.{
  ℕ, Bytes, bytes_eq, codes, All, List, [], ◌∷◌, ◌++◌, Bool, true, false, none, some, ltb, ◌≡◌,
  refl, arith,
}
use wetland.Prelude.Py.{Outcome, returned}
use wetland.Relay.{Trace, hacker, docker}
use wetland.Log.{send_all}
use wetland.Playlog.{Entry}
use wetland.Playlog.Lines.{IsStamp}
use wetland.Playlog.Players.{print, detected}
use wetland.Playlog.Program.{playlog}
use wetland.Playlog.Replayed.{shown_acts, shown_entries, last_time, forward_log, log_name}
use wetland.Relay.Recorded.{emitted, crossed}
use wetland.Forward.Crossed.{IsTurn}
use wetland.Playlog.Items.{stamped}
use wetland.Forward.Replayed.{
  entries, direct_service_replayed, reverse_handler2_replayed, forward_replay, shows_one,
}
use wetland.Forward.{Turn, appears, direct, reverse, direct_service, reverse_handler2}
use wetland.Forward.Logged.{IsCopied, reverse_handler2-IsCopied}

abbrev all_return : Trace → Outcome (Unit {0})
all_return t = returned tt

abbrev second_look : ℕ → Bool
second_look i = ltb 0 i

abbrev request : List Turn
request =
    record {
      from_hacker = some (codes "GET /");
      from_docker = none;
      hacker_eof = false;
      docker_eof = false;
    }
    ∷ record {
      from_hacker = none;
      from_docker = some (codes "OK");
      hacker_eof = true;
      docker_eof = true;
    }
    ∷ []

reverse_handler2-IsCopied_example :
    IsCopied reverse (reverse_handler2 all_return true (codes "ori") request [])
reverse_handler2-IsCopied_example = reverse_handler2-IsCopied all_return true (codes "ori") request

abbrev at_noon : Bytes
at_noon = codes "180101-12:00:00"

at_noon-IsStamp : IsStamp at_noon
at_noon-IsStamp = record { solid = ground arith; some_text = λ e. cc }

request-IsTurn : All IsTurn request
request-IsTurn = (
  record { hacker_bytes = ground arith; docker_bytes = tt },
  (record { hacker_bytes = tt; docker_bytes = ground arith }, tt),
)

abbrev question : Entry
question = record { time = at_noon; direction = codes "[H]"; text = codes "GET /" }

abbrev reply : Entry
reply = record { time = at_noon; direction = codes "[V]"; text = codes "OK" }

in_time : appears second_look 0 10 ≡ true
unfolding appears
in_time = refl

request_crossed :
    crossed (direct_service all_return second_look request [])
    ≡ (hacker, codes "GET /") ∷ (docker, codes "OK") ∷ []
unfolding direct_service crossed
request_crossed = refl

direct_service_replayed_example :
    playlog
      (record { t = none; p = codes "log/10.0.0.1" ++ log_name direct; s = none })
      (send_all
        (codes "log/10.0.0.1")
        (stamped (λ n. at_noon) 0 (emitted (direct_service all_return second_look request [])))
        (λ p. [])
        (forward_log direct (codes "log/10.0.0.1")))
      []
      (record { acts = []; writes = [] })
    ≡ (
      returned tt,
      record {
        acts =
            print (detected ((question ∷ reply ∷ []) ∷ []))
            ∷ print (at_noon ++ (codes " -------> " ++ at_noon))
            ∷ print (codes "Hacker send")
            ∷ print (codes "GET /")
            ∷ print (codes "Docker send")
            ∷ print (codes "OK")
            ∷ [];
        writes = [];
      },
    )
unfolding direct_service crossed entries shown_acts shown_entries last_time bytes_eq
direct_service_replayed_example =
    direct_service_replayed all_return second_look request (λ n. at_noon) (codes "log/10.0.0.1")
      (codes "log/10.0.0.1") [] none (λ p. []) in_time request-IsTurn (λ k. at_noon-IsStamp)
      (λ e. cc) refl

ends_crossed :
    crossed (reverse_handler2 all_return true (codes "ori") request [])
    ≡ (hacker, codes "GET /") ∷ (docker, codes "OK") ∷ []
unfolding reverse_handler2 crossed
ends_crossed = refl

reverse_handler2_replayed_example :
    forward_replay reverse (codes "log/10.0.0.1") none [] (
      send_all
        (codes "log/10.0.0.1")
        (stamped
          (λ n. at_noon)
          0
          (emitted (reverse_handler2 all_return true (codes "ori") request [])))
        (λ p. [])
        (forward_log reverse (codes "log/10.0.0.1")))
    ≡ shows_one (question ∷ reply ∷ [])
unfolding entries reverse_handler2 crossed
reverse_handler2_replayed_example =
    reverse_handler2_replayed all_return (codes "ori") request (λ n. at_noon) (codes "log/10.0.0.1")
      (codes "log/10.0.0.1") [] none (λ p. []) request-IsTurn (λ k. at_noon-IsStamp)
      (rw ends_crossed (λ e. cc)) refl
