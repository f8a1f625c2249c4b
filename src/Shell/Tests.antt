-- ===== src/Shell/Tests.antt =====
-- Shell sessions with given keys.
use wetland.Prelude.{
  concat, bytes_eq, codes, Bytes, All, List, [], ◌∷◌, ◌++◌, false, none, some, ◌≡◌, refl, arith,
  length, leb, if◌then◌else◌,
}
use wetland.Prelude.Py.{Outcome, returned, raised, other_error, ◌>>◌}
use wetland.Event.{wetland_subject}
use wetland.Relay.{Trace, emit, finished}
use wetland.Shell.{Shell, shell_service, type_key, visual_byte, loop}
use wetland.Relay.{Round, hacker_in, docker_in}
use wetland.Relay.{hacker}
use wetland.Relay.Recorded.{sent, emitted, IsRound}
use wetland.Log.{send_all}
use wetland.Playlog.Lines.{Recording, IsRecording, IsStamp, transcript}
use wetland.Playlog.Items.{stamped}
use wetland.Playlog.Replayed.{sessions}
use wetland.Shell.Replayed.{IsReplay, shell_replay, shell_log, shell_service_replayed}
use wetland.Shell.Exact.{IsNearlyExact}
use wetland.Shell.Logged.{shell_service-IsNearlyExact}
use wetland.Shell.Keys.{type_keys, type_line}
use wetland.Shell.HighKey.{typed, loop_high_key}

abbrev empty : Shell
empty = record { trace = []; command = [] }

-- Every call but the first three returns.
abbrev broken : Trace → Outcome (Unit {0})
broken t = if leb 4 (length t) then raised other_error else returned tt

abbrev all_return : Trace → Outcome (Unit {0})
all_return t = returned tt

abbrev keys : List Round
keys =
    record {
      events = hacker_in (some (codes "l")) false ∷ docker_in (some (codes "l")) none false ∷ [];
      hacker_eof = false;
      docker_eof = false;
    }
    ∷ record {
      events = hacker_in (some (codes "s")) false ∷ [];
      hacker_eof = false;
      docker_eof = false;
    }
    ∷ []

shell_service-IsNearlyExact_example : IsNearlyExact broken (shell_service broken keys []).trace
shell_service-IsNearlyExact_example = shell_service-IsNearlyExact broken keys

-- l, x, delete, s, return
type_line_example : (do type_keys (108 ∷ 120 ∷ 127 ∷ 115 ∷ []); type_key (codes "\r")) empty ≡ (
  returned tt,
  record {
    trace =
        emit (record {
          subject = wetland_subject;
          action = codes "shell command";
          content = concat (codes "l" ∷ codes "s" ∷ []);
        })
        ∷ [];
    command = [];
  },
)
unfolding visual_byte
type_line_example =
    type_line (108 ∷ 120 ∷ 127 ∷ 115 ∷ []) empty
      ((omega arith, refl), ((omega arith, refl), ((omega arith, refl), ((omega arith, refl), tt))))
      refl refl

loop_high_key_example :
    loop all_return
      (record {
        events = hacker_in (some (195 ∷ [])) false ∷ hacker_in (some (169 ∷ [])) false ∷ [];
        hacker_eof = false;
        docker_eof = false;
      }
        ∷ keys)
      empty
    ≡ (finished, typed all_return 195 (omega arith) empty)
loop_high_key_example =
    loop_high_key all_return 195 (omega arith) false false false
      (hacker_in (some (169 ∷ [])) false ∷ []) keys empty refl

abbrev at_noon : Bytes
at_noon = codes "180101-12:00:00"

at_noon-IsStamp : IsStamp at_noon
at_noon-IsStamp = record { solid = ground arith; some_text = λ e. cc }

keys-IsRound : All IsRound keys
keys-IsRound = ((ground arith, (ground arith, tt)), ((ground arith, tt), tt))

keys_sent : sent hacker (shell_service all_return keys []).trace ≡ codes "l" ∷ []
unfolding shell_service visual_byte bytes_eq
keys_sent = refl

-- A session that the log holds already.
abbrev earlier : List Recording
earlier =
    record {
      start = at_noon;
      entries = record { time = at_noon; direction = codes "[V]"; text = codes "hi" } ∷ [];
    }
    ∷ []

earlier-IsRecording : All IsRecording earlier
earlier-IsRecording = (
  record {
    stamp = at_noon-IsStamp;
    each = (
      record {
        stamp = at_noon-IsStamp;
        word = ground arith;
        no_colon = ground arith;
        bytes = ground arith;
      },
      tt,
    );
  },
  tt,
)

abbrev shell_contents : Bytes
shell_contents =
    send_all (codes "log/10.0.0.1")
      (transcript (codes "shell") earlier
        ++ stamped (λ n. at_noon) 0 (emitted (shell_service all_return keys []).trace))
      (λ p. []) (shell_log (codes "log/10.0.0.1"))

shell_service_replayed_example :
    IsReplay shell_contents
      (sessions earlier)
      (shell_replay (codes "log/10.0.0.1") none 1 shell_contents)
      (sent hacker (shell_service all_return keys []).trace)
shell_service_replayed_example =
    shell_service_replayed all_return keys (λ n. at_noon) (codes "log/10.0.0.1")
      (codes "log/10.0.0.1") none earlier (λ p. []) keys-IsRound (λ k. at_noon-IsStamp)
      (rw keys_sent (λ e. cc)) refl earlier-IsRecording ((λ e. cc), tt)
