-- ===== src/Forward.antt =====
-- Forwarded connections: `direct_service` (wetland/services/direct_service.py) and
-- `reverse_handler2` (wetland/services/reverse_service.py), which have the same loop.
pub mod Logged
pub mod Crossed
pub mod Replayed
mod Tests
use wetland.Prelude.{
  ℕ, zero, suc, ◌+◌, Bytes, codes, List, [], ◌∷◌, ◌++◌, Option, none, some, Bool, true, false, ◌&&◌,
  if◌then◌else◌,
}
use wetland.Prelude.Py.{Py, Outcome, returned, raised, pure, ◌>>=◌, ◌>>◌}
use wetland.Event.{wetland_subject}
use wetland.Relay.{
  marker, Side, hacker, docker, Trace, close, send, call, half_close, close_both, report,
  content_event, text_event, Status, waiting, finished, emit,
}

pub data Forward : Type 0 where
  direct reverse : Forward

-- The action of the events.
abbrev pub action : Forward → Bytes
action direct = codes "direct"
action reverse = codes "reverse"

abbrev opposite : Side → Side
opposite hacker = docker
opposite docker = hacker

-- What `select` and the calls of a turn return: the text of each channel that is in `r`, and
-- `eof_received` of the two channels.
pub record Turn : Type 0 where
  pub from_hacker : Option Bytes
  pub from_docker : Option Bytes
  pub hacker_eof : Bool
  pub docker_eof : Bool

-- A thread of reverse_handler2, with the addresses that it gets.
pub record Thread : Type 0 where
  pub origin : Bytes × ℕ
  pub destination : Bytes × ℕ
  pub daemon : Bool

-- reverse_handler: the threads that were started, with the new one
unfoldable pub reverse_handler : Bytes × ℕ → Bytes × ℕ → List Thread → List Thread
reverse_handler origin destination threads =
    threads ++ record { origin = origin; destination = destination; daemon = true } ∷ []

-- `for i in range(10)`: whether a look finds the channel; `found` says which do.
unfoldable pub appears : (ℕ → Bool) → ℕ → ℕ → Bool
appears found i zero = false
appears found i (suc n) = if found i then true else appears found (i + 1) n

module _ (forward : Forward) (answers : Trace → Outcome (Unit {0})) where
  -- Lines 23 to 26 and 28 to 31.
  unfoldable pub relay : Side → Option Bytes → Py Trace (Unit {0})
  unfolding call
  relay side none = pure tt
  relay side (some text) = do
    report (text_event (action forward) side text)
    call answers (send (opposite side) text)

  -- Lines 33 to 39.
  unfoldable pub half_close_if : Bool → Side → Py Trace (Unit {0})
  unfolding half_close
  half_close_if eof side = if eof then half_close answers side else pure tt

  -- The body of `while True`, up to the last test.
  unfoldable pub relay_round : Turn → Py Trace (Unit {0})
  unfolding relay half_close_if
  relay_round r = do
    relay hacker r.from_hacker
    relay docker r.from_docker
    half_close_if r.docker_eof hacker
    half_close_if r.hacker_eof docker

  -- An exception ends the loop, and so does the end of both inputs.
  after_relay : Outcome (Unit {0}) → Bool → Status × Trace → Trace → Status × Trace
  after_relay (raised e) eof rest t = (finished, t)
  after_relay (returned x) true rest t = (finished, t)
  after_relay (returned x) false rest t = rest

  -- Where the turns end, the loop waits in `select`.
  unfoldable pub relay_loop : List Turn → Trace → Status × Trace
  unfolding relay_round after_relay
  relay_loop [] t = (waiting, t)
  relay_loop (r ∷ rs) t =
      let done = relay_round r t in
      let rest = relay_loop rs done.1 in
      after_relay done.0 (r.docker_eof && r.hacker_eof) rest done.1

  -- finally: hacker_channel.close(); docker_channel.close()
  unfoldable pub relay_end : Status × Trace → Trace
  unfolding close_both
  relay_end (waiting, t) = t
  relay_end (finished, t) = (close_both answers hacker docker t).1

module _ (answers : Trace → Outcome (Unit {0})) where
  -- `found` is what `hacker_trans._channels.get` finds at each look; the look of line 16 is taken
  -- to find what the last one found.
  unfoldable pub direct_service : (ℕ → Bool) → List Turn → Trace → Trace
  unfolding appears relay_loop relay_end call
  direct_service found turns trace =
      if appears found 0 10
      then relay_end direct answers (
          relay_loop direct answers turns
            (trace ++ emit (content_event (action direct) marker) ∷ []))
      else (call answers (close docker) trace).1

  -- `opened` says whether `open_forwarded_tcpip_channel` returned, and `ends` is the text of the
  -- two ends, 'ori:…, dest:…'.
  unfoldable pub reverse_handler2 : Bool → Bytes → List Turn → Trace → Trace
  unfolding relay_loop relay_end call
  reverse_handler2 opened ends turns trace =
      if opened
      then relay_end reverse answers (
          relay_loop reverse answers turns (
            trace
            ++ emit (record { subject = wetland_subject; action = action reverse; content = ends })
              ∷ emit (content_event (action reverse) marker)
              ∷ []))
      else (call answers (close docker) trace).1
