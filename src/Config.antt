-- ===== src/Config.antt =====
-- The public address and the arguments: `reqpubip` and `get_args` (wetland/config.py).
pub mod Laws
pub mod Client
mod Tests
use wetland.Prelude.{
  ℕ, Bytes, split, cons_head, Bool, true, false, ◌&&◌, ◌==◌, List, [], ◌∷◌, Option, none, some,
  if◌then◌else◌,
}
use wetland.Prelude.Py.{Outcome, returned, raised, other_error}

-- s.split('\r\n')
unfoldable pub split_lines : Bytes → List Bytes
unfolding cons_head
split_lines [] = [] ∷ []
split_lines (c ∷ []) = (c ∷ []) ∷ []
split_lines (c ∷ d ∷ s) =
    let after = [] ∷ split_lines s in
    let inner = cons_head c (split_lines (d ∷ s)) in if c == 13 && d == 10 then after else inner

-- l[-1] and l[0] of what `split` returns, which is never empty
unfoldable pub last_part : List Bytes → Bytes
last_part [] = []
last_part (w ∷ []) = w
last_part (w ∷ v ∷ ws) = last_part (v ∷ ws)

abbrev first_part : List Bytes → Bytes
first_part [] = []
first_part (w ∷ ws) = w

-- Line 37, for what `recv` returned.
unfoldable pub outer_address : Bytes → Bytes
unfolding split_lines last_part split
outer_address reply = first_part (split b'\n' (last_part (split_lines reply)))

-- One pass of the loop: no socket, a call of it that raised, or the reply with the own address.
pub data Attempt : Type 0 where
  no_socket failed : Attempt
  reply : Bytes → Bytes → Attempt

pub data Request : Type 0 where
  asking : Request
  found : Bytes → Bytes → Request
  broken : Request

-- `while 1`, with `finally: s.close()`, which raises if `s` was never bound. Where the attempts end
-- the loop goes on.
unfoldable pub request_loop : Bool → List Attempt → Request
unfolding outer_address
request_loop bound [] = asking
request_loop bound (no_socket ∷ rest) = elim bound [
  | true ↦ request_loop true rest
  | false ↦ broken
]
request_loop bound (failed ∷ rest) = request_loop true rest
request_loop bound (reply text inip ∷ rest) = found (outer_address text) inip

unfoldable pub reqpubip : List Attempt → Request
unfolding request_loop
reqpubip attempts = request_loop false attempts

-- The attributes of `args`, the MQTT client aside.
pub record Args : Type 0 where
  pub myip : Bytes
  pub listen_ip : Option Bytes
  pub sensor : Bytes
  pub listen_port : ℕ

-- Lines 69 to 76, with the options `req_public_ip`, `name` and `wetland_port`.
unfoldable pub get_args : Bool → Bytes → ℕ → Request → Option (Outcome Args)
get_args public name port asking = none
get_args public name port broken = some (raised other_error)
get_args true name port (found outip inip) =
    some
      (returned (record { myip = outip; listen_ip = some inip; sensor = name; listen_port = port }))
get_args false name port (found outip inip) =
    some (returned (record { myip = inip; listen_ip = none; sensor = name; listen_port = port }))
