-- ===== src/Docker.antt =====
-- The connection to the sshd container: paramiko's client side, which this library does not
-- model. `World` is everything behind the connection, the container included. Each operation is
-- a call of `docker_trans` or of one of its channels, named as there; a channel is its id.
pub mod Sample
use wetland.Prelude.{ℕ, Bytes, Bool}
use wetland.Prelude.Py.{Py}

pub record Docker : Type 1 where
  pub World : Type 0
  pub auth_password : Bytes → Bytes → Py World (Unit {0})
  pub open_session : Py World ℕ
  pub exec_command : ℕ → Bytes → Py World (Unit {0})
  pub close : ℕ → Py World (Unit {0})
  pub get_pty : ℕ → Py World (Unit {0})
  pub invoke_shell : ℕ → Py World (Unit {0})
  pub set_environment_variable : ℕ → Bytes → Bytes → Py World (Unit {0})
  -- `_channels.get(id)`: whether the id names an open channel
  pub has_channel : ℕ → World → Bool
  -- open_channel('direct-tcpip', dest_addr, src_addr)
  pub open_direct : Bytes × ℕ → Bytes × ℕ → Py World ℕ
  -- the port that was bound, with 0 for Python's false values
  pub request_port_forward : Bytes → ℕ → Py World ℕ
