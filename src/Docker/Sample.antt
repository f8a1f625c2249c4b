-- ===== src/Docker/Sample.antt =====
-- A container for tests: two accounts, sessions numbered in order, and no forwarding to port 25.
-- The world is the number of calls that it answered.
use wetland.Prelude.{ℕ, ◌+◌, Bytes, codes, bytes_eq, Bool, true, ◌&&◌, ◌||◌, ◌==◌, if◌then◌else◌}
use wetland.Prelude.Py.{Py, returned, raised, ssh_exception, channel_exception}
use wetland.Docker.{Docker}

unfoldable pub accepts : Bytes → Bytes → Bool
unfolding bytes_eq
accepts u p =
    bytes_eq u (codes "admin") && bytes_eq p (codes "secret")
    || bytes_eq u (codes "root") && bytes_eq p (codes "wetlandrootwetland")

abbrev answer : Py ℕ (Unit {0})
answer n = (returned tt, n + 1)

abbrev pub sample : Docker
sample = record {
  World = ℕ;
  auth_password = λ u p n. ((if accepts u p then returned tt else raised ssh_exception), n + 1);
  open_session = λ n. (returned n, n + 1);
  exec_command = λ _ _. answer;
  close = λ _. answer;
  get_pty = λ _. answer;
  invoke_shell = λ _. answer;
  set_environment_variable = λ _ _ _. answer;
  has_channel = λ _ _. true;
  open_direct = λ d _ n. ((if d.1 == 25 then raised channel_exception else returned n), n + 1);
  request_port_forward = λ _ port n. (returned port, n + 1);
}
