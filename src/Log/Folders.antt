-- ===== src/Log/Folders.antt =====
-- The folders of the plugin `log`, and two connections that make the same one
-- (wetland/output_plugin/log.py).
mod Tests
use wetland.Prelude.{
  ℕ, Bytes, bytes_eq, bytes_eq_refl, is_in, Bool, true, ◌||◌, List, [], ◌∷◌, ◌≡◌, refl,
  if◌then◌else◌, arith,
}
use wetland.Prelude.Py.{Outcome, returned, raised, Py, pure, io_error, ◌>>=◌, ◌>>◌}
use wetland.Log.{get_logpath}

-- The paths that exist.
abbrev pub Disk : Type 0
Disk = List Bytes

unfoldable pub exists : Bytes → Py Disk Bool
exists path disk = (returned (is_in path disk), disk)

-- os.makedirs: a folder that exists raises EEXIST.
unfoldable pub makedirs : Bytes → Py Disk (Unit {0})
makedirs path disk =
    if is_in path disk then (raised (io_error 17), disk) else (returned tt, path ∷ disk)

-- Lines 26 and 27, after the answer of `exists`.
unfoldable pub make_missing : Bytes → Bool → Py Disk (Unit {0})
unfolding makedirs
make_missing path found = if found then pure tt else makedirs path

-- Lines 8 and 9, when the plugin is imported.
unfoldable pub make_logs : Bytes → Py Disk (Unit {0})
unfolding exists make_missing
make_logs logpath = do found ← exists logpath; make_missing logpath found

-- plugin.__init__ with get_logpath: the folder of the address
unfoldable pub plugin_init : Bytes → Bytes → Py Disk Bytes
unfolding exists make_missing get_logpath
plugin_init logpath hacker_ip = do
  found ← exists (get_logpath logpath hacker_ip)
  make_missing (get_logpath logpath hacker_ip) found
  pure (get_logpath logpath hacker_ip)

-- A plugin that is made alone has its folder, whether or not it was there.
pub plugin_init-exists :
    (logpath hacker_ip : Bytes) (disk : Disk)
    → ((plugin_init logpath hacker_ip disk).0 ≡ returned (get_logpath logpath hacker_ip))
      × (is_in (get_logpath logpath hacker_ip) (plugin_init logpath hacker_ip disk).1 ≡ true)
unfolding plugin_init is_in
plugin_init-exists logpath hacker_ip disk =
    ground (arith, bytes_eq_refl (get_logpath logpath hacker_ip))

-- Two connections that are new from one address: the test of each, before either makes the folder,
-- and then the calls of one and the other.
unfoldable pub two_connections : Bytes → Bytes → Disk → Outcome (Unit {0}) × Outcome (Unit {0})
unfolding exists make_missing get_logpath
two_connections logpath hacker_ip disk =
    let path = get_logpath logpath hacker_ip in
    let first = make_missing path (is_in path disk) disk in
    let second = make_missing path (is_in path disk) first.1 in (first.0, second.0)
