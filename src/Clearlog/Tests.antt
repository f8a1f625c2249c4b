-- ===== src/Clearlog/Tests.antt =====
-- A folder of one shell session, and the size of a file.
use wetland.Prelude.{codes, [], ◌∷◌, true, is_in, bytes_eq, ◌≡◌, refl}
use wetland.Clearlog.{Folder, clear}
use wetland.Clearlog.Laws.{clear_removes_shell}

abbrev shell_folder : Folder
shell_folder = record {
  ip = codes "10.0.0.1";
  is_dir = true;
  log = codes "pwd.log" ∷ codes "shell.log" ∷ [];
  pwd_log = codes "180101-12:00:00 root:root \n";
}

clear_removes_shell_example : (clear (shell_folder ∷ [])).1 ≡ (clear []).1
unfolding is_in bytes_eq
clear_removes_shell_example = clear_removes_shell shell_folder [] refl refl (refl, (refl, tt))
