-- ===== src/Clearlog/Laws.antt =====
-- What `clear` keeps and collects (util/clearlog.py).
use wetland.Prelude.{
  Bytes, codes, bytes_eq, bytes_eq_iff, is_in, Bool, true, false, List, [], ◌∷◌, All, Bool-cases,
  inl, inr, ◌≡◌, refl, arith,
}
use wetland.Clearlog.{Folder, value_set, has_value, clear}

-- A folder of a shell session alone: its session log is shell.log, beside the other logs.
abbrev pub shell_files : List Bytes
shell_files = codes "shell.log" ∷ codes "pwd.log" ∷ codes "wetland.log" ∷ codes "sftp.log" ∷ []

-- A test that fails on every listed text fails on any text that is in the list.
is_in_fails :
    (test : Bytes → Bool) (f : Bytes) (ws : List Bytes)
    → All (λ w. test w ≡ false) ws
    → is_in f ws ≡ true
    → test f ≡ false
unfolding is_in
is_in_fails test f [] a h = cc
is_in_fails test f (w ∷ ws) a h = elim (Bool-cases (bytes_eq f w)) [
  | inl same ↦ rw ((bytes_eq_iff f w).0 same) a.0
  | inr other ↦ is_in_fails test f ws a.1 (rw other at h)
]

no_value_member : (f : Bytes) → is_in f shell_files ≡ true → is_in f value_set ≡ false
unfolding is_in bytes_eq
no_value_member f h =
    is_in_fails (λ g. is_in g value_set) f shell_files (refl, (refl, (refl, (refl, tt)))) h

has_value_shell :
    (fs : List Bytes) → All (λ f. is_in f shell_files ≡ true) fs → has_value fs ≡ false
unfolding has_value
has_value_shell [] h = refl
has_value_shell (f ∷ fs) h = rw (no_value_member f h.0, has_value_shell fs h.1)

-- clear removes every folder, but one named sftp, whose files are among shell.log, pwd.log,
-- wetland.log and sftp.log, so also one with a shell session.
pub clear_removes_shell :
    (f : Folder) (fs : List Folder)
    → f.is_dir ≡ true
    → bytes_eq f.ip (codes "sftp") ≡ false
    → All (λ g. is_in g shell_files ≡ true) f.log
    → (clear (f ∷ fs)).1 ≡ (clear fs).1
unfolding clear
clear_removes_shell f fs d n h = ground (arith, has_value_shell f.log h)
