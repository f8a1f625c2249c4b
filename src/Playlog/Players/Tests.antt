-- ===== src/Playlog/Players/Tests.antt =====
-- Transfers of scp, extracted from a log and saved (util/playlog.py).
use wetland.Prelude.{
  codes, [], ◌∷◌, ◌≡◌, ◌≤◌, refl, length, re_sub, bytes_eq, some, path_join, read_lines,
}
use wetland.Prelude.Py.{returned, raised, index_error, key_error, io_error}
use wetland.Playlog.{shell_get}
use wetland.Playlog.Scp.{
  Dict, empty, entry, file, folder, makedirs, write, extract_files, save_files, is_there,
  below_file,
}
use wetland.Playlog.Scp.Total.{InFuel, extract_files_ends}
use wetland.Playlog.Scp.RoundTrip.{
  Tree, done, send_file, send_folder, messages, received, IsSendable, extract_files-messages,
}
use wetland.Playlog.Scp.Saved.{save_files-written, save_files_lost}
use wetland.Playlog.Players.{shell_start}
use wetland.Playlog.Players.Laws.{shell_start_raises}

abbrev notes : Tree
notes = send_file (codes "0644") (codes "notes") (codes "ab" ∷ []) (codes "c") done

abbrev tree : Tree
tree = send_folder (codes "0755") (codes "dir") notes done

tree-IsSendable : IsSendable tree
unfolding bytes_eq
tree-IsSendable = (
  record { digits = (refl, (refl, (refl, (refl, tt)))); four = refl },
  record { solid = (refl, (refl, (refl, tt))); some_text = λ e. cc },
  (
    record { digits = (refl, (refl, (refl, (refl, tt)))); four = refl },
    record { solid = (refl, (refl, (refl, (refl, (refl, tt))))); some_text = λ e. cc },
    (refl, tt),
    tt,
  ),
  tt,
)

extract_files_ends_example :
    InFuel (extract_files (record { dq = messages tree; printed = [] })).0
    × (length (extract_files (record { dq = messages tree; printed = [] })).1.dq
        ≤ length (messages tree))
extract_files_ends_example = extract_files_ends (record { dq = messages tree; printed = [] })

extract_files-messages_example :
    extract_files (record { dq = messages tree; printed = [] })
    ≡ (returned (some (received empty tree)), record { dq = []; printed = [] })
unfolding bytes_eq
extract_files-messages_example = extract_files-messages tree [] tree-IsSendable

abbrev saved : Dict
saved = entry (codes "dir") (folder (entry (codes "my notes") (file (codes "abc")) empty)) empty

save_files-written_example : save_files saved (codes "out") [] ≡ (
  returned tt,
  makedirs (codes "out")
      ∷ makedirs (codes "out/dir")
      ∷ write (codes "out/dir/my-notes") (codes "abc")
      ∷ [],
)
unfolding re_sub bytes_eq path_join is_there below_file
save_files-written_example =
    save_files-written saved (codes "out") [] (refl, tt, tt)
      ((refl, refl, refl), ((refl, refl, refl), ((refl, refl), tt)))

save_files_lost_example :
    (save_files (entry (codes "my_dir") (folder empty) empty) (codes "out") []).0 ≡ raised key_error
unfolding re_sub bytes_eq is_there below_file
save_files_lost_example =
    save_files_lost [] (codes "my_dir") empty empty (codes "out") [] refl ((refl, refl, refl), tt)

shell_start_raises_example : (shell_start [] (codes "0") []).0 ≡ raised index_error
unfolding shell_get read_lines
shell_start_raises_example = shell_start_raises [] (codes "0") [] [] [] refl

-- A file whose changed name is that of a folder before it.
same_name :
    (save_files
      (entry (codes "a-b") (folder empty) (entry (codes "a_b") (file (codes "x")) empty))
      (codes "out")
      []).0
    ≡ raised (io_error 21)
unfolding save_files re_sub bytes_eq is_there below_file
same_name = refl
