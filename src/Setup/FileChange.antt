-- ===== src/Setup/FileChange.antt =====
-- util/filechange.py: which folder of the container is copied, and where to.
use wetland.Prelude.{
  Bytes, codes, bytes_eq, strip, length, ◌==◌, List, [], ◌∷◌, ◌++◌, Option, none, some, not, ◌≡◌,
  true, false, if◌then◌else◌,
}
use wetland.Prelude.Py.{Outcome, returned, raised, io_error, system_exit}

layer_id_file : Bytes → Bytes
layer_id_file id = codes "/var/lib/docker/image/aufs/layerdb/mounts/" ++ (id ++ codes "/mount-id")

-- Lines 17 to 24, with the contents of the file. A container that does not exist is only printed,
-- and `open` raises then. The result is the source and the target of the copy.
copy_layer : Option Bytes → Outcome (Bytes × Bytes)
copy_layer none = raised (io_error 2)
copy_layer (some layer_id) = returned (codes "/var/lib/docker/aufs/diff/" ++ layer_id, layer_id)

checked : Bytes → (Bytes → Option Bytes) → Outcome (Bytes × Bytes)
unfolding copy_layer layer_id_file
checked id files =
    if not (length id == 64) then raised (system_exit 1) else copy_layer (files (layer_id_file id))

-- The script, with its arguments, what it reads from the standard input, and the files.
filechange : List Bytes → Bytes → (Bytes → Option Bytes) → Outcome (Bytes × Bytes)
unfolding checked
filechange [] input files = raised (system_exit 1)
filechange (id ∷ rest) input files =
    checked (if bytes_eq id (codes "-") then strip input else id) files

-- An id of 64 bytes that no container has ends in an IOError, not in the exit that a wrong length
-- has.
filechange_missing :
    (id input : Bytes) (files : Bytes → Option Bytes)
    → bytes_eq id (codes "-") ≡ false
    → length id == 64 ≡ true
    → files (layer_id_file id) ≡ none
    → filechange (id ∷ []) input files ≡ raised (io_error 2)
unfolding filechange
filechange_missing id input files h k m = rw (h, k, m)
