-- ===== src/Sftp/Handles/Laws.antt =====
-- What the methods of an open file answer and report (wetland/server/sftpServer.py).
use wetland.Prelude.{ℕ, Bytes, codes, true, [], ◌∷◌, ◌++◌, none, some, ◌≡◌, arith, append_assoc}
use wetland.Prelude.Py.{returned, raised, attribute_error}
use wetland.Event.{Event}
use wetland.Sftp.{Client, Handle, Session}
use wetland.Sftp.Handles.{close_handle, write_handle, write_at}

-- The reports of the file `h`.
abbrev pub file_event : Handle → Bytes → Event
file_event h action = record { subject = codes "sftpfile"; action = action; content = h.file_name }

module _ (C : Client) (convert_errno : ℕ → ℕ) where
  open C use {World}

  -- The session once the write is reported.
  abbrev pub write_told : Handle → Session World → Session World
  write_told h s = record s { events = s.events ++ file_event h (codes "write") ∷ [] }

  -- A write to a writable file that has no local copy raises AttributeError once the data is
  -- written in the container.
  write_without_copy :
      (h : Handle) (offset : ℕ) (text : Bytes) (s : Session World)
      → h.save_file ≡ none
      → C.writable h.remote_file s.world ≡ true
      → (write_at C convert_errno h.remote_file offset text (write_told h s)).0 ≡ returned tt
      → write_handle C convert_errno h offset text s ≡ (
        raised attribute_error,
        (write_at C convert_errno h.remote_file offset text (write_told h s)).1,
      )
  unfolding write_handle
  write_without_copy h offset text s e w k = ground arith

  -- The session once the close is reported.
  abbrev pub close_told : Handle → Session World → Session World
  close_told h s = record s { events = s.events ++ file_event h (codes "close") ∷ [] }

  -- Closing a file with a local copy raises AttributeError once both files are closed and the
  -- upload is reported.
  close_with_copy :
      (h : Handle) (save_file : ℕ) (s : Session World)
      → h.save_file ≡ some save_file
      → (C.close h.remote_file s.world).0 ≡ returned tt
      → (C.close save_file (C.close h.remote_file s.world).1).0 ≡ returned tt
      → close_handle C convert_errno h s ≡ (
        raised attribute_error,
        record {
          events =
              s.events
              ++ file_event h (codes "close")
                ∷ record { subject = codes "upfile"; action = codes "sftp"; content = h.file_name }
                ∷ [];
          world = (C.close save_file (C.close h.remote_file s.world).1).1;
        },
      )
  unfolding close_handle
  close_with_copy h save_file s e k l = ground (
    arith,
    append_assoc s.events (file_event h (codes "close") ∷ [])
        (record { subject = codes "upfile"; action = codes "sftp"; content = h.file_name } ∷ []),
  )
