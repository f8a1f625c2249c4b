-- ===== src/Event.antt =====
-- What `output.o` hands to the plugins (wetland/output.py): subject, action and content. A
-- component's state holds the events in the order in which they were emitted.
use wetland.Prelude.{Bytes, codes, [], ◌∷◌, join}

pub record Event : Type 0 where
  pub subject : Bytes
  pub action : Bytes
  pub content : Bytes

-- The literals that several components emit.
abbrev pub wetland_subject : Bytes
wetland_subject = codes "wetland"

abbrev pub content_subject : Bytes
content_subject = codes "content"

-- ":".join((username, password))
abbrev pub credentials : Bytes → Bytes → Bytes
credentials username password = join (codes ":") (username ∷ password ∷ [])
