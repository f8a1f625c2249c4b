-- ===== src/Plugins/Jsonlog.antt =====
-- The plugin jsonlog with its methods (wetland/output_plugin/jsonlog.py).
use wetland.Prelude.{
  Bytes, codes, bytes_eq, split, int, ℤ, Bool, true, false, List, [], ◌∷◌, ◌++◌, Option, none, some,
  ◌≡◌, if◌then◌else◌, arith,
}
use wetland.Prelude.Py.{
  Outcome, returned, raised, Py, pure, lift, ◌>>=◌, ◌>>◌, attribute_error, value_error, key_error,
}
use wetland.Event.{Event}
use wetland.Plugins.{jsonlog_reports, jsonlog_send}

abbrev pub Items : Type 0
Items = List (Bytes × Bytes)

-- config.cfg.get('jsonlog', key); an option that is missing raises
unfoldable pub get_option : Bytes → Items → Outcome Bytes
get_option key [] = raised key_error
get_option key ((k, v) ∷ items) =
    let rest = get_option key items in if bytes_eq key k then returned v else rest

unfoldable pub has_option : Bytes → Items → Bool
has_option key [] = false
has_option key ((k, v) ∷ items) = if bytes_eq key k then true else has_option key items

-- list(set(['file', 'tcp', 'udp']) & set(options)), whose order Python leaves open
unfoldable pub methods : Items → List Bytes
unfolding has_option
methods items = among (codes "file" ∷ codes "tcp" ∷ codes "udp" ∷ [])
  where
    among : List Bytes → List Bytes
    among [] = []
    among (m ∷ ms) = let rest = among ms in if has_option m items then m ∷ rest else rest

abbrev pub Endpoint : Type 0
Endpoint = Bytes × ℤ

abbrev with_port : Bytes → Outcome ℤ → Outcome Endpoint
with_port ip (returned port) = returned (ip, port)
with_port ip (raised e) = raised e

-- ip, port = value.split(':'); port = int(port)
abbrev two_parts : List Bytes → Outcome Endpoint
two_parts (ip ∷ port ∷ []) = with_port ip (int port)
two_parts parts = raised value_error

unfoldable pub endpoint : Bytes → Outcome Endpoint
unfolding split int
endpoint value = two_parts (split b':' value)

pub record Plugin : Type 0 where
  pub name : Bytes
  pub methods : List Bytes
  pub tcpsock : Option Endpoint
  pub udpsock : Option Endpoint
  pub logfile : Option Bytes

abbrev parse : Outcome Bytes → Outcome (Option Endpoint)
unfolding endpoint
parse (raised e) = raised e
parse (returned value) = elim (endpoint value) [
  | raised e ↦ raised e
  | returned a ↦ returned (some a)
]

-- if key in self.methods: ...
unfoldable pub socket_of : Bytes → Items → Outcome (Option Endpoint)
unfolding endpoint has_option get_option
socket_of key items = if has_option key items then parse (get_option key items) else returned none

unfoldable pub file_of : Items → Option Bytes
unfolding has_option get_option
file_of items = elim (get_option (codes "file") items) [ raised e ↦ none | returned f ↦ some f ]

abbrev assemble :
    Bytes → Items → Outcome (Option Endpoint) → Outcome (Option Endpoint) → Outcome Plugin
unfolding methods file_of
assemble name items (raised e) udp = raised e
assemble name items (returned tcp) (raised e) = raised e
assemble name items (returned tcp) (returned udp) = returned (record {
  name = name;
  methods = methods items;
  tcpsock = tcp;
  udpsock = udp;
  logfile = file_of items;
})

-- plugin.__init__
unfoldable pub plugin_init : Bytes → Items → Outcome Plugin
unfolding socket_of methods file_of
plugin_init name items =
    assemble name items (socket_of (codes "tcp") items) (socket_of (codes "udp") items)

-- What the methods do.
pub data Call : Type 0 where
  opens closes : Call
  connects : Endpoint → Call
  sends : Bytes → Call
  appends : Bytes → Bytes → Call

abbrev pub call : Call → Outcome (Unit {0}) → Py (List Call) (Unit {0})
call c answer calls = (answer, calls ++ c ∷ [])

-- plugin.file; `answer` says what a call does
unfoldable pub file : (Call → Outcome (Unit {0})) → Option Bytes → Bytes → Py (List Call) (Unit {0})
file answer none text = lift (raised attribute_error)
file answer (some name) text =
    call (appends name (text ++ codes "\n")) (answer (appends name (text ++ codes "\n")))

-- plugin.udp and plugin.tcp, which differ in the kind of the socket
unfoldable pub transmit :
    (Call → Outcome (Unit {0})) → Option Endpoint → Bytes → Py (List Call) (Unit {0})
transmit answer none text = lift (raised attribute_error)
transmit answer (some sock) text = do
  call opens (answer opens)
  call (connects sock) (answer (connects sock))
  call (sends text) (answer (sends text))
  call closes (answer closes)

-- getattr(self, m)(data)
unfoldable pub method :
    (Call → Outcome (Unit {0})) → Plugin → Bytes → Bytes → Py (List Call) (Unit {0})
unfolding file transmit
method answer p m text =
    if bytes_eq m (codes "file")
    then file answer p.logfile text
    else if bytes_eq m (codes "udp")
    then transmit answer p.udpsock text
    else transmit answer p.tcpsock text

-- for m in self.methods
unfoldable pub each_method :
    (Call → Outcome (Unit {0})) → Plugin → List Bytes → Bytes → Py (List Call) (Unit {0})
unfolding method
each_method answer p [] text = pure tt
each_method answer p (m ∷ ms) text = do method answer p m text; each_method answer p ms text

-- The attribute `myip` of the object that the plugin was made with.
unfoldable pub attribute : Option Bytes → Outcome Bytes
attribute none = raised attribute_error
attribute (some ip) = returned ip

-- plugin.send, with `myip` of the server, if it has it. `dumps` makes the text of the message.
unfoldable pub send :
    (Bytes → Event → Bytes)
    → (Call → Outcome (Unit {0}))
    → Plugin
    → Option Bytes
    → Event
    → Py (List Call) Bool
unfolding attribute each_method jsonlog_reports
send dumps answer p myip e =
    if jsonlog_reports e
    then (do
      ip ← lift (attribute myip)
      each_method answer p p.methods (dumps ip e ++ codes "\n")
      pure true)
    else pure true

-- With a server that has no attribute myip.
send_silent :
    (dumps : Bytes → Event → Bytes) (answer : Call → Outcome (Unit {0})) (p : Plugin) (e : Event)
    (calls : List Call)
    → send dumps answer p none e calls ≡ (jsonlog_send e, calls)
unfolding send jsonlog_send
send_silent dumps answer p e calls = ground arith
