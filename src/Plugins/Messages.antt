-- ===== src/Plugins/Messages.antt =====
-- The messages of the plugins bearychat and mqtt (wetland/output_plugin). `json.dumps` and what a
-- call of the libraries does are arguments.
use wetland.Prelude.{ℕ, Bytes, codes, join, Bool, true, false, List, [], ◌∷◌, ◌++◌, if◌then◌else◌}
use wetland.Prelude.Py.{Outcome, Py, pure, ◌>>◌}
use wetland.Event.{Event}
use wetland.Plugins.{bearychat_reports, mqtt_reports, has_prefix}

-- [v for k, v in items if k.startswith(prefix)]
unfoldable pub values_of : Bytes → List (Bytes × Bytes) → List Bytes
unfolding has_prefix
values_of prefix [] = []
values_of prefix ((k, v) ∷ items) =
    let rest = values_of prefix items in if has_prefix prefix k then v ∷ rest else rest

-- `urls` of bearychat, for the items of its section
unfoldable pub urls : List (Bytes × Bytes) → List Bytes
unfolding values_of
urls items = values_of (codes "url") items

-- `tos` of email
unfoldable pub receivers : List (Bytes × Bytes) → List Bytes
unfolding values_of
receivers items = values_of (codes "to") items

-- What a message says of the sensor and the session.
pub record Origin : Type 0 where
  pub name : Bytes
  pub hacker_ip : Bytes
  pub hacker_port : ℕ
  pub myip : Bytes
  pub listen_port : ℕ
  pub sessionuid : Bytes

-- `body`
pub record Body : Type 0 where
  pub text : Bytes
  pub markdown : Bool
  pub notification : Bytes

abbrev pub line : Bytes → Bytes → Bytes
line label value = label ++ (9 ∷ value)

-- bearychat.send, lines 25 to 30.
unfoldable pub report_text : Origin → Event → List Bytes
report_text o e =
    line (codes "Sensor:") o.name
    ∷ line (codes "Hacker:") o.hacker_ip
    ∷ line (codes "MyIP:") o.myip
    ∷ line (codes "Action:") e.action
    ∷ line (codes "Content:") e.content
    ∷ []

unfoldable pub body : Origin → Event → Body
unfolding report_text
body o e = record {
  text = join (codes "\n") (report_text o e);
  markdown = true;
  notification = codes "Wetland Honeypot Report";
}

-- A call of `requests.post`.
pub record Post : Type 0 where
  pub url : Bytes
  pub content_type : Bytes
  pub sent : Bytes

-- A call is noted whether or not it raises; `answer` says what it does.
abbrev pub post : (Bytes → Outcome (Unit {0})) → Bytes → Bytes → Py (List Post) (Unit {0})
post answer url data' posts = (
  answer url,
  posts ++ record { url = url; content_type = codes "application/json"; sent = data' } ∷ [],
)

-- for url in urls: requests.post(url, headers=headers, data=data)
unfoldable pub post_each :
    (Bytes → Outcome (Unit {0})) → Bytes → List Bytes → Py (List Post) (Unit {0})
post_each answer data' [] = pure tt
post_each answer data' (url ∷ rest) = do post answer url data'; post_each answer data' rest

unfoldable pub bearychat_send :
    (Body → Bytes)
    → (Bytes → Outcome (Unit {0}))
    → List Bytes
    → Origin
    → Event
    → Py (List Post) Bool
unfolding body post_each
bearychat_send dumps answer to o e =
    if bearychat_reports e
    then (do post_each answer (dumps (body o e)) to; pure true)
    else pure false

-- `data` of mqtt; the fields that are the same in every message are left to `dumps`.
pub record Report : Type 0 where
  pub timestamp : Bytes
  pub src_ip : Bytes
  pub dst_ip : Bytes
  pub action : Bytes
  pub content : Bytes
  pub sensor : Bytes
  pub src_port : ℕ
  pub dst_port : ℕ
  pub honeypot : Bytes
  pub session : Bytes

unfoldable pub report : Bytes → Origin → Event → Report
report t o e = record {
  timestamp = t;
  src_ip = o.hacker_ip;
  dst_ip = o.myip;
  action = e.action;
  content = e.content;
  sensor = o.name;
  src_port = o.hacker_port;
  dst_port = o.listen_port;
  honeypot = codes "wetland";
  session = o.sessionuid;
}

-- A call of `publish`.
pub record Publication : Type 0 where
  pub topic : Bytes
  pub payload : Bytes
  pub qos : ℕ

abbrev pub publish : Outcome (Unit {0}) → Bytes → Py (List Publication) (Unit {0})
publish answer data' sent =
    (answer, sent ++ record { topic = codes "ck/log/wetland"; payload = data'; qos = 1 } ∷ [])

unfoldable pub mqtt_send :
    (Report → Bytes) → Outcome (Unit {0}) → Bytes → Origin → Event → Py (List Publication) Bool
unfolding report
mqtt_send dumps answer t o e =
    if mqtt_reports e then (do publish answer (dumps (report t o e)); pure true) else pure true

-- The module email: the options, which are names of the module.
pub record Mail : Type 0 where
  pub name : Bytes
  pub user : Bytes
  pub pwd : Bytes
  pub host : Bytes
  pub port : ℕ
  pub tos : List Bytes

-- Lines 8 to 14, for the options and the items of the section email.
unfoldable pub mail : Bytes → Bytes → Bytes → Bytes → ℕ → List (Bytes × Bytes) → Mail
unfolding receivers
mail name user pwd host port items = record {
  name = name;
  user = user;
  pwd = pwd;
  host = host;
  port = port;
  tos = receivers items;
}

-- email.send, lines 27 to 31, which run before `tos` is missed; `hacker_ip` is the text of the
-- object that the plugin was made with.
unfoldable pub mail_text : Bytes → Bytes → Event → List Bytes
mail_text name hacker_ip e =
    line (codes "Sensor:") name
    ∷ line (codes "Hacker:") hacker_ip
    ∷ line (codes "Action:") e.action
    ∷ line (codes "Content:") e.content
    ∷ []
