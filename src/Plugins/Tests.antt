-- ===== src/Plugins/Tests.antt =====
-- Events that plugins report.
use wetland.Prelude.{Bytes, codes, bytes_eq, is_in, [], ◌∷◌, if◌then◌else◌, ◌≡◌}
use wetland.Prelude.Py.{Outcome, returned, raised, other_error}
use wetland.Event.{Event, wetland_subject}
use wetland.Plugins.{bearychat_reports}
use wetland.Plugins.Messages.{Origin, body, bearychat_send}
use wetland.Plugins.Posts.{reached, first_error, post_of, bearychat_send_lem}

abbrev login : Event
login = record {
  subject = wetland_subject;
  action = codes "login_successful";
  content = codes "root:root";
}

abbrev origin : Origin
origin = record {
  name = codes "sensor";
  hacker_ip = codes "10.0.0.1";
  hacker_port = 4000;
  myip = codes "1.2.3.4";
  listen_port = 22;
  sessionuid = codes "1";
}

-- The second of the calls raises.
abbrev flaky : Bytes → Outcome (Unit {0})
flaky url = if bytes_eq url (codes "b") then raised other_error else returned tt

bearychat_send_lem_example :
    bearychat_send (λ b. b.text) flaky (codes "a" ∷ codes "b" ∷ codes "c" ∷ []) origin login [] ≡ (
      raised other_error,
      post_of (body origin login).text (codes "a")
          ∷ post_of (body origin login).text (codes "b")
          ∷ [],
    )
unfolding bearychat_reports is_in bytes_eq reached first_error
bearychat_send_lem_example =
    bearychat_send_lem (λ b. b.text) flaky (codes "a" ∷ codes "b" ∷ codes "c" ∷ []) origin login []
