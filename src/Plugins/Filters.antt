-- ===== src/Plugins/Filters.antt =====
-- What the filters of wetland/output_plugin let through.
use wetland.Prelude.{
  Bytes, codes, bytes_eq, is_in, Bool, true, false, ◌&&◌, ◌||◌, All, ◌≡◌, refl, arith,
}
use wetland.Prelude.Py.{raised, attribute_error}
use wetland.Event.{Event, wetland_subject}
use wetland.Auth.{AuthResult, auth_successful, auth_failed}
use wetland.Auth.Outcomes.{report}
use wetland.Plugins.{jsonlog_reports, mqtt_reports, jsonlog_send}

-- The plugin mqtt reports what jsonlog does, and downloads besides.
mqtt_reports-jsonlog :
    (e : Event)
    → mqtt_reports e ≡ (
        jsonlog_reports e
        || bytes_eq e.subject wetland_subject && bytes_eq e.action (codes "download"))
unfolding mqtt_reports jsonlog_reports is_in
mqtt_reports-jsonlog e = ground arith

-- Everything that a login reports goes to mqtt and jsonlog, in every mode and with every result.
pub report_reaches_mqtt :
    (in_blacklist_mode : Bool) (r : AuthResult) (u p : Bytes)
    → All
        (λ e. (mqtt_reports e ≡ true) × (jsonlog_reports e ≡ true))
        (report in_blacklist_mode r u p)
unfolding mqtt_reports jsonlog_reports is_in bytes_eq
report_reaches_mqtt true auth_successful u p = ((refl, refl), tt)
report_reaches_mqtt false auth_successful u p = ((refl, refl), ((refl, refl), tt))
report_reaches_mqtt true auth_failed u p = ((refl, refl), tt)
report_reaches_mqtt false auth_failed u p = ((refl, refl), tt)

-- The plugin jsonlog raises on every event that it would report.
jsonlog_send_raises :
    (in_blacklist_mode : Bool) (r : AuthResult) (u p : Bytes)
    → All (λ e. jsonlog_send e ≡ raised attribute_error) (report in_blacklist_mode r u p)
unfolding jsonlog_send jsonlog_reports is_in bytes_eq
jsonlog_send_raises true auth_successful u p = (refl, tt)
jsonlog_send_raises false auth_successful u p = (refl, (refl, tt))
jsonlog_send_raises true auth_failed u p = (refl, tt)
jsonlog_send_raises false auth_failed u p = (refl, tt)
