-- ===== src/Alerts.antt =====
-- components/alerts: the latest alert, and its one subscriber.
pub mod Sequence
use esp32_remot_control.Prelude.{
  ℕ, ◌+◌, Bool, true, Option, none, some, List, [], ◌∷◌, take, Bytes, u16, if◌then◌else◌,
}

-- `alert_code_t`
pub data AlertCode : Type 0 where
  alert_none alert_ota_apply_fail alert_ota_verify_fail alert_rollback_executed : AlertCode
  alert_watchdog_reset alert_flash_write_error alert_fs_mount_fail : AlertCode
  alert_image_invalid alert_tcp_fatal alert_ble_fatal : AlertCode

-- `alert_record_t`
pub record Alert : Type 0 where
  pub seq : ℕ
  pub code : AlertCode
  pub detail : Bytes

-- The statics, with what the subscriber has been given, newest first.
pub record Alerts : Type 0 where
  pub s_latest : Alert
  pub s_seq : ℕ
  pub subscribed : Bool
  pub notified : List Alert

abbrev pub or_empty : Option Bytes → Bytes
or_empty none = []
or_empty (some d) = d

unfoldable pub alert_latest : Alerts → Alert
alert_latest a = a.s_latest

unfoldable pub alerts_subscribe : Alerts → Alerts
alerts_subscribe a = record a { subscribed = true; notified = a.s_latest ∷ a.notified }

unfoldable pub alert_raise : AlertCode → Option Bytes → Alerts → Alerts
alert_raise code detail_opt a =
    let seq = u16 (a.s_seq + 1) in
    let rec : Alert = record { seq = seq; code = code; detail = take 79 (or_empty detail_opt) } in
    record a {
      s_latest = rec;
      s_seq = seq;
      notified = if a.subscribed then rec ∷ a.notified else a.notified;
    }
