-- ===== src/Examples.antt =====
-- Tests and instances of the theorems on the small components.
use esp32_remot_control.Prelude.{
  ◌≡◌, refl, List, Option, Bytes, true, false, none, some, [], ◌∷◌, take, codes, arith,
}
use esp32_remot_control.Esp.{esp_ok}
use esp32_remot_control.Errsrc.{Errsrc, es_none, str_to_enum, errsrc_set}
use esp32_remot_control.Errsrc.Sync.{IsSynced, errsrc_set-IsSynced}
use esp32_remot_control.Alerts.{
  Alerts, AlertCode, alert_none, alert_tcp_fatal, alert_ble_fatal, alert_latest,
}
use esp32_remot_control.Alerts.Sequence.{raise_all, numbered, heard, notified-raise_all}
use esp32_remot_control.Fallback.{
  Fb, running, start_advertising, scan_rsp_data_set, adv_data_set, ble_worker, fb_gap_evt,
  ble_lifeboat_set,
}
use esp32_remot_control.Fallback.Advertising.{worker, starts, apply, starts-apply}
use esp32_remot_control.Fallback.Lifeboat.{lifeboat_deferred_starts}

abbrev fresh : Errsrc
fresh = record { s_err = codes "NONE"; s_last = es_none; subscribed = true; notified = [] }

fresh-IsSynced : IsSynced fresh
unfolding str_to_enum
fresh-IsSynced = record { agrees = refl; short = omega arith }

errsrc_set-IsSynced_example : IsSynced (errsrc_set (some (codes "NO_AP")) fresh)
errsrc_set-IsSynced_example = errsrc_set-IsSynced (some (codes "NO_AP")) fresh fresh-IsSynced

abbrev quiet : Alerts
quiet = record {
  s_latest = record { seq = 0; code = alert_none; detail = [] };
  s_seq = 65535;
  subscribed = true;
  notified = [];
}

abbrev two_alerts : List (AlertCode × Option Bytes)
two_alerts = (alert_tcp_fatal, some (codes "bind")) ∷ (alert_ble_fatal, none) ∷ []

notified-raise_all_example :
    let b = raise_all two_alerts quiet in
    (b.notified ≡ heard (numbered 65535 two_alerts) []) × (take 1 b.notified ≡ alert_latest b ∷ [])
notified-raise_all_example =
    notified-raise_all ((alert_tcp_fatal, some (codes "bind")) ∷ []) (alert_ble_fatal, none) quiet
      refl

abbrev idle : Fb
idle = record {
  stack_ready = true;
  adv_ready = true;
  adv_running = false;
  connected = false;
  lifeboat_enabled = true;
  adv_start_deferred = false;
  adv_cfg = true;
  scan_rsp_cfg = true;
  kicks = some 1;
  watch = running;
  gap = [];
}

starts-idle : starts (apply (worker esp_ok) idle).gap ≡ 1
unfolding apply ble_worker
starts-idle = refl

starts-apply_example :
    (idle.lifeboat_enabled ≡ true)
    × (idle.stack_ready ≡ true)
    × (idle.adv_ready ≡ true)
    × (idle.connected ≡ false)
starts-apply_example = starts-apply (worker esp_ok) idle (λ e. omega (arith, starts-idle, e))

abbrev off : Fb
off = record idle { lifeboat_enabled = false; kicks = some 0 }

abbrev early : Fb
early = record off { adv_ready = false; adv_cfg = false; scan_rsp_cfg = false }

lifeboat_deferred_starts_example :
    (ble_worker esp_ok (
      fb_gap_evt
        (adv_data_set true)
        (fb_gap_evt (scan_rsp_data_set true) (ble_lifeboat_set true early)))).gap
    ≡ start_advertising ∷ []
lifeboat_deferred_starts_example = lifeboat_deferred_starts early true refl refl refl refl refl refl
