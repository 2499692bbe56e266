-- ===== src/System/Fixtures.antt =====
-- A platform and a device for the tests.
use esp32_remot_control.Prelude.{true, false, none, some, [], codes}
use esp32_remot_control.Esp.{esp_ok, esp_fail, Partition, new, valid}
use esp32_remot_control.Mode.{startup}
use esp32_remot_control.Errsrc.{es_none}
use esp32_remot_control.Alerts.{alert_none}
use esp32_remot_control.Fallback.{running}
use esp32_remot_control.Device.{Device, Platform}

abbrev pub factory : Partition
factory = record { subtype = 0; address = 65536; size = 1048576 }

abbrev pub ota_0 : Partition
ota_0 = record { subtype = 16; address = 2228224; size = 2097152 }

-- A device that runs an unconfirmed image, beside a factory one.
abbrev pub updated : Platform
updated = record {
  running_partition = some ota_0;
  state_of = λ n p. some new;
  find_first = λ subtype. some factory;
  official_rollback = some esp_fail;
  set_boot = λ q. esp_ok;
  adv_start = esp_ok;
  feature_ble_lifeboat = true;
}

-- One whose image is confirmed.
abbrev pub settled_platform : Platform
settled_platform = record updated { state_of = λ n p. some valid }

abbrev pub booted : Device
booted = record {
  mode = startup;
  tcp_authed = false;
  recoveries = none;
  monitor = record { done = false; fail_streak = 0; has_timeout_cb = false };
  fb = record {
    stack_ready = true;
    adv_ready = true;
    adv_running = false;
    connected = false;
    lifeboat_enabled = false;
    adv_start_deferred = false;
    adv_cfg = true;
    scan_rsp_cfg = true;
    kicks = some 0;
    watch = running;
    gap = [];
  };
  nvs = record { post_rb = none; readable = true; writable = true };
  alerts = record {
    s_latest = record { seq = 0; code = alert_none; detail = [] };
    s_seq = 0;
    subscribed = false;
    notified = [];
  };
  errsrc = record { s_err = codes "NONE"; s_last = es_none; subscribed = false; notified = [] };
  wifi = record { s_retries = 0; reconnect_in = none; tcp_timer = some false };
  boot = none;
  confirms = 0;
  statuses = [];
}
