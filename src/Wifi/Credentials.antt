-- ===== src/Wifi/Credentials.antt =====
-- `wifi_set_credentials` of components/net/wifi/wifi_api.c.
use esp32_remot_control.Prelude.{ℕ, Bool, true, false, Option, some, [], ◌∷◌, Bytes, codes, take}
use esp32_remot_control.Device.{Device}
use esp32_remot_control.Errsrc.{errsrc_set}
use esp32_remot_control.Wifi.{wifi_backoff_stop_timer, wifi_backoff_reset, wifi_backoff_schedule}

-- The credentials in NVS, and the configuration of the driver (`wifi_config_t`).
pub record Station : Type 0 where
  pub saved : Option (Bytes × Bytes)
  pub ssid : Bytes
  pub password : Bytes
  pub wpa2 : Bool

-- NVS cannot be opened, or it can be and the writes fail, or they succeed.
pub data NvsAnswer : Type 0 where
  not_opened not_written written : NvsAnswer

abbrev pub is_nonempty : Bytes → Bool
is_nonempty [] = false
is_nonempty (c ∷ s) = true

-- The credentials have been saved: configure the driver and connect. `r` is what `esp_random` gives.
apply_credentials : ℕ → Bytes → Bytes → Device × Station → Device × Station
apply_credentials r ssid pwd (d, w) = (
  record d {
    errsrc = errsrc_set (some (codes "TRYING")) d.errsrc;
    wifi = wifi_backoff_schedule r (wifi_backoff_reset (wifi_backoff_stop_timer d.wifi));
  },
  record {
    saved = some (ssid, pwd);
    ssid = take 31 ssid;
    password = take 63 pwd;
    wpa2 = is_nonempty pwd;
  },
)

-- A write that fails is taken to leave NVS as it was.
unfoldable pub wifi_set_credentials :
    NvsAnswer → ℕ → Bytes → Bytes → Device × Station → Device × Station
unfolding apply_credentials
wifi_set_credentials not_opened r ssid pwd st = st
wifi_set_credentials not_written r ssid pwd st = st
wifi_set_credentials written r ssid pwd st = apply_credentials r ssid pwd st
