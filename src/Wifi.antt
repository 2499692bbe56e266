-- ===== src/Wifi.antt =====
-- components/net/wifi: the back-off and the event handlers.
pub mod Backoff
pub mod Credentials
pub mod Start
use esp32_remot_control.Prelude.{
  ℕ, ◌+◌, ◌-◌, ◌*◌, ◌/◌, ◌%◌, ◌^◌, Bool, true, false, not, Option, none, some, ◌∷◌, ◌++◌, ltb, ◌==◌,
  if◌then◌else◌, codes, Bytes, u32,
}
use esp32_remot_control.Errsrc.{
  ErrCode, es_none, es_no_creds, es_ip_lost, es_auth_expire, es_auth_fail, es_no_ap,
  es_4way_timeout, es_assoc_expire, es_beacon_to, es_disconnected, errsrc_set, errsrc_set_enum,
  errsrc_get_code,
}
use esp32_remot_control.Device.{Device, Wifi, Platform, Step, runs, and_then}
use esp32_remot_control.Monitor.Policy.{monitor_on_wifi_error}
use esp32_remot_control.Syscoord.{syscoord_on_wifi_state}

-- `WIFI_RECONN_BASE_MS`, `WIFI_RECONN_MAX_MS`, `WIFI_RECONN_JITTER_PCT`
abbrev pub reconn_base_ms : ℕ
reconn_base_ms = 500

abbrev pub reconn_max_ms : ℕ
reconn_max_ms = 30000

abbrev pub reconn_jitter_pct : ℕ
reconn_jitter_pct = 10

unfoldable pub wifi_backoff_reset : Wifi → Wifi
wifi_backoff_reset w = record w { s_retries = 0 }

unfoldable pub wifi_backoff_stop_timer : Wifi → Wifi
wifi_backoff_stop_timer w = record w { reconnect_in = none }

-- The delay before jitter.
unfoldable pub base_delay : ℕ → ℕ
base_delay retries =
    let delay_ms = u32 (reconn_base_ms * 2 ^ (if ltb retries 6 then retries else 6)) in
    if ltb reconn_max_ms delay_ms then reconn_max_ms else delay_ms

-- `r` is what `esp_random` gives. The sum `delay_ms + off` is that of the source, a signed one:
-- where it would be negative the delay is 0.
unfoldable pub jittered : ℕ → ℕ → ℕ
jittered r delay_ms =
    let span = u32 (delay_ms * reconn_jitter_pct) / 100 in
    if span == 0 then delay_ms else delay_ms + r % span - span / 2

-- `CONFIG_FREERTOS_HZ` of the sdkconfig: a tick is 10 ms.
abbrev pub freertos_hz : ℕ
freertos_hz = 100

-- `pdMS_TO_TICKS`: whole ticks, cut.
unfoldable pub pd_ms_to_ticks : ℕ → ℕ
pd_ms_to_ticks ms = u32 (ms * freertos_hz) / 1000

-- The timer can be created.
unfoldable pub wifi_backoff_schedule : ℕ → Wifi → Wifi
unfolding pd_ms_to_ticks
wifi_backoff_schedule r w = record w {
  reconnect_in = some (pd_ms_to_ticks (jittered r (base_delay w.s_retries)));
  s_retries = w.s_retries + 1;
}

abbrev pub is_running : Option Bool → Bool
is_running none = false
is_running (some running) = running

unfoldable pub wifi_tcp_timer_is_active : Wifi → Bool
wifi_tcp_timer_is_active w = is_running w.tcp_timer

abbrev pub set_running : Bool → Option Bool → Option Bool
set_running b none = none
set_running b (some running) = some b

unfoldable pub wifi_tcp_timer_create_once : Wifi → Wifi
wifi_tcp_timer_create_once w = record w { tcp_timer = created w.tcp_timer }
  where
    created : Option Bool → Option Bool
    created none = some false
    created (some running) = some running

unfoldable pub wifi_tcp_timer_stop_if_active : Wifi → Wifi
wifi_tcp_timer_stop_if_active w = record w { tcp_timer = set_running false w.tcp_timer }

unfoldable pub wifi_tcp_timer_schedule_us : Wifi → Wifi
wifi_tcp_timer_schedule_us w = record w { tcp_timer = set_running true w.tcp_timer }

-- The end of `got_ip`.
unfoldable pub settled : Device → Device
settled d =
    let w = wifi_backoff_stop_timer (wifi_backoff_reset d.wifi) in
    record d { wifi = if not (wifi_tcp_timer_is_active w) then wifi_tcp_timer_schedule_us w else w }

unfoldable pub got_ip : Platform → Bytes → Device → Step
unfolding settled
got_ip p ip d =
    let d1 = record d { statuses = (codes "WIFI: GOT IP ip=" ++ ip) ∷ d.statuses } in
    let d2 = syscoord_on_wifi_state true d1 in
    let d3 = record d2 { errsrc = errsrc_set none d2.errsrc } in
    and_then (monitor_on_wifi_error p es_none d3) (λ d4. runs (settled d4))

-- A failure of Wi-Fi that a lost address does not replace.
abbrev pub is_specific : ErrCode → Bool
is_specific es_no_ap = true
is_specific es_auth_fail = true
is_specific es_assoc_expire = true
is_specific es_4way_timeout = true
is_specific es_beacon_to = true
is_specific _ = false

-- `errsrc_set_enum(e); monitor_on_wifi_error(e)`
unfoldable pub report : Platform → ErrCode → Device → Step
report p e d = monitor_on_wifi_error p e (record d { errsrc = errsrc_set_enum e d.errsrc })

unfoldable pub got_ip_lost : Platform → Device → Step
unfolding report
got_ip_lost p d =
    let d1 = syscoord_on_wifi_state false d in
    if is_specific (errsrc_get_code d1.errsrc) then runs d1 else report p es_ip_lost d1

-- The reasons of a disconnect that the source names.
pub data Reason : Type 0 where
  auth_expire auth_fail no_ap_found handshake_timeout assoc_expire beacon_timeout : Reason
  other_reason : Reason

abbrev pub error_of : Reason → ErrCode
error_of auth_expire = es_auth_expire
error_of auth_fail = es_auth_fail
error_of no_ap_found = es_no_ap
error_of handshake_timeout = es_4way_timeout
error_of assoc_expire = es_assoc_expire
error_of beacon_timeout = es_beacon_to
error_of other_reason = es_disconnected

-- The events that `wifi_evt` handles: a start with whether an SSID is configured, a disconnect.
pub data WifiEvent : Type 0 where
  sta_start : Bool → WifiEvent
  sta_disconnected : Reason → WifiEvent
  sta_stop other_wifi_event : WifiEvent

unfoldable pub scheduled : ℕ → Device → Device
scheduled r d = record d { wifi = wifi_backoff_schedule r d.wifi }

unfoldable pub wifi_evt : Platform → ℕ → WifiEvent → Device → Step
unfolding report scheduled
wifi_evt p r (sta_start has_ssid) d =
    if has_ssid
    then runs (scheduled r (record d { errsrc = errsrc_set (some (codes "SCANNING")) d.errsrc }))
    else report p es_no_creds d
wifi_evt p r (sta_disconnected reason) d =
    let d1 = record d {
      wifi =
          if wifi_tcp_timer_is_active d.wifi then wifi_tcp_timer_stop_if_active d.wifi else d.wifi;
    } in
    let d2 = syscoord_on_wifi_state false d1 in
    and_then (report p (error_of reason) d2) (λ d3. runs (scheduled r d3))
wifi_evt p r sta_stop d = runs (syscoord_on_wifi_state false d)
wifi_evt p r other_wifi_event d = runs d
