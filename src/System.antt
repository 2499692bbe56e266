-- ===== src/System.antt =====
-- The whole device: the events of its tasks and of the stacks below it, as a step relation. An event
-- is one call of a handler of components/syscoord, components/net/wifi, components/monitor or
-- components/ble/fallback; uploads, which end with a restart of their own, are not among them.
pub mod Invariant
pub mod Keeps
pub mod Reachable
pub mod Recovery
pub mod Policy
pub mod Views
pub mod Refinement
pub mod Settled
pub mod Confirmed
pub mod Fixtures
mod Examples
use esp32_remot_control.Prelude.{ℕ, Bool, Option, some, none, Bytes, codes, ◌≡◌}
use esp32_remot_control.Device.{Device, Platform, Step, runs, restarts}
use esp32_remot_control.Fallback.{GapEvent, ble_worker, adv_watch_cb, fb_gap_evt, ble_set_connected}
use esp32_remot_control.Monitor.{health_monitor_control_ok}
use esp32_remot_control.Syscoord.{
  syscoord_mark_tcp_authed, syscoord_control_path_ok, syscoord_on_no_control_path,
  syscoord_on_ble_service_started, syscoord_worker,
}
use esp32_remot_control.Wifi.{WifiEvent, wifi_evt, got_ip, got_ip_lost}

-- `auth_ok` is the end of a successful AUTH over TCP in components/cmd/cmd_auth.c, and
-- `ble_ota_started` the call that the start of a BLE upload makes.
pub data Event : Type 0 where
  wifi : ℕ → WifiEvent → Event
  ip_got : Bytes → Event
  ip_lost auth_ok no_control coordinator : Event
  control_ok : Option Bytes → Event
  fallback_worker watchdog service_started ble_ota_started : Event
  gap : GapEvent → Event
  ble_connected : Bool → Event

unfoldable pub handle : Platform → Event → Device → Step
handle p (wifi r e) d = wifi_evt p r e d
handle p (ip_got ip) d = got_ip p ip d
handle p ip_lost d = got_ip_lost p d
handle p auth_ok d =
    runs (syscoord_control_path_ok p (some (codes "TCP")) (syscoord_mark_tcp_authed d))
handle p no_control d = runs (syscoord_on_no_control_path d)
handle p coordinator d = runs (syscoord_worker d)
handle p (control_ok source) d = runs (syscoord_control_path_ok p source d)
handle p fallback_worker d = runs (record d { fb = ble_worker p.adv_start d.fb })
handle p watchdog d = runs (record d { fb = adv_watch_cb d.fb })
handle p service_started d = runs (syscoord_on_ble_service_started p d)
handle p ble_ota_started d = runs (record d { monitor = health_monitor_control_ok d.monitor })
handle p (gap e) d = runs (record d { fb = fb_gap_evt e d.fb })
handle p (ble_connected on) d = runs (record d { fb = ble_set_connected on d.fb })

-- The runs of a device that does not restart.
pub data Runs (p : Platform) (d : Device) : Device → Type 0 where
  here : Runs p d d
  next : {d1 d2 : Device} (e : Event) → Runs p d d1 → handle p e d1 ≡ runs d2 → Runs p d d2
