-- ===== src/System/Reachable.antt =====
-- Every state that a booted device reaches without a restart is coordinated.
use esp32_remot_control.Prelude.{◌≡◌, refl, Bool, true, none, some, arith, codes, if◌then◌else◌}
use esp32_remot_control.Mode.{startup}
use esp32_remot_control.Device.{Device, Platform, Step, runs, restarts}
use esp32_remot_control.Alerts.{alerts_subscribe}
use esp32_remot_control.Fallback.{
  ble_worker, adv_watch_cb, fb_gap_evt, ble_set_connected, ble_start_advertising,
}
use esp32_remot_control.Monitor.{monitor_set_timeout_cb, health_monitor_control_ok}
use esp32_remot_control.Monitor.Policy.{enqueue_recovery}
use esp32_remot_control.Syscoord.{
  syscoord_init, syscoord_mark_tcp_authed, syscoord_on_no_control_path,
  syscoord_on_ble_service_started, syscoord_worker,
}
use esp32_remot_control.System.{
  Event, handle, Runs, here, next, wifi, ip_got, ip_lost, auth_ok, no_control, coordinator,
  control_ok, fallback_worker, watchdog, service_started, ble_ota_started, gap, ble_connected,
}
use esp32_remot_control.System.Invariant.{
  IsCoordinated, IsCoordinated-other, fb_gap_evt-lifeboat, set_mode-wait,
  control_path_ok-IsCoordinated, take_event-IsCoordinated,
}
use esp32_remot_control.System.Keeps.{
  Keeps, kept, gone, wifi_evt-Keeps, got_ip-Keeps, got_ip_lost-Keeps, fb-Keeps,
}

mark_tcp_authed-IsCoordinated :
    (d : Device) → IsCoordinated d → IsCoordinated (syscoord_mark_tcp_authed d)
unfolding syscoord_mark_tcp_authed
mark_tcp_authed-IsCoordinated d i = record {
  lifeboat = i.lifeboat;
  authed = λ n. refl;
  at_rest = i.at_rest;
  flag_clear = i.flag_clear;
}

service_started-Keeps :
    (p : Platform) (d : Device)
    → IsCoordinated d
    → Keeps (runs (syscoord_on_ble_service_started p d))
unfolding syscoord_on_ble_service_started ble_start_advertising
service_started-Keeps p d i = kept (
    IsCoordinated-other d _ (ground arith) (ground arith) (ground arith) (ground arith)
      (ground arith) i)

-- Every event keeps the device coordinated, unless the device restarts.
handle-Keeps : (p : Platform) (e : Event) (d : Device) → IsCoordinated d → Keeps (handle p e d)
unfolding handle syscoord_worker syscoord_on_no_control_path enqueue_recovery ble_worker
    adv_watch_cb ble_set_connected health_monitor_control_ok
handle-Keeps p (wifi r e) d i = wifi_evt-Keeps p r e d i
handle-Keeps p (ip_got ip) d i = got_ip-Keeps p ip d i
handle-Keeps p ip_lost d i = got_ip_lost-Keeps p d i
handle-Keeps p auth_ok d i = kept (
    control_path_ok-IsCoordinated p (some (codes "TCP")) (syscoord_mark_tcp_authed d)
      (mark_tcp_authed-IsCoordinated d i))
handle-Keeps p no_control d i = kept (IsCoordinated-other d _ refl refl refl (λ t. t) refl i)
handle-Keeps p coordinator d i = kept (take_event-IsCoordinated d.recoveries d i)
handle-Keeps p (control_ok source) d i = kept (control_path_ok-IsCoordinated p source d i)
handle-Keeps p fallback_worker d i = fb-Keeps d (ble_worker p.adv_start d.fb) (ground arith) i
handle-Keeps p watchdog d i = fb-Keeps d (adv_watch_cb d.fb) (ground arith) i
handle-Keeps p service_started d i = service_started-Keeps p d i
handle-Keeps p ble_ota_started d i =
    kept (IsCoordinated-other d _ refl refl refl (ground arith) refl i)
handle-Keeps p (gap e) d i = fb-Keeps d (fb_gap_evt e d.fb) (fb_gap_evt-lifeboat e d.fb) i
handle-Keeps p (ble_connected on) d i = fb-Keeps d (ble_set_connected on d.fb) (ground arith) i

Keeps-runs : (s : Step) (d : Device) → Keeps s → s ≡ runs d → IsCoordinated d
Keeps-runs (runs c) d (kept i) e = let same : c ≡ d = cc in rw⁻¹ same i
Keeps-runs (restarts c) d gone e = absurd cc

pub Runs-IsCoordinated :
    (p : Platform) (d d' : Device) → Runs p d d' → IsCoordinated d → IsCoordinated d'
Runs-IsCoordinated p d d' here i = i
Runs-IsCoordinated p d d' (next {d1 = d1} e r h) i =
    Keeps-runs (handle p e d1) d' (handle-Keeps p e d1 (Runs-IsCoordinated p d d1 r i)) h

-- `syscoord_init` on a device that has just booted.
pub init-IsCoordinated :
    (created : Bool) (d : Device) → d.mode ≡ startup → IsCoordinated (syscoord_init created d)
unfolding syscoord_init
init-IsCoordinated created d m =
    set_mode-wait
      (record d {
        recoveries = if created then some 0 else none;
        monitor = monitor_set_timeout_cb true d.monitor;
        alerts = alerts_subscribe d.alerts;
      })
      (ground arith)

-- In every state that a booted device reaches from `syscoord_init` without a restart, the lifeboat is
-- enabled only in recovery, and in normal mode a TCP client has authenticated since the link was last
-- lost (`g_tcp_authed`; it may have left), the monitor is at rest, and the post-rollback flag is not set
-- where NVS can be read and written.
pub booted-IsCoordinated :
    (p : Platform) (created : Bool) (d d' : Device)
    → d.mode ≡ startup
    → Runs p (syscoord_init created d) d'
    → IsCoordinated d'
booted-IsCoordinated p created d d' m r =
    Runs-IsCoordinated p (syscoord_init created d) d' r (init-IsCoordinated created d m)
