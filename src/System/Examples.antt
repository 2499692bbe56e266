-- ===== src/System/Examples.antt =====
-- Tests and instances of the theorems on the modes, the monitor and Wi-Fi.
use esp32_remot_control.Prelude.{ℕ, ◌+◌, ◌*◌, ◌≤◌, ◌≡◌, refl, true, false, some, [], ◌∷◌, codes}
use esp32_remot_control.Mode.{wait_control, normal, recovery}
use esp32_remot_control.Errsrc.{es_no_ap}
use esp32_remot_control.Alerts.{alert_rollback_executed, alert_raise}
use esp32_remot_control.Bootflag.{bootflag_is_post_rollback, bootflag_set_post_rollback}
use esp32_remot_control.System.Fixtures.{factory, updated, settled_platform, booted}
use esp32_remot_control.Device.{Step, Device, runs, restarts}
use esp32_remot_control.Monitor.Policy.{
  monitor_on_wifi_error, monitor_is_rollback_eligible, monitor_try_rollback_now, manual_fallback,
  select_manual_fallback_target,
}
use esp32_remot_control.Monitor.Rollback.{RolledBack, monitor_on_wifi_error_restarts}
use esp32_remot_control.Syscoord.{
  set_mode, syscoord_init, syscoord_worker, syscoord_control_path_ok, syscoord_mark_tcp_authed,
  syscoord_get_mode,
}
use esp32_remot_control.Wifi.{
  no_ap_found, beacon_timeout, sta_disconnected, wifi_evt, wifi_backoff_schedule,
}
use esp32_remot_control.Wifi.Backoff.{wifi_backoff_schedule_bounds}
use esp32_remot_control.System.{here, next, handle, wifi, coordinator, auth_ok}
use esp32_remot_control.System.Invariant.{IsCoordinated}
use esp32_remot_control.System.Reachable.{booted-IsCoordinated}
use esp32_remot_control.System.Policy.{PolicyRuns, view, proven}
use esp32_remot_control.System.Refinement.{events, Runs-refines}
use esp32_remot_control.System.Recovery.{
  handle_all, is_recovered, stale_recovery, two_disconnects_recover,
}

abbrev in_normal : Device
in_normal = record booted {
  mode = normal;
  tcp_authed = true;
  recoveries = some 0;
  monitor = record { done = true; fail_streak = 0; has_timeout_cb = true };
}

booted-IsCoordinated_example : IsCoordinated (
    syscoord_control_path_ok settled_platform
      (some (codes "TCP"))
      (syscoord_mark_tcp_authed (syscoord_init true booted)))
unfolding handle
booted-IsCoordinated_example =
    booted-IsCoordinated settled_platform true booted
      (syscoord_control_path_ok settled_platform (some (codes "TCP"))
        (syscoord_mark_tcp_authed (syscoord_init true booted)))
      refl (next auth_ok here refl)

two_disconnects_recover_example :
    is_recovered (
      handle_all settled_platform
        (wifi 7 (sta_disconnected beacon_timeout)
          ∷ wifi 9 (sta_disconnected no_ap_found)
          ∷ coordinator
          ∷ [])
        in_normal)
    ≡ true
unfolding monitor_is_rollback_eligible
two_disconnects_recover_example =
    two_disconnects_recover settled_platform in_normal 7 9 beacon_timeout no_ap_found refl refl refl
      refl

stale_recovery_example :
    let d1 =
      syscoord_control_path_ok settled_platform (some (codes "TCP")) (
        syscoord_mark_tcp_authed (record in_normal { mode = wait_control; recoveries = some 1 })) in
    let d2 = syscoord_worker d1 in
    (syscoord_get_mode d1 ≡ normal)
    × (syscoord_get_mode d2 ≡ recovery)
    × (d2.tcp_authed ≡ true)
    × (d2.fb.lifeboat_enabled ≡ true)
stale_recovery_example =
    stale_recovery settled_platform (record in_normal { mode = wait_control; recoveries = some 1 })
      0 refl

abbrev rolled_back : Device
rolled_back = record booted {
  monitor = record { done = false; fail_streak = 1; has_timeout_cb = false };
  nvs = record { post_rb = some 1; readable = true; writable = true };
  boot = some factory;
  alerts = record {
    s_latest = record {
      seq = 1;
      code = alert_rollback_executed;
      detail = codes "no control path; rolling back";
    };
    s_seq = 1;
    subscribed = false;
    notified = [];
  };
}

monitor_on_wifi_error_restarts_example : RolledBack updated es_no_ap booted rolled_back
unfolding monitor_on_wifi_error monitor_is_rollback_eligible bootflag_is_post_rollback
    monitor_try_rollback_now select_manual_fallback_target bootflag_set_post_rollback alert_raise
    manual_fallback
monitor_on_wifi_error_restarts_example =
    monitor_on_wifi_error_restarts updated es_no_ap booted rolled_back refl

wifi_backoff_schedule_bounds_example :
    (x : ℕ) × ((wifi_backoff_schedule 1234567 booted.wifi).reconnect_in ≡ some x)
    × (500 ≤ 10 * x + 9 + 25)
    × (10 * x ≤ 525)
    × (47 ≤ x)
wifi_backoff_schedule_bounds_example = wifi_backoff_schedule_bounds 1234567 booted.wifi

abbrev device_of : Step → Device
device_of (runs d) = d
device_of (restarts d) = d

abbrev disconnected : Device
disconnected = device_of (wifi_evt settled_platform 3 (sta_disconnected no_ap_found) in_normal)

run_lem :
    handle settled_platform auth_ok (syscoord_init true booted)
    ≡ runs (
        syscoord_control_path_ok settled_platform
          (some (codes "TCP"))
          (syscoord_mark_tcp_authed (syscoord_init true booted)))
unfolding handle
run_lem = refl

Runs-refines_example :
    PolicyRuns
      (view (syscoord_init true booted))
      (auth_ok ∷ [])
      (proven (view (syscoord_init true booted)))
unfolding syscoord_init syscoord_control_path_ok syscoord_mark_tcp_authed set_mode events
Runs-refines_example =
    Runs-refines settled_platform (syscoord_init true booted)
      (syscoord_control_path_ok settled_platform (some (codes "TCP"))
        (syscoord_mark_tcp_authed (syscoord_init true booted)))
      (next auth_ok here run_lem)
