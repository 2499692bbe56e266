-- ===== src/Syscoord.antt =====
-- components/syscoord: the modes of the device and their transitions. The handlers on TCP clients
-- and on BLE connections ignore what they are told.
use esp32_remot_control.Prelude.{
  ℕ, ◌+◌, Bool, true, false, not, ◌&&◌, Option, none, some, ltb, pred, if◌then◌else◌, codes, Bytes,
  equal,
}
use esp32_remot_control.Esp.{Partition}
use esp32_remot_control.Mode.{Mode, startup, wait_control, normal, recovery, is_normal, is_recovery}
use esp32_remot_control.Alerts.{alert_raise, alert_ble_fatal, alerts_subscribe}
use esp32_remot_control.Bootflag.{bootflag_set_post_rollback}
use esp32_remot_control.Fallback.{
  ble_lifeboat_set, ble_fallback_stop, ble_fallback_init, ble_start_advertising,
}
use esp32_remot_control.Monitor.{
  monitor_set_timeout_cb, health_monitor_start, health_monitor_control_ok,
}
use esp32_remot_control.Monitor.Policy.{state_is_unconfirmed, enqueue_recovery}
use esp32_remot_control.Device.{Device, Platform}

abbrev pub same_mode : Mode → Mode → Bool
same_mode startup startup = true
same_mode wait_control wait_control = true
same_mode normal normal = true
same_mode recovery recovery = true
same_mode _ _ = false

-- `ble_lifeboat_set(false); ble_fallback_stop()`
hide_ble : Device → Device
hide_ble d = record d { fb = ble_fallback_stop (ble_lifeboat_set false d.fb) }

-- The switch of `set_mode`.
on_entry : Mode → Device → Device
unfolding hide_ble
on_entry startup d = d
on_entry wait_control d =
    let d' = hide_ble d in record d' { monitor = health_monitor_start d'.monitor }
on_entry normal d =
    let d' = hide_ble d in record d' { nvs = bootflag_set_post_rollback false d'.nvs }
on_entry recovery d = d

unfoldable pub set_mode : Mode → Device → Device
unfolding on_entry
set_mode m d = if same_mode d.mode m then d else on_entry m (record d { mode = m })

-- `created`: whether the queue of the worker can be created.
unfoldable pub syscoord_init : Bool → Device → Device
syscoord_init created d = set_mode wait_control (record d {
  recoveries = if created then some 0 else none;
  monitor = monitor_set_timeout_cb true d.monitor;
  alerts = alerts_subscribe d.alerts;
})

unfoldable pub syscoord_get_mode : Device → Mode
syscoord_get_mode d = d.mode

unfoldable pub syscoord_on_wifi_state : Bool → Device → Device
syscoord_on_wifi_state up d =
    if not up
    then (let d' = record d { tcp_authed = false } in
        if is_normal d.mode then set_mode wait_control d' else d')
    else d

unfoldable pub syscoord_on_ble_service_started : Platform → Device → Device
syscoord_on_ble_service_started p d =
    if is_recovery d.mode
    then (if p.feature_ble_lifeboat then record d { fb = ble_start_advertising d.fb } else d)
    else d

unfoldable pub syscoord_mark_tcp_authed : Device → Device
syscoord_mark_tcp_authed d = record d { tcp_authed = true }

-- Is the running image new or pending?
unfoldable pub running_unconfirmed : Platform → Device → Option Partition → Bool
running_unconfirmed p d none = false
running_unconfirmed p d (some run) = state_is_unconfirmed (p.state_of d.confirms run)

-- `esp_ota_mark_app_valid_cancel_rollback`, for an image that is new or pending.
unfoldable pub confirm : Platform → Device → Device
unfolding running_unconfirmed
confirm p d = record d {
  confirms = if running_unconfirmed p d p.running_partition then d.confirms + 1 else d.confirms;
}

abbrev pub is_tcp : Option Bytes → Bool
is_tcp none = false
is_tcp (some source) = equal source (codes "TCP")

unfoldable pub syscoord_control_path_ok : Platform → Option Bytes → Device → Device
unfolding confirm
syscoord_control_path_ok p source d =
    if not (is_tcp source && d.tcp_authed)
    then d
    else (let d1 = confirm p d in
        set_mode normal (record d1 { monitor = health_monitor_control_ok d1.monitor }))

unfoldable pub syscoord_on_no_control_path : Device → Device
syscoord_on_no_control_path d = enqueue_recovery d

-- What the worker does on `SYS_EVT_ENTER_RECOVERY`.
unfoldable pub enter_recovery : Device → Device
enter_recovery d =
    let d1 = set_mode recovery d in
    record d1 {
      fb = ble_lifeboat_set true (ble_fallback_init d1.fb);
      alerts =
          alert_raise alert_ble_fatal (some (codes "recovery mode: no control after rollback"))
            d1.alerts;
    }

-- One round of the worker, if the queue holds an event.
unfoldable pub take_event : Option ℕ → Device → Device
take_event none d = d
take_event (some n) d =
    if ltb 0 n then enter_recovery (record d { recoveries = some (pred n) }) else d

unfoldable pub syscoord_worker : Device → Device
unfolding take_event
syscoord_worker d = take_event d.recoveries d
