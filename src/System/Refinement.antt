-- ===== src/System/Refinement.antt =====
-- The device refines the policy, event by event, and so over whole runs.
use esp32_remot_control.Prelude.{
  codes, pred, ℕ, ◌≡◌, refl, Bool, true, false, ◌&&◌, Option, none, some, List, [], ◌∷◌, ◌++◌,
  Bytes, if◌then◌else◌, arith,
}
use esp32_remot_control.Mode.{Mode, wait_control, normal, recovery}
use esp32_remot_control.Errsrc.{
  ErrCode, es_none, es_no_creds, es_ip_lost, errsrc_set, errsrc_set_enum, errsrc_get_code,
}
use esp32_remot_control.Device.{Device, Platform, Step, runs}
use esp32_remot_control.Monitor.{health_monitor_control_ok}
use esp32_remot_control.Monitor.Policy.{monitor_on_wifi_error, enqueue_recovery, queued}
use esp32_remot_control.Syscoord.{
  syscoord_on_wifi_state, syscoord_control_path_ok, syscoord_mark_tcp_authed, syscoord_worker,
  syscoord_on_ble_service_started, syscoord_on_no_control_path, take_event, enter_recovery,
  set_mode, confirm, is_tcp,
}
use esp32_remot_control.Wifi.{
  WifiEvent, sta_start, sta_disconnected, sta_stop, other_wifi_event, wifi_evt, got_ip, got_ip_lost,
  report, scheduled, settled, error_of, is_specific, wifi_tcp_timer_is_active,
  wifi_tcp_timer_stop_if_active,
}
use esp32_remot_control.System.{
  Event, handle, Runs, here, next, wifi, ip_got, ip_lost, auth_ok, no_control, coordinator,
  control_ok, fallback_worker, watchdog, service_started, ble_ota_started, gap, ble_connected,
}
use esp32_remot_control.System.Policy.{
  Policy, view, lost, proven, ask_if, answered, policy, PolicyRuns, stays, moves,
}
use esp32_remot_control.System.Views.{
  Views, runs-Views, if-Views, and_then-view, on_wifi_error-Views,
}

-- With no error, nothing is asked for.
on_no_error-view :
    (p : Platform) (d d' : Device) → monitor_on_wifi_error p es_none d ≡ runs d' → view d' ≡ view d
unfolding monitor_on_wifi_error
on_no_error-view p d d' h = ground arith

report-Views : (p : Platform) (e : ErrCode) (d : Device) → Views (view d) (report p e d)
unfolding report
report-Views p e d d' h =
    on_wifi_error-Views p e (record d { errsrc = errsrc_set_enum e d.errsrc }) d' h

-- The wait for control begins.
set_mode-view : (m : Mode) (d : Device) → view (set_mode m d) ≡ record (view d) { mode = m }
unfolding set_mode
set_mode-view m d = ground arith

wifi_down-view : (d : Device) → view (syscoord_on_wifi_state false d) ≡ lost (view d)
unfolding syscoord_on_wifi_state
wifi_down-view d = ground (arith, set_mode-view wait_control (record d { tcp_authed = false }))

-- What an event has led to, if the device runs on.
abbrev Follows : Event → Device → Step → Type 0
Follows e d s = (d' : Device) → s ≡ runs d' → (asks : Bool) × (view d' ≡ policy e asks (view d))

wifi_evt-Follows :
    (p : Platform) (r : ℕ) (e : WifiEvent) (d : Device) → Follows (wifi r e) d (wifi_evt p r e d)
unfolding wifi_evt scheduled
wifi_evt-Follows p r (sta_start true) d d' h = (false, ground arith)
wifi_evt-Follows p r (sta_start false) d d' h =
    let (asks, e) = report-Views p es_no_creds d d' h in (asks, ground (arith, e))
wifi_evt-Follows p r (sta_disconnected reason) d d' h =
    let d1 = record d {
      wifi =
          if wifi_tcp_timer_is_active d.wifi then wifi_tcp_timer_stop_if_active d.wifi else d.wifi;
    } in
    let d2 = syscoord_on_wifi_state false d1 in
    let (asks, e) =
      and_then-view (λ q. (asks : Bool) × (q ≡ ask_if asks (view d2)))
        (report p (error_of reason) d2) (scheduled r) (report-Views p (error_of reason) d2)
        (λ d3. refl) d' h in
    (asks, ground (arith, e, wifi_down-view d1))
wifi_evt-Follows p r sta_stop d d' h = (false, ground (arith, wifi_down-view d))
wifi_evt-Follows p r other_wifi_event d d' h = (false, ground arith)

got_ip_lost-Follows : (p : Platform) (d : Device) → Follows ip_lost d (got_ip_lost p d)
unfolding got_ip_lost
got_ip_lost-Follows p d d' h =
    let d1 = syscoord_on_wifi_state false d in
    let (asks, e) =
      if-Views (is_specific (errsrc_get_code d1.errsrc)) (runs-Views d1)
        (report-Views p es_ip_lost d1) d' h in
    (asks, ground (arith, e, wifi_down-view d))

got_ip-Follows : (p : Platform) (ip : Bytes) (d : Device) → Follows (ip_got ip) d (got_ip p ip d)
unfolding got_ip settled syscoord_on_wifi_state
got_ip-Follows p ip d d' h =
    let d1 = record d { statuses = (codes "WIFI: GOT IP ip=" ++ ip) ∷ d.statuses } in
    let d3 = record d1 { errsrc = errsrc_set none d1.errsrc } in
    (
      false,
      and_then-view (λ q. q ≡ view d) (monitor_on_wifi_error p es_none d3) settled
          (λ d4 r. on_no_error-view p d3 d4 r) (λ d4. refl) d' h,
    )

control_ok-view :
    (p : Platform) (source : Option Bytes) (d : Device)
    → view (syscoord_control_path_ok p source d)
      ≡ (if is_tcp source && d.tcp_authed then proven (view d) else view d)
unfolding syscoord_control_path_ok confirm
control_ok-view p source d =
    let d1 = confirm p d in
    ground
      (arith, set_mode-view normal (record d1 { monitor = health_monitor_control_ok d1.monitor }))

-- Recovery is entered for a request that waits, and only for one.
taken : (o : Option ℕ) (d : Device) → view (take_event o d) ≡ answered o (view d)
unfolding take_event enter_recovery
taken none d = refl
taken (some n) d = ground (arith, set_mode-view recovery (record d { recoveries = some (pred n) }))

-- An event that leaves the view.
other-Follows :
    (d d' : Device) (q : Policy)
    → view d' ≡ q
    → (d2 : Device) → runs d' ≡ runs d2
    → (asks : Bool) × (view d2 ≡ q)
other-Follows d d' q e d2 h = (false, ground (arith, e))

handle-Follows : (p : Platform) (e : Event) (d : Device) → Follows e d (handle p e d)
unfolding handle syscoord_on_no_control_path enqueue_recovery queued syscoord_mark_tcp_authed
    syscoord_on_ble_service_started syscoord_worker
handle-Follows p (wifi r e) d = wifi_evt-Follows p r e d
handle-Follows p (ip_got ip) d = got_ip-Follows p ip d
handle-Follows p ip_lost d = got_ip_lost-Follows p d
handle-Follows p auth_ok d = λ d' h.
    (false, ground (arith, control_ok-view p (some (codes "TCP")) (syscoord_mark_tcp_authed d)))
handle-Follows p no_control d = λ d' h. (false, ground arith)
handle-Follows p coordinator d = λ d' h. (false, ground (arith, taken d.recoveries d))
handle-Follows p (control_ok source) d = λ d' h. (false, ground (arith, control_ok-view p source d))
handle-Follows p fallback_worker d = λ d' h. (false, ground arith)
handle-Follows p watchdog d = λ d' h. (false, ground arith)
handle-Follows p service_started d = λ d' h. (false, ground arith)
handle-Follows p ble_ota_started d = λ d' h. (false, ground arith)
handle-Follows p (gap e) d = λ d' h. (false, ground arith)
handle-Follows p (ble_connected on) d = λ d' h. (false, ground arith)

-- The events of a run, the latest first.
unfoldable pub events : {p : Platform} {d d' : Device} → Runs p d d' → List Event
events here = []
events (next e r h) = e ∷ events r

-- Every run of the device is a run of the policy over the same events, in which the only choice is
-- whether the monitor asks for recovery behind a failure of Wi-Fi or a lost address.
pub Runs-refines :
    (p : Platform) (d d' : Device) (r : Runs p d d') → PolicyRuns (view d) (events r) (view d')
unfolding events
Runs-refines p d d' here = stays
Runs-refines p d d' (next {d1 = d1} e r h) =
    let (asks, moved) = handle-Follows p e d1 d' h in moves e asks (Runs-refines p d d1 r) moved
