-- ===== src/System/Confirmed.antt =====
-- An image that is confirmed stays: no event restarts the device.
use esp32_remot_control.Prelude.{
  ℕ, suc, pred, ◌+◌, ◌≡◌, ◌≢◌, refl, ap, sym, ◌∙◌, true, false, Option, none, some, ◌∷◌, ◌++◌,
  Bytes, codes, if◌then◌else◌, Bool-cases, inl, inr, arith,
}
use esp32_remot_control.Esp.{Partition}
use esp32_remot_control.Mode.{normal, recovery}
use esp32_remot_control.Errsrc.{es_none, es_no_creds, es_ip_lost, errsrc_get_code, errsrc_set}
use esp32_remot_control.Device.{Device, Platform, Step, runs, restarts}
use esp32_remot_control.Monitor.{health_monitor_control_ok}
use esp32_remot_control.Monitor.Policy.{monitor_on_wifi_error, enqueue_recovery}
use esp32_remot_control.Syscoord.{
  syscoord_on_wifi_state, syscoord_control_path_ok, syscoord_mark_tcp_authed, syscoord_worker,
  running_unconfirmed, syscoord_on_ble_service_started, syscoord_on_no_control_path, take_event,
  enter_recovery, confirm,
}
use esp32_remot_control.Wifi.{
  WifiEvent, sta_start, sta_disconnected, sta_stop, other_wifi_event, wifi_evt, got_ip, got_ip_lost,
  report, scheduled, settled, error_of, is_specific, wifi_tcp_timer_is_active,
  wifi_tcp_timer_stop_if_active,
}
use esp32_remot_control.System.{
  Event, handle, Runs, here, next, wifi, ip_got, ip_lost, auth_ok, no_control, coordinator,
  control_ok, fallback_worker, watchdog, service_started, ble_ota_started, gap, ble_connected,
}
use esp32_remot_control.System.Settled.{
  unconfirmed_at, IsConfirmed, MarksValid, Stays, if-Stays, and_then-Stays, running_unconfirmed_lem,
  on_wifi_error-Stays, report-Stays, set_mode-confirms, wifi_state-confirms, stays,
}

-- Confirmations that are the same, from a device that is confirmed.
Stays-same : {n m : ℕ} (s : Step) → n ≡ m → Stays n s → Stays m s
Stays-same s e t = rw e at t

wifi_evt-Stays :
    (p : Platform) (r : ℕ) (e : WifiEvent) (d : Device)
    → IsConfirmed p d.confirms
    → Stays d.confirms (wifi_evt p r e d)
unfolding wifi_evt scheduled
wifi_evt-Stays p r (sta_start has_ssid) d c =
    if-Stays has_ssid (stays refl) (report-Stays p es_no_creds d c)
wifi_evt-Stays p r (sta_disconnected reason) d c =
    let d1 = record d {
      wifi =
          if wifi_tcp_timer_is_active d.wifi then wifi_tcp_timer_stop_if_active d.wifi else d.wifi;
    } in
    let d2 = syscoord_on_wifi_state false d1 in
    let same = wifi_state-confirms false d1 in
    and_then-Stays (report p (error_of reason) d2) (λ d3. runs (scheduled r d3))
      (Stays-same (report p (error_of reason) d2) same (
        report-Stays p (error_of reason) d2
          (ap (λ n. unconfirmed_at p n p.running_partition) same ∙ c)))
      (λ d3 h. stays h)
wifi_evt-Stays p r sta_stop d c = stays (wifi_state-confirms false d)
wifi_evt-Stays p r other_wifi_event d c = stays refl

got_ip-Stays :
    (p : Platform) (ip : Bytes) (d : Device)
    → IsConfirmed p d.confirms
    → Stays d.confirms (got_ip p ip d)
unfolding got_ip settled syscoord_on_wifi_state
got_ip-Stays p ip d c =
    let d1 = record d { statuses = (codes "WIFI: GOT IP ip=" ++ ip) ∷ d.statuses } in
    let d3 = record d1 { errsrc = errsrc_set none d1.errsrc } in
    and_then-Stays (monitor_on_wifi_error p es_none d3) (λ d4. runs (settled d4))
      (on_wifi_error-Stays p es_none d3 c) (λ d4 h. stays h)

got_ip_lost-Stays :
    (p : Platform) (d : Device) → IsConfirmed p d.confirms → Stays d.confirms (got_ip_lost p d)
unfolding got_ip_lost
got_ip_lost-Stays p d c =
    let d1 = syscoord_on_wifi_state false d in
    let same = wifi_state-confirms false d in
    if-Stays (is_specific (errsrc_get_code d1.errsrc)) (stays same) (
      Stays-same (report p es_ip_lost d1) same
        (report-Stays p es_ip_lost d1 (ap (λ n. unconfirmed_at p n p.running_partition) same ∙ c)))

-- A confirmation of a confirmed image changes nothing.
confirm-confirms :
    (p : Platform) (d : Device) → IsConfirmed p d.confirms → (confirm p d).confirms ≡ d.confirms
unfolding confirm
confirm-confirms p d c = let e = running_unconfirmed_lem p d p.running_partition ∙ c in rw e refl

control_ok-confirms :
    (p : Platform) (source : Option Bytes) (d : Device)
    → IsConfirmed p d.confirms
    → (syscoord_control_path_ok p source d).confirms ≡ d.confirms
unfolding syscoord_control_path_ok
control_ok-confirms p source d c =
    let d1 = confirm p d in
    ground (
      arith,
      confirm-confirms p d c,
      set_mode-confirms normal (record d1 { monitor = health_monitor_control_ok d1.monitor }),
    )

taken-confirms : (o : Option ℕ) (d : Device) → (take_event o d).confirms ≡ d.confirms
unfolding take_event enter_recovery
taken-confirms none d = refl
taken-confirms (some n) d =
    ground (arith, set_mode-confirms recovery (record d { recoveries = some (pred n) }))

handle-Stays :
    (p : Platform) (e : Event) (d : Device)
    → IsConfirmed p d.confirms
    → Stays d.confirms (handle p e d)
unfolding handle syscoord_on_no_control_path enqueue_recovery syscoord_mark_tcp_authed
    syscoord_on_ble_service_started syscoord_worker
handle-Stays p (wifi r e) d c = wifi_evt-Stays p r e d c
handle-Stays p (ip_got ip) d c = got_ip-Stays p ip d c
handle-Stays p ip_lost d c = got_ip_lost-Stays p d c
handle-Stays p auth_ok d c =
    stays (control_ok-confirms p (some (codes "TCP")) (syscoord_mark_tcp_authed d) c)
handle-Stays p no_control d c = stays refl
handle-Stays p coordinator d c = stays (taken-confirms d.recoveries d)
handle-Stays p (control_ok source) d c = stays (control_ok-confirms p source d c)
handle-Stays p fallback_worker d c = stays refl
handle-Stays p watchdog d c = stays refl
handle-Stays p service_started d c = stays (ground arith)
handle-Stays p ble_ota_started d c = stays refl
handle-Stays p (gap e) d c = stays refl
handle-Stays p (ble_connected on) d c = stays refl

Stays-runs : {n : ℕ} (s : Step) (d : Device) → Stays n s → s ≡ runs d → d.confirms ≡ n
Stays-runs (runs c) d (stays e) h = ground arith
Stays-runs (restarts c) d t h = elim t [ ]

Stays-restarts : {n : ℕ} (s : Step) (d : Device) → Stays n s → s ≢ restarts d
Stays-restarts (runs c) d t h = absurd cc
Stays-restarts (restarts c) d t h = elim t [ ]

pub Runs-IsConfirmed :
    (p : Platform) (d d' : Device)
    → Runs p d d'
    → IsConfirmed p d.confirms
    → IsConfirmed p d'.confirms
Runs-IsConfirmed p d d' here c = c
Runs-IsConfirmed p d d' (next {d1 = d1} e r h) c =
    let c1 = Runs-IsConfirmed p d d1 r c in
    ap (λ n. unconfirmed_at p n p.running_partition)
      (Stays-runs (handle p e d1) d' (handle-Stays p e d1 c1) h)
    ∙ c1

pub confirmed_runs_on :
    (p : Platform) (e : Event) (d d' : Device)
    → IsConfirmed p d.confirms
    → handle p e d ≢ restarts d'
confirmed_runs_on p e d d' c = Stays-restarts (handle p e d) d' (handle-Stays p e d c)

-- Behind a proof of control the image is confirmed.
confirm-IsConfirmed :
    (p : Platform) (d : Device) → MarksValid p → IsConfirmed p (confirm p d).confirms
unfolding confirm
confirm-IsConfirmed p d m = elim (Bool-cases (running_unconfirmed p d p.running_partition)) [
  | inl y ↦ rw y (marked p.running_partition)
  | inr n ↦ rw n (sym (running_unconfirmed_lem p d p.running_partition) ∙ n)
]
  where
    marked : (run : Option Partition) → unconfirmed_at p (d.confirms + 1) run ≡ false
    marked none = refl
    marked (some run) =
        let e : d.confirms + 1 ≡ suc d.confirms = omega arith in rw e (m d.confirms run)

pub proof-IsConfirmed :
    (p : Platform) (d : Device)
    → MarksValid p
    → IsConfirmed p
        (syscoord_control_path_ok p (some (codes "TCP")) (syscoord_mark_tcp_authed d)).confirms
unfolding syscoord_control_path_ok syscoord_mark_tcp_authed
proof-IsConfirmed p d m =
    let d0 = record d { tcp_authed = true } in
    let d1 = confirm p d0 in
    ap (λ n. unconfirmed_at p n p.running_partition)
      (set_mode-confirms normal (record d1 { monitor = health_monitor_control_ok d1.monitor }))
    ∙ confirm-IsConfirmed p d0 m
