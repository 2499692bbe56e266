-- ===== src/System/Keeps.antt =====
-- The handlers that may restart the device keep it coordinated if they do not.
use esp32_remot_control.Prelude.{
  not, if◌then◌else◌, leb, ℕ, ◌≡◌, refl, Bool, true, false, Option, none, some, ◌==◌, Bool-cases,
  ◌&&◌, inl, inr, arith, Bytes, codes, ◌++◌, ◌∷◌,
}
use esp32_remot_control.Esp.{EspErr, is_ok, Partition}
use esp32_remot_control.Device.{Device, Platform, Step, runs, restarts, and_then}
use esp32_remot_control.Errsrc.{
  ErrCode, es_none, es_no_creds, es_ip_lost, errsrc_get_code, errsrc_set, errsrc_set_enum,
}
use esp32_remot_control.Alerts.{alert_raise, alert_rollback_executed}
use esp32_remot_control.Bootflag.{bootflag_is_post_rollback}
use esp32_remot_control.Fallback.{Fb}
use esp32_remot_control.Monitor.Policy.{
  monitor_on_wifi_error, monitor_try_rollback_now, select_manual_fallback_target, manual_fallback,
  after_official, monitor_is_rollback_eligible, first_failure, second_failure, counted, is_es_none,
  enqueue_recovery,
}
use esp32_remot_control.Syscoord.{syscoord_on_wifi_state}
use esp32_remot_control.Wifi.{
  report, scheduled, settled, error_of, is_specific, wifi_tcp_timer_is_active,
  wifi_tcp_timer_stop_if_active, WifiEvent, sta_start, sta_disconnected, sta_stop, other_wifi_event,
  wifi_evt, got_ip, got_ip_lost,
}
use esp32_remot_control.System.Invariant.{
  IsCoordinated, IsCoordinated-other, on_wifi_state-IsCoordinated,
}

-- What a step leaves, if the device runs on.
pub data Keeps : Step → Type 0 where
  kept : {d : Device} → IsCoordinated d → Keeps (runs d)
  gone : {d : Device} → Keeps (restarts d)

pub manual_fallback-Keeps :
    (p : Platform) (target : Option Partition) (d : Device)
    → IsCoordinated d
    → Keeps (manual_fallback p target d)
unfolding manual_fallback
manual_fallback-Keeps p none d i = kept i
manual_fallback-Keeps p (some t) d i = gone

pub after_official-Keeps :
    (p : Platform) (o : Option EspErr) (d : Device) → IsCoordinated d → Keeps (after_official p o d)
unfolding after_official
after_official-Keeps p none d i = gone
after_official-Keeps p (some e) d i = elim (Bool-cases (is_ok e)) [
  | inl ok ↦ rw ok (kept i)
  | inr n ↦ rw n (manual_fallback-Keeps p (select_manual_fallback_target p p.running_partition) d i)
]

pub first_failure-Keeps : (p : Platform) (d : Device) → IsCoordinated d → Keeps (first_failure p d)
unfolding first_failure monitor_try_rollback_now
first_failure-Keeps p d i =
    elim (Bool-cases (
      monitor_is_rollback_eligible p d p.running_partition
      && not (bootflag_is_post_rollback d.nvs))) [
        | inl ok ↦ rw ok (
            after_official-Keeps p p.official_rollback
              (record d {
                alerts =
                    alert_raise alert_rollback_executed
                      (some (codes "no control path; rolling back")) d.alerts;
              })
              (IsCoordinated-other d _ refl refl refl (λ r. r) refl i))
        | inr n ↦ rw n (kept i)
      ]

pub if-Keeps :
    (b : Bool) (s t : Step)
    → (b ≡ true → Keeps s)
    → (b ≡ false → Keeps t)
    → Keeps (if b then s else t)
if-Keeps true s t y n = y refl
if-Keeps false s t y n = n refl

pub second_failure-Keeps : (d : Device) → IsCoordinated d → Keeps (second_failure d)
unfolding second_failure enqueue_recovery
second_failure-Keeps d i = kept (
    IsCoordinated-other d _ (ground arith) (ground arith) (ground arith) (ground arith)
      (ground arith) i)

pub on_wifi_error-Keeps :
    (p : Platform) (e : ErrCode) (d : Device)
    → IsCoordinated d
    → Keeps (monitor_on_wifi_error p e d)
unfolding monitor_on_wifi_error
on_wifi_error-Keeps p e d i =
    let i' = IsCoordinated-other d (counted d) refl refl refl (λ r. r) refl i in
    if-Keeps d.monitor.done _ _ (λ r. kept i)
      (λ r.
        if-Keeps (is_es_none e) _ _
          (λ n. kept (IsCoordinated-other d _ refl refl refl (λ t. t) refl i))
          (λ n.
            if-Keeps ((counted d).monitor.fail_streak == 1) _ _
              (λ o. first_failure-Keeps p (counted d) i')
              (λ o.
                if-Keeps (leb 2 (counted d).monitor.fail_streak) _ _
                  (λ t. second_failure-Keeps (counted d) i') (λ t. kept i'))))

-- A step after another.
pub and_then-Keeps :
    (s : Step) (k : Device → Step)
    → Keeps s
    → ((d : Device) → IsCoordinated d → Keeps (k d))
    → Keeps (and_then s k)
unfolding and_then
and_then-Keeps (runs d) k (kept i) h = h d i
and_then-Keeps (restarts d) k gone h = gone

pub report-Keeps :
    (p : Platform) (e : ErrCode) (d : Device) → IsCoordinated d → Keeps (report p e d)
unfolding report
report-Keeps p e d i =
    on_wifi_error-Keeps p e (record d { errsrc = errsrc_set_enum e d.errsrc })
      (IsCoordinated-other d _ refl refl refl (λ r. r) refl i)

pub wifi_evt-Keeps :
    (p : Platform) (r : ℕ) (e : WifiEvent) (d : Device) → IsCoordinated d → Keeps (wifi_evt p r e d)
unfolding wifi_evt scheduled
wifi_evt-Keeps p r (sta_start has_ssid) d i =
    if-Keeps has_ssid _ _ (λ _. kept (IsCoordinated-other d _ refl refl refl (λ t. t) refl i))
      (λ _. report-Keeps p es_no_creds d i)
wifi_evt-Keeps p r (sta_disconnected reason) d i =
    let d1 = record d {
      wifi =
          if wifi_tcp_timer_is_active d.wifi then wifi_tcp_timer_stop_if_active d.wifi else d.wifi;
    } in
    let i1 = IsCoordinated-other d d1 refl refl refl (λ t. t) refl i in
    let i2 = on_wifi_state-IsCoordinated false d1 i1 in
    and_then-Keeps _ _ (report-Keeps p (error_of reason) (syscoord_on_wifi_state false d1) i2)
      (λ d3 i3. kept (IsCoordinated-other d3 _ refl refl refl (λ t. t) refl i3))
wifi_evt-Keeps p r sta_stop d i = kept (on_wifi_state-IsCoordinated false d i)
wifi_evt-Keeps p r other_wifi_event d i = kept i

pub got_ip-Keeps :
    (p : Platform) (ip : Bytes) (d : Device) → IsCoordinated d → Keeps (got_ip p ip d)
unfolding got_ip settled
got_ip-Keeps p ip d i =
    let d1 = record d { statuses = (codes "WIFI: GOT IP ip=" ++ ip) ∷ d.statuses } in
    let i1 = IsCoordinated-other d d1 refl refl refl (λ t. t) refl i in
    let d2 = syscoord_on_wifi_state true d1 in
    let i2 = on_wifi_state-IsCoordinated true d1 i1 in
    and_then-Keeps _ _
      (on_wifi_error-Keeps p es_none (record d2 { errsrc = errsrc_set none d2.errsrc })
        (IsCoordinated-other d2 _ refl refl refl (λ t. t) refl i2))
      (λ d3 i3. kept (IsCoordinated-other d3 _ refl refl refl (λ t. t) refl i3))

pub got_ip_lost-Keeps : (p : Platform) (d : Device) → IsCoordinated d → Keeps (got_ip_lost p d)
unfolding got_ip_lost
got_ip_lost-Keeps p d i =
    let i1 = on_wifi_state-IsCoordinated false d i in
    if-Keeps (is_specific (errsrc_get_code (syscoord_on_wifi_state false d).errsrc)) _ _
      (λ _. kept i1) (λ _. report-Keeps p es_ip_lost (syscoord_on_wifi_state false d) i1)

-- A change of the fallback that leaves the lifeboat as it is.
pub fb-Keeps :
    (d : Device) (f : Fb)
    → f.lifeboat_enabled ≡ d.fb.lifeboat_enabled
    → IsCoordinated d
    → Keeps (runs (record d { fb = f }))
fb-Keeps d f e i = kept (IsCoordinated-other d _ e refl refl (λ t. t) refl i)
