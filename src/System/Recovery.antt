-- ===== src/System/Recovery.antt =====
-- The ways into recovery.
use esp32_remot_control.Prelude.{
  ap, ◌∙◌, ◌||◌, not, ◌&&◌, leb, ◌==◌, if◌then◌else◌, ℕ, ◌+◌, ◌≡◌, refl, Bool, true, false, Option,
  none, some, List, [], ◌∷◌, codes, arith,
}
use esp32_remot_control.Mode.{is_recovery, normal, recovery, wait_control}
use esp32_remot_control.Esp.{Partition}
use esp32_remot_control.Device.{Device, Platform, Step, runs, restarts, and_then}
use esp32_remot_control.Errsrc.{errsrc_set_enum, ErrCode}
use esp32_remot_control.Bootflag.{bootflag_is_post_rollback}
use esp32_remot_control.Fallback.{ble_lifeboat_set}
use esp32_remot_control.Monitor.{health_monitor_start}
use esp32_remot_control.Monitor.Policy.{
  ota_0_subtype, ota_1_subtype, state_is_unconfirmed, counted, monitor_on_wifi_error,
  monitor_is_rollback_eligible, enqueue_recovery, first_failure, second_failure, is_es_none,
}
use esp32_remot_control.Syscoord.{
  set_mode, syscoord_on_wifi_state, syscoord_worker, take_event, enter_recovery,
  syscoord_control_path_ok, syscoord_mark_tcp_authed, syscoord_get_mode,
}
use esp32_remot_control.Wifi.{
  wifi_tcp_timer_is_active, wifi_tcp_timer_stop_if_active, auth_expire, Reason, sta_disconnected,
  wifi_evt, report, scheduled, error_of,
}
use esp32_remot_control.System.{Event, handle, wifi, coordinator}

-- A sequence of events.
unfoldable pub handle_all : Platform → List Event → Device → Step
handle_all p [] d = runs d
handle_all p (e ∷ es) d = and_then (handle p e d) (handle_all p es)

-- A recovery request that is still queued when a TCP client authenticates takes the device out of
-- normal mode again, although the client stays authenticated.
pub stale_recovery :
    (p : Platform) (d : Device) (n : ℕ)
    → d.recoveries ≡ some (n + 1)
    → let d1 = syscoord_control_path_ok p (some (codes "TCP")) (syscoord_mark_tcp_authed d) in
      let d2 = syscoord_worker d1 in
      (syscoord_get_mode d1 ≡ normal)
      × (syscoord_get_mode d2 ≡ recovery)
      × (d2.tcp_authed ≡ true)
      × (d2.fb.lifeboat_enabled ≡ true)
unfolding syscoord_control_path_ok syscoord_mark_tcp_authed syscoord_worker take_event
    enter_recovery set_mode syscoord_get_mode ble_lifeboat_set
stale_recovery p d n e = (ground arith, ground arith, ground arith, ground arith)

abbrev pub is_recovered : Step → Bool
is_recovered (runs d) = is_recovery d.mode && d.fb.lifeboat_enabled
is_recovered (restarts d) = false

when-true : (b : Bool) (s t : Step) → b ≡ true → (if b then s else t) ≡ s
when-true true s t h = refl
when-true false s t h = absurd cc

when-false : (b : Bool) (s t : Step) → b ≡ false → (if b then s else t) ≡ t
when-false true s t h = absurd cc
when-false false s t h = refl

first_error :
    (p : Platform) (e : ErrCode) (d : Device)
    → d.monitor.done ≡ false
    → d.monitor.fail_streak ≡ 0
    → is_es_none e ≡ false
    → monitor_is_rollback_eligible p d p.running_partition ≡ false
    → monitor_on_wifi_error p e d ≡ runs (counted d)
unfolding monitor_on_wifi_error first_failure monitor_is_rollback_eligible
first_error p e d dn st n el =
    when-false d.monitor.done _ _ dn
    ∙ when-false (is_es_none e) _ _ n
    ∙ when-true ((counted d).monitor.fail_streak == 1) _ _ (ground arith)
    ∙ when-false
        (monitor_is_rollback_eligible p d p.running_partition
          && not (bootflag_is_post_rollback d.nvs))
        _ _ (ground arith)

second_error :
    (p : Platform) (e : ErrCode) (d : Device)
    → d.monitor.done ≡ false
    → d.monitor.fail_streak ≡ 1
    → is_es_none e ≡ false
    → monitor_on_wifi_error p e d ≡ second_failure (counted d)
unfolding monitor_on_wifi_error
second_error p e d dn st n =
    when-false d.monitor.done _ _ dn
    ∙ when-false (is_es_none e) _ _ n
    ∙ when-false ((counted d).monitor.fail_streak == 1) _ _ (ground arith)
    ∙ when-true (leb 2 (counted d).monitor.fail_streak) _ _ (ground arith)

error_of-is_es_none : (q : Reason) → is_es_none (error_of q) ≡ false
error_of-is_es_none auth_expire = refl
error_of-is_es_none _ = refl

eligible_same :
    (p : Platform) (d d' : Device) (run : Option Partition)
    → d'.confirms ≡ d.confirms
    → monitor_is_rollback_eligible p d' run ≡ monitor_is_rollback_eligible p d run
unfolding monitor_is_rollback_eligible
eligible_same p d d' none e = refl
eligible_same p d d' (some run) e =
    ap
      (λ n.
        if not (run.subtype == ota_0_subtype || run.subtype == ota_1_subtype)
        then false
        else state_is_unconfirmed (p.state_of n run))
      e

-- A disconnect of a device in normal mode arms the monitor and counts as its first failure.
first_disconnect :
    (p : Platform) (d : Device) (r : ℕ) (q : Reason)
    → d.mode ≡ normal
    → monitor_is_rollback_eligible p d p.running_partition ≡ false
    → (d' : Device) × (wifi_evt p r (sta_disconnected q) d ≡ runs d')
      × (d'.mode ≡ wait_control)
      × (d'.monitor.done ≡ false)
      × (d'.monitor.fail_streak ≡ 1)
      × (d'.monitor.has_timeout_cb ≡ d.monitor.has_timeout_cb)
      × (d'.recoveries ≡ d.recoveries)
unfolding wifi_evt report scheduled and_then syscoord_on_wifi_state set_mode health_monitor_start
first_disconnect p d r q m el =
    let d1 = record d {
      wifi =
          if wifi_tcp_timer_is_active d.wifi then wifi_tcp_timer_stop_if_active d.wifi else d.wifi;
    } in
    let d2 = syscoord_on_wifi_state false d1 in
    let d3 = record d2 { errsrc = errsrc_set_enum (error_of q) d2.errsrc } in
    let done : d3.monitor.done ≡ false = ground arith in
    let streak : d3.monitor.fail_streak ≡ 0 = ground arith in
    let e =
      first_error p (error_of q) d3 done streak (error_of-is_es_none q)
        (eligible_same p d d3 p.running_partition (ground arith) ∙ el) in
    (
      scheduled r (counted d3),
      ap (λ s. and_then s (λ d4. runs (scheduled r d4))) e,
      ground arith,
      done,
      ground arith,
      ground arith,
      ground arith,
    )

-- The second failure asks for recovery.
second_disconnect :
    (p : Platform) (d : Device) (r : ℕ) (q : Reason)
    → d.mode ≡ wait_control
    → d.monitor.done ≡ false
    → d.monitor.fail_streak ≡ 1
    → d.monitor.has_timeout_cb ≡ true
    → d.recoveries ≡ some 0
    → (d' : Device) × (wifi_evt p r (sta_disconnected q) d ≡ runs d') × (d'.recoveries ≡ some 1)
unfolding wifi_evt report scheduled and_then syscoord_on_wifi_state second_failure enqueue_recovery
second_disconnect p d r q m dn st cb rec =
    let d1 = record d {
      wifi =
          if wifi_tcp_timer_is_active d.wifi then wifi_tcp_timer_stop_if_active d.wifi else d.wifi;
    } in
    let d2 = syscoord_on_wifi_state false d1 in
    let d3 = record d2 { errsrc = errsrc_set_enum (error_of q) d2.errsrc } in
    let done : d3.monitor.done ≡ false = ground arith in
    let streak : d3.monitor.fail_streak ≡ 1 = ground arith in
    let e = second_error p (error_of q) d3 done streak (error_of-is_es_none q) in
    (_, ap (λ s. and_then s (λ d4. runs (scheduled r d4))) e, ground arith)

worker-recovers :
    (d : Device) (n : ℕ)
    → d.recoveries ≡ some (n + 1)
    → is_recovered (runs (syscoord_worker d)) ≡ true
unfolding syscoord_worker take_event enter_recovery set_mode ble_lifeboat_set
worker-recovers d n e = ground arith

-- Two disconnects in a row, of a device in normal mode whose running image is not up for a
-- rollback, whose monitor has its callback and whose queue is empty, and one round of the
-- coordinator lead into recovery with the lifeboat enabled.
pub two_disconnects_recover :
    (p : Platform) (d : Device) (r1 r2 : ℕ) (q1 q2 : Reason)
    → d.mode ≡ normal
    → d.monitor.has_timeout_cb ≡ true
    → d.recoveries ≡ some 0
    → monitor_is_rollback_eligible p d p.running_partition ≡ false
    → is_recovered (
        handle_all p
          (wifi r1 (sta_disconnected q1) ∷ wifi r2 (sta_disconnected q2) ∷ coordinator ∷ [])
          d)
      ≡ true
unfolding handle_all handle and_then
two_disconnects_recover p d r1 r2 q1 q2 m cb rec el =
    let (d1, e1, m1, dn, st, cb1, rec1) = first_disconnect p d r1 q1 m el in
    let (d2, e2, rec2) = second_disconnect p d1 r2 q2 m1 dn st (cb1 ∙ cb) (rec1 ∙ rec) in
    let s1 =
      ap
        (λ s.
          is_recovered
            (and_then s (handle_all p (wifi r2 (sta_disconnected q2) ∷ coordinator ∷ []))))
        e1 in
    let s2 = ap (λ s. is_recovered (and_then s (handle_all p (coordinator ∷ [])))) e2 in
    s1 ∙ s2 ∙ worker-recovers d2 0 rec2
