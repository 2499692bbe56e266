-- ===== src/System/Invariant.antt =====
-- What holds in every state that the device reaches, and the handlers that keep it without a
-- restart.
use esp32_remot_control.Prelude.{
  ℕ, ◌≡◌, ◌≢◌, refl, sym, ap, ◌∙◌, Bool, true, false, Option, none, some, Bool-cases, ltb, pred,
  ◌&&◌, inl, inr, arith, Bytes,
}
use esp32_remot_control.Mode.{is_normal, wait_control, normal, recovery}
use esp32_remot_control.Device.{Device, Platform}
use esp32_remot_control.Bootflag.{Nvs, bootflag_set_post_rollback, bootflag_is_post_rollback}
use esp32_remot_control.Fallback.{
  Fb, GapEvent, adv_data_set, scan_rsp_data_set, adv_start, adv_stop, sec_req, other_event,
  fb_gap_evt, ble_lifeboat_set, ble_fallback_stop,
}
use esp32_remot_control.Monitor.{health_monitor_start, health_monitor_control_ok}
use esp32_remot_control.Syscoord.{
  is_tcp, set_mode, enter_recovery, take_event, confirm, syscoord_control_path_ok,
  syscoord_on_wifi_state,
}

-- The lifeboat is enabled only in recovery; a device in normal mode has an authenticated TCP client,
-- a monitor at rest, and no post-rollback flag (where NVS works).
pub record IsCoordinated (d : Device) : Type 0 where
  pub lifeboat : d.fb.lifeboat_enabled ≡ true → d.mode ≡ recovery
  pub authed : d.mode ≡ normal → d.tcp_authed ≡ true
  pub at_rest : d.mode ≡ normal → d.monitor.done ≡ true
  pub flag_clear :
      d.mode ≡ normal
      → d.nvs.readable ≡ true
      → d.nvs.writable ≡ true
      → bootflag_is_post_rollback d.nvs ≡ false

-- The inputs of the fallback that leave the lifeboat as it is.
pub fb_gap_evt-lifeboat :
    (e : GapEvent) (f : Fb) → (fb_gap_evt e f).lifeboat_enabled ≡ f.lifeboat_enabled
unfolding fb_gap_evt
fb_gap_evt-lifeboat (adv_data_set b) f = ground arith
fb_gap_evt-lifeboat (scan_rsp_data_set b) f = ground arith
fb_gap_evt-lifeboat (adv_start b) f = ground arith
fb_gap_evt-lifeboat adv_stop f = ground arith
fb_gap_evt-lifeboat sec_req f = ground arith
fb_gap_evt-lifeboat other_event f = ground arith

-- A change of other fields.
pub IsCoordinated-other :
    (d d' : Device)
    → d'.fb.lifeboat_enabled ≡ d.fb.lifeboat_enabled
    → d'.mode ≡ d.mode
    → d'.tcp_authed ≡ d.tcp_authed
    → (d.monitor.done ≡ true → d'.monitor.done ≡ true)
    → d'.nvs ≡ d.nvs
    → IsCoordinated d
    → IsCoordinated d'
IsCoordinated-other d d' fb mode authed done nvs i = record {
  lifeboat = λ l. mode ∙ i.lifeboat (sym fb ∙ l);
  authed = λ n. authed ∙ i.authed (sym mode ∙ n);
  at_rest = λ n. done (i.at_rest (sym mode ∙ n));
  flag_clear = λ n r w.
      ap bootflag_is_post_rollback nvs
      ∙ i.flag_clear (sym mode ∙ n) (sym (ap (λ (v : Nvs). v.readable) nvs) ∙ r)
          (sym (ap (λ (v : Nvs). v.writable) nvs) ∙ w);
}

-- A device that is not in normal mode, with its lifeboat off or in recovery.
pub IsCoordinated-not_normal :
    (d : Device)
    → d.mode ≢ normal
    → (d.fb.lifeboat_enabled ≡ true → d.mode ≡ recovery)
    → IsCoordinated d
IsCoordinated-not_normal d n l = record {
  lifeboat = l;
  authed = λ e. absurd (n e);
  at_rest = λ e. absurd (n e);
  flag_clear = λ e. absurd (n e);
}

pub set_mode-wait : (d : Device) → d.mode ≢ wait_control → IsCoordinated (set_mode wait_control d)
unfolding set_mode ble_fallback_stop ble_lifeboat_set health_monitor_start
set_mode-wait d h = IsCoordinated-not_normal (set_mode wait_control d) (ground arith) (ground arith)

pub on_wifi_state-IsCoordinated :
    (up : Bool) (d : Device) → IsCoordinated d → IsCoordinated (syscoord_on_wifi_state up d)
unfolding syscoord_on_wifi_state
on_wifi_state-IsCoordinated true d i = i
on_wifi_state-IsCoordinated false d i = elim (Bool-cases (is_normal d.mode)) [
  | inl n ↦ rw n (set_mode-wait (record d { tcp_authed = false }) (ground arith))
  | inr n ↦
      rw n (IsCoordinated-not_normal (record d { tcp_authed = false }) (ground arith) i.lifeboat)
]

pub set_mode-normal :
    (d : Device)
    → d.tcp_authed ≡ true
    → d.monitor.done ≡ true
    → (d.fb.lifeboat_enabled ≡ true → d.mode ≡ recovery)
    → IsCoordinated d
    → IsCoordinated (set_mode normal d)
unfolding set_mode ble_fallback_stop ble_lifeboat_set bootflag_set_post_rollback
    bootflag_is_post_rollback
set_mode-normal d a r l i = record {
  lifeboat = ground arith;
  authed = ground arith;
  at_rest = ground arith;
  flag_clear = ground (arith, i.flag_clear);
}

pub control_path_ok-IsCoordinated :
    (p : Platform) (source : Option Bytes) (d : Device)
    → IsCoordinated d
    → IsCoordinated (syscoord_control_path_ok p source d)
unfolding syscoord_control_path_ok confirm health_monitor_control_ok
control_path_ok-IsCoordinated p source d i = elim (Bool-cases (is_tcp source && d.tcp_authed)) [
  | inl ok ↦ rw ok (
      let d1 = confirm p d in
      set_mode-normal (record d1 { monitor = health_monitor_control_ok d1.monitor }) (ground arith)
        (ground arith) i.lifeboat (IsCoordinated-other d _ refl refl refl (ground arith) refl i))
  | inr n ↦ rw n i
]

pub enter_recovery-IsCoordinated : (d : Device) → IsCoordinated (enter_recovery d)
unfolding enter_recovery set_mode
enter_recovery-IsCoordinated d =
    IsCoordinated-not_normal (enter_recovery d) (ground arith) (ground arith)

pub take_event-IsCoordinated :
    (o : Option ℕ) (d : Device) → IsCoordinated d → IsCoordinated (take_event o d)
unfolding take_event
take_event-IsCoordinated none d i = i
take_event-IsCoordinated (some n) d i = elim (Bool-cases (ltb 0 n)) [
  | inl y ↦ rw y (enter_recovery-IsCoordinated (record d { recoveries = some (pred n) }))
  | inr n ↦ rw n i
]
