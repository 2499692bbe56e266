-- ===== src/System/Settled.antt =====
-- What the monitor does on a device whose image is confirmed.
use esp32_remot_control.Prelude.{
  ℕ, suc, ◌≡◌, refl, Bool, true, false, leb, ◌==◌, Option, none, some, if◌then◌else◌, arith,
}
use esp32_remot_control.Esp.{Partition}
use esp32_remot_control.Mode.{Mode, wait_control}
use esp32_remot_control.Errsrc.{ErrCode, errsrc_set_enum}
use esp32_remot_control.Device.{Device, Platform, Step, runs, restarts, and_then}
use esp32_remot_control.Monitor.Policy.{
  monitor_on_wifi_error, monitor_is_rollback_eligible, first_failure, second_failure, counted,
  is_es_none, enqueue_recovery, state_is_unconfirmed,
}
use esp32_remot_control.Syscoord.{syscoord_on_wifi_state, running_unconfirmed, set_mode}
use esp32_remot_control.Wifi.{report}

-- Is an image unconfirmed behind n confirmations?
abbrev pub unconfirmed_at : Platform → ℕ → Option Partition → Bool
unconfirmed_at p n none = false
unconfirmed_at p n (some run) = state_is_unconfirmed (p.state_of n run)

abbrev pub IsConfirmed : Platform → ℕ → Type 0
IsConfirmed p n = unconfirmed_at p n p.running_partition ≡ false

-- What ESP-IDF says of `esp_ota_mark_app_valid_cancel_rollback`: the running image is then valid.
abbrev pub MarksValid : Platform → Type 0
MarksValid p = (n : ℕ) (run : Partition) → state_is_unconfirmed (p.state_of (suc n) run) ≡ false

-- A step that returns with n confirmations.
pub data Stays (n : ℕ) : Step → Type 0 where
  stays : {d : Device} → d.confirms ≡ n → Stays n (runs d)

pub if-Stays :
    {n : ℕ} {s t : Step} (b : Bool) → Stays n s → Stays n t → Stays n (if b then s else t)
if-Stays true s t = s
if-Stays false s t = t

pub and_then-Stays :
    {n : ℕ} (s : Step) (k : Device → Step)
    → Stays n s
    → ((d : Device) → d.confirms ≡ n → Stays n (k d))
    → Stays n (and_then s k)
unfolding and_then
and_then-Stays (runs d) k (stays e) h = h d e
and_then-Stays (restarts d) k s h = elim s [ ]

pub running_unconfirmed_lem :
    (p : Platform) (d : Device) (run : Option Partition)
    → running_unconfirmed p d run ≡ unconfirmed_at p d.confirms run
unfolding running_unconfirmed
running_unconfirmed_lem p d none = refl
running_unconfirmed_lem p d (some run) = refl

confirmed-ineligible :
    (p : Platform) (d : Device) (run : Option Partition)
    → unconfirmed_at p d.confirms run ≡ false
    → monitor_is_rollback_eligible p d run ≡ false
unfolding monitor_is_rollback_eligible
confirmed-ineligible p d none c = refl
confirmed-ineligible p d (some run) c = ground arith

first_failure-Stays :
    (p : Platform) (d : Device) → IsConfirmed p d.confirms → Stays d.confirms (first_failure p d)
unfolding first_failure
first_failure-Stays p d c =
    let e = confirmed-ineligible p d p.running_partition c in rw e (stays refl)

second_failure-Stays : (d : Device) → Stays d.confirms (second_failure d)
unfolding second_failure enqueue_recovery
second_failure-Stays d = stays (ground arith)

pub on_wifi_error-Stays :
    (p : Platform) (e : ErrCode) (d : Device)
    → IsConfirmed p d.confirms
    → Stays d.confirms (monitor_on_wifi_error p e d)
unfolding monitor_on_wifi_error
on_wifi_error-Stays p e d c = if-Stays d.monitor.done (stays refl) (
    if-Stays (is_es_none e) (stays refl) (
      if-Stays ((counted d).monitor.fail_streak == 1) (first_failure-Stays p (counted d) c) (
        if-Stays (leb 2 (counted d).monitor.fail_streak) (second_failure-Stays (counted d))
          (stays refl))))

pub report-Stays :
    (p : Platform) (e : ErrCode) (d : Device)
    → IsConfirmed p d.confirms
    → Stays d.confirms (report p e d)
unfolding report
report-Stays p e d c = on_wifi_error-Stays p e (record d { errsrc = errsrc_set_enum e d.errsrc }) c

pub set_mode-confirms : (m : Mode) (d : Device) → (set_mode m d).confirms ≡ d.confirms
unfolding set_mode
set_mode-confirms m d = ground arith

pub wifi_state-confirms :
    (up : Bool) (d : Device) → (syscoord_on_wifi_state up d).confirms ≡ d.confirms
unfolding syscoord_on_wifi_state
wifi_state-confirms up d =
    ground (arith, set_mode-confirms wait_control (record d { tcp_authed = false }))
