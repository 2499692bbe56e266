-- ===== src/Monitor/Policy.antt =====
-- components/monitor: monitor_policy.c, and `monitor_on_wifi_error` of monitor.c.
use esp32_remot_control.Prelude.{
  ℕ, ◌+◌, Bool, true, false, not, ◌&&◌, ◌||◌, Option, none, some, ◌==◌, ltb, leb, if◌then◌else◌,
  codes, Bytes,
}
use esp32_remot_control.Esp.{EspErr, is_ok, Partition, ImageState, new, pending_verify}
use esp32_remot_control.Errsrc.{ErrCode, es_none}
use esp32_remot_control.Alerts.{alert_raise, alert_rollback_executed, alert_ble_fatal}
use esp32_remot_control.Bootflag.{bootflag_set_post_rollback, bootflag_is_post_rollback}
use esp32_remot_control.Device.{Device, Platform, Step, runs, restarts}

-- `ESP_PARTITION_SUBTYPE_APP_*`
abbrev pub factory_subtype : ℕ
factory_subtype = 0

abbrev pub ota_0_subtype : ℕ
ota_0_subtype = 16

abbrev pub ota_1_subtype : ℕ
ota_1_subtype = 17

abbrev pub is_unconfirmed : ImageState → Bool
is_unconfirmed new = true
is_unconfirmed pending_verify = true
is_unconfirmed _ = false

abbrev pub state_is_unconfirmed : Option ImageState → Bool
state_is_unconfirmed none = false
state_is_unconfirmed (some st) = is_unconfirmed st

-- On a running partition.
eligible : Platform → Device → Partition → Bool
eligible p d run =
    if not (run.subtype == ota_0_subtype || run.subtype == ota_1_subtype)
    then false
    else state_is_unconfirmed (p.state_of d.confirms run)

unfoldable pub monitor_is_rollback_eligible : Platform → Device → Option Partition → Bool
unfolding eligible
monitor_is_rollback_eligible p d none = false
monitor_is_rollback_eligible p d (some run) = eligible p d run

-- The other OTA slot, for a running one.
unfoldable pub other_slot : Platform → Option Partition → Option Partition
other_slot p none = none
other_slot p (some run) =
    if run.subtype == ota_0_subtype
    then p.find_first ota_1_subtype
    else if run.subtype == ota_1_subtype
    then p.find_first ota_0_subtype
    else none

-- `q && q != run`
abbrev pub differs : Option Partition → Option Partition → Bool
differs none run = false
differs (some q) none = true
differs (some q) (some run) = not (q.address == run.address)

unfoldable pub select_manual_fallback_target : Platform → Option Partition → Option Partition
unfolding other_slot
select_manual_fallback_target p run =
    let factory = p.find_first factory_subtype in
    let other = other_slot p run in
    if differs factory run then factory else if differs other run then other else none

-- Restart into another partition, if there is one and it can be set; the restart comes in any case.
unfoldable pub manual_fallback : Platform → Option Partition → Device → Step
manual_fallback p none d = runs d
manual_fallback p (some target) d = restarts (record d {
  nvs = bootflag_set_post_rollback true d.nvs;
  boot = if is_ok (p.set_boot target) then some target else d.boot;
})

-- What follows the answer of `esp_ota_mark_app_invalid_rollback_and_reboot`, if it answers.
unfoldable pub after_official : Platform → Option EspErr → Device → Step
after_official p none d = restarts d
after_official p (some e) d =
    if not (is_ok e)
    then manual_fallback p (select_manual_fallback_target p p.running_partition) d
    else runs d

abbrev pub why_or_default : Option Bytes → Bytes
why_or_default none = codes "rolling back"
why_or_default (some w) = w

unfoldable pub monitor_try_rollback_now : Platform → Option Bytes → Device → Step
unfolding after_official
monitor_try_rollback_now p why d =
    after_official p p.official_rollback (record d {
      alerts = alert_raise alert_rollback_executed (some (why_or_default why)) d.alerts;
    })

abbrev pub sys_queue_depth : ℕ
sys_queue_depth = 4

unfoldable pub queued : Option ℕ → Option ℕ
queued none = none
queued (some n) = if ltb n sys_queue_depth then some (n + 1) else some n

-- `enqueue_recovery` of components/syscoord/sys_priv.h: without a queue, or with a full one, the
-- event is lost.
unfoldable pub enqueue_recovery : Device → Device
unfolding queued
enqueue_recovery d = record d { recoveries = queued d.recoveries }

-- The first failure.
unfoldable pub first_failure : Platform → Device → Step
first_failure p d =
    if monitor_is_rollback_eligible p d p.running_partition && not (bootflag_is_post_rollback d.nvs)
    then monitor_try_rollback_now p (some (codes "no control path; rolling back")) d
    else runs d

-- The second one: `s_timeout_cb` is `enqueue_recovery`, where it is set.
unfoldable pub second_failure : Device → Step
second_failure d =
    let d' = record d {
      alerts =
          alert_raise alert_ble_fatal (some (codes "no control after rollback; enabling lifeboat"))
            d.alerts;
      monitor = record d.monitor { done = true };
    } in
    runs (if d.monitor.has_timeout_cb then enqueue_recovery d' else d')

abbrev pub is_es_none : ErrCode → Bool
is_es_none es_none = true
is_es_none _ = false

-- `s_fail_streak`, one more up to 0x7fff.
abbrev pub counted : Device → Device
counted d = record d {
  monitor = record d.monitor {
    fail_streak =
        if ltb d.monitor.fail_streak 32767
        then d.monitor.fail_streak + 1
        else d.monitor.fail_streak;
  };
}

unfoldable pub monitor_on_wifi_error : Platform → ErrCode → Device → Step
unfolding first_failure second_failure
monitor_on_wifi_error p e d =
    if d.monitor.done
    then runs d
    else if is_es_none e
    then runs (record d { monitor = record d.monitor { fail_streak = 0 } })
    else (let d' = counted d in
        if d'.monitor.fail_streak == 1
        then first_failure p d'
        else if leb 2 d'.monitor.fail_streak
        then second_failure d'
        else runs d')
