-- ===== src/System/Views.antt =====
-- What the monitor makes of a failure, as the policy sees it.
use esp32_remot_control.Prelude.{
  codes, ◌≡◌, refl, ap, sym, ◌∙◌, Bool, true, false, not, ◌&&◌, ◌==◌, leb, Option, none, some,
  Bytes, if◌then◌else◌, arith,
}
use esp32_remot_control.Esp.{EspErr, is_ok, Partition}
use esp32_remot_control.Errsrc.{ErrCode}
use esp32_remot_control.Bootflag.{bootflag_is_post_rollback}
use esp32_remot_control.Device.{Device, Platform, Step, runs, restarts, and_then}
use esp32_remot_control.Monitor.Policy.{
  monitor_on_wifi_error, monitor_try_rollback_now, select_manual_fallback_target, manual_fallback,
  after_official, counted, first_failure, second_failure, enqueue_recovery,
  monitor_is_rollback_eligible, is_es_none, queued,
}
use esp32_remot_control.System.Policy.{Policy, view, ask_if}

-- Where a step runs on, its view, or that with one more request.
abbrev pub Views : Policy → Step → Type 0
Views q s = (d : Device) → s ≡ runs d → (asks : Bool) × (view d ≡ ask_if asks q)

pub runs-Views : (d : Device) → Views (view d) (runs d)
runs-Views d d' h = (false, ground arith)

pub if-Views :
    {q : Policy} {s t : Step} (b : Bool) → Views q s → Views q t → Views q (if b then s else t)
if-Views true v w = v
if-Views false v w = w

-- A change behind it that the view does not show.
pub and_then-view :
    (P : Policy → Type 0) (s : Step) (k : Device → Device)
    → ((d : Device) → s ≡ runs d → P (view d))
    → ((d : Device) → view (k d) ≡ view d)
    → (d' : Device) → and_then s (λ d. runs (k d)) ≡ runs d'
    → P (view d')
unfolding and_then
and_then-view P (runs d) k v same d' h =
    let left : view d' ≡ view d = ap (λ (x : Step). view (device_of x)) (sym h) ∙ same d in
    rw left (v d refl)
  where
    device_of : Step → Device
    device_of (runs x) = x
    device_of (restarts x) = x
and_then-view P (restarts d) k v same d' h = absurd cc

manual_fallback-Views :
    (p : Platform) (t : Option Partition) (d : Device) → Views (view d) (manual_fallback p t d)
unfolding manual_fallback
manual_fallback-Views p none d d' h = (false, ground arith)
manual_fallback-Views p (some t) d d' h = absurd cc

after_official-Views :
    (p : Platform) (o : Option EspErr) (d : Device) → Views (view d) (after_official p o d)
unfolding after_official
after_official-Views p none d = λ d' h. absurd cc
after_official-Views p (some e) d =
    if-Views (not (is_ok e))
      (manual_fallback-Views p (select_manual_fallback_target p p.running_partition) d)
      (runs-Views d)

try_rollback-Views :
    (p : Platform) (w : Option Bytes) (d : Device) → Views (view d) (monitor_try_rollback_now p w d)
unfolding monitor_try_rollback_now
try_rollback-Views p w d d' h = after_official-Views p p.official_rollback _ d' h

first_failure-Views : (p : Platform) (d : Device) → Views (view d) (first_failure p d)
unfolding first_failure
first_failure-Views p d =
    if-Views
      (monitor_is_rollback_eligible p d p.running_partition
        && not (bootflag_is_post_rollback d.nvs))
      (try_rollback-Views p (some (codes "no control path; rolling back")) d) (runs-Views d)

-- The request of the monitor, if it has its callback.
second_failure-Views : (d : Device) → Views (view d) (second_failure d)
unfolding second_failure enqueue_recovery queued
second_failure-Views d d' h = (d.monitor.has_timeout_cb, ground arith)

pub on_wifi_error-Views :
    (p : Platform) (e : ErrCode) (d : Device) → Views (view d) (monitor_on_wifi_error p e d)
unfolding monitor_on_wifi_error
on_wifi_error-Views p e d = if-Views d.monitor.done (runs-Views d) (
    if-Views (is_es_none e)
      (runs-Views (record d { monitor = record d.monitor { fail_streak = 0 } }))
      (if-Views ((counted d).monitor.fail_streak == 1) (first_failure-Views p (counted d)) (
        if-Views (leb 2 (counted d).monitor.fail_streak) (second_failure-Views (counted d))
          (runs-Views (counted d)))))
