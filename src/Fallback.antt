-- ===== src/Fallback.antt =====
-- components/ble/fallback: the advertising state machine of the BLE lifeboat (fb_core.c, fb_gap.c,
-- fb_worker.c). The stack's calls that stop the program when they fail (`ESP_ERROR_CHECK`) succeed
-- here; the queue, the worker task and the timer can be created.
pub mod Advertising
pub mod Lifeboat
use esp32_remot_control.Prelude.{
  ℕ, ◌+◌, Bool, true, false, not, ◌&&◌, ◌||◌, pred, Option, none, some, List, [], ◌∷◌, ltb,
  if◌then◌else◌,
}
use esp32_remot_control.Esp.{EspErr, is_invalid_state}

-- The GAP calls that are made, newest first.
pub data GapCall : Type 0 where
  start_advertising stop_advertising reject_security : GapCall

-- The watchdog timer: not created, running, or stopped.
pub data Watch : Type 0 where
  absent running stopped : Watch

-- The statics of fb_core.c and fb_worker.c. `kicks` is the number of `BLE_EVT_ADV_KICK` in the
-- queue, once that exists; the two bits of `s_adv_cfg_done` are two flags.
pub record Fb : Type 0 where
  pub stack_ready : Bool
  pub adv_ready : Bool
  pub adv_running : Bool
  pub connected : Bool
  pub lifeboat_enabled : Bool
  pub adv_start_deferred : Bool
  pub adv_cfg : Bool
  pub scan_rsp_cfg : Bool
  pub kicks : Option ℕ
  pub watch : Watch
  pub gap : List GapCall

abbrev pub ble_queue_depth : ℕ
ble_queue_depth = 8

posted : Option ℕ → Option ℕ
posted none = none
posted (some n) = if ltb n ble_queue_depth then some (n + 1) else some n

-- `ble_post(BLE_EVT_ADV_KICK)`: without a queue, or with a full one, the event is lost.
unfoldable pub ble_post : Fb → Fb
unfolding posted
ble_post f = record f { kicks = posted f.kicks }

-- `fb_adv_stop`, also as `fb_adv_stop_public` and `ble_stop_advertising`.
unfoldable pub fb_adv_stop : Fb → Fb
fb_adv_stop f = if f.adv_running then record f { gap = stop_advertising ∷ f.gap } else f

-- `start` is what `esp_ble_gap_start_advertising` answers first.
unfoldable pub fb_adv_kick : EspErr → Fb → Fb
fb_adv_kick start f =
    if not f.lifeboat_enabled
    then f
    else if not f.stack_ready || not f.adv_ready
    then record f { adv_start_deferred = true }
    else if f.connected
    then f
    else if is_invalid_state start
    then record f { gap = start_advertising ∷ stop_advertising ∷ start_advertising ∷ f.gap }
    else record f { gap = start_advertising ∷ f.gap }

-- One round of `ble_worker`, if the queue holds an event.
worker_take : EspErr → Option ℕ → Fb → Fb
unfolding fb_adv_kick
worker_take start none f = f
worker_take start (some n) f =
    if ltb 0 n then fb_adv_kick start (record f { kicks = some (pred n) }) else f

unfoldable pub ble_worker : EspErr → Fb → Fb
unfolding worker_take
ble_worker start f = worker_take start f.kicks f

-- `adv_watch_cb`, while the timer runs.
unfoldable pub adv_watch_cb : Fb → Fb
unfolding ble_post
adv_watch_cb f =
    if f.lifeboat_enabled && not f.connected && f.adv_ready && f.stack_ready && not f.adv_running
    then ble_post f
    else f

watch_started : Watch → Watch
watch_started absent = running
watch_started running = running
watch_started stopped = stopped

watch_stopped : Watch → Watch
watch_stopped absent = absent
watch_stopped running = stopped
watch_stopped stopped = stopped

unfoldable pub fb_watchdog_start_if_needed : Fb → Fb
unfolding watch_started
fb_watchdog_start_if_needed f = record f { watch = watch_started f.watch }

unfoldable pub fb_watchdog_stop : Fb → Fb
unfolding watch_stopped
fb_watchdog_stop f = record f { watch = watch_stopped f.watch }

-- `esp_gap_ble_cb_event_t`; the flag says whether the status is success.
pub data GapEvent : Type 0 where
  adv_data_set scan_rsp_data_set adv_start : Bool → GapEvent
  adv_stop sec_req other_event : GapEvent

gap_case : GapEvent → Fb → Fb
unfolding ble_post
gap_case (adv_data_set success) f = if success then record f { adv_cfg = true } else f
gap_case (scan_rsp_data_set success) f = if success then record f { scan_rsp_cfg = true } else f
gap_case (adv_start success) f = record f { adv_running = success }
gap_case adv_stop f =
    let f' = record f { adv_running = false } in
    if f.lifeboat_enabled && not f.connected && f.adv_ready && f.stack_ready
    then ble_post f'
    else f'
gap_case sec_req f = record f { gap = reject_security ∷ f.gap }
gap_case other_event f = f

-- The end of `fb_gap_evt`: both payloads configured for the first time.
payloads_ready : Fb → Fb
unfolding ble_post
payloads_ready f =
    if f.adv_cfg && f.scan_rsp_cfg && not f.adv_ready
    then (if f.adv_start_deferred
        then ble_post (record f { adv_ready = true; adv_start_deferred = false })
        else record f { adv_ready = true })
    else f

unfoldable pub fb_gap_evt : GapEvent → Fb → Fb
unfolding gap_case payloads_ready
fb_gap_evt e f = payloads_ready (gap_case e f)

unfoldable pub ble_lifeboat_set : Bool → Fb → Fb
unfolding ble_post fb_adv_stop
ble_lifeboat_set enable f =
    let f' = record f { lifeboat_enabled = enable } in
    if not enable
    then fb_adv_stop (record f' { adv_start_deferred = false })
    else if not f.connected && f.adv_ready && f.stack_ready
    then ble_post f'
    else record f' { adv_start_deferred = true }

unfoldable pub ble_start_advertising : Fb → Fb
unfolding ble_post
ble_start_advertising f =
    if not f.lifeboat_enabled
    then f
    else if not f.adv_ready || not f.stack_ready
    then record f { adv_start_deferred = true }
    else ble_post f

unfoldable pub ble_set_connected : Bool → Fb → Fb
unfolding ble_post
ble_set_connected on f =
    let f' = record f { connected = on } in
    if on
    then f'
    else if not f.lifeboat_enabled
    then f'
    else if f.adv_ready && f.stack_ready
    then ble_post f'
    else record f' { adv_start_deferred = true }

-- `fb_worker_init_once`
queue_made : Option ℕ → Option ℕ
queue_made none = some 0
queue_made (some n) = some n

unfoldable pub ble_fallback_init : Fb → Fb
unfolding fb_watchdog_start_if_needed queue_made
ble_fallback_init f =
    if f.stack_ready
    then f
    else fb_watchdog_start_if_needed (record f {
      kicks = queue_made f.kicks;
      stack_ready = true;
      adv_ready = false;
      adv_start_deferred = false;
      connected = false;
      adv_running = false;
      adv_cfg = false;
      scan_rsp_cfg = false;
    })

unfoldable pub ble_fallback_stop : Fb → Fb
unfolding fb_adv_stop fb_watchdog_stop
ble_fallback_stop f =
    let f' = fb_watchdog_stop (fb_adv_stop f) in
    record f' { connected = false; adv_running = false; adv_start_deferred = false }
