-- ===== src/Fallback/Advertising.antt =====
-- The device advertises only as a lifeboat.
use esp32_remot_control.Prelude.{ℕ, ◌+◌, ◌≡◌, ◌≢◌, Bool, true, false, List, [], ◌∷◌, arith}
use esp32_remot_control.Esp.{EspErr}
use esp32_remot_control.Fallback.{
  GapCall, start_advertising, stop_advertising, reject_security, Fb, GapEvent, adv_data_set,
  scan_rsp_data_set, adv_start, adv_stop, sec_req, other_event, ble_worker, adv_watch_cb,
  fb_gap_evt, ble_lifeboat_set, ble_start_advertising, ble_set_connected, ble_fallback_init,
  ble_fallback_stop,
}

-- Everything that may happen to the state machine; the worker's round comes with the answer of the
-- stack to a start.
pub data Input : Type 0 where
  worker : EspErr → Input
  watchdog : Input
  gap_event : GapEvent → Input
  lifeboat connection : Bool → Input
  request init stop : Input

unfoldable pub apply : Input → Fb → Fb
unfolding ble_worker adv_watch_cb fb_gap_evt ble_lifeboat_set ble_start_advertising
    ble_set_connected ble_fallback_init ble_fallback_stop
apply (worker start) f = ble_worker start f
apply watchdog f = adv_watch_cb f
apply (gap_event e) f = fb_gap_evt e f
apply (lifeboat enable) f = ble_lifeboat_set enable f
apply (connection on) f = ble_set_connected on f
apply request f = ble_start_advertising f
apply init f = ble_fallback_init f
apply stop f = ble_fallback_stop f

-- How often advertising has been started.
abbrev pub starts : List GapCall → ℕ
starts [] = 0
starts (start_advertising ∷ l) = 1 + starts l
starts (stop_advertising ∷ l) = starts l
starts (reject_security ∷ l) = starts l

-- Whatever happens, advertising is started only while the lifeboat is enabled, the stack and both
-- payloads are ready, and nobody is connected.
pub starts-apply :
    (i : Input) (f : Fb)
    → starts (apply i f).gap ≢ starts f.gap
    → (f.lifeboat_enabled ≡ true)
      × (f.stack_ready ≡ true)
      × (f.adv_ready ≡ true)
      × (f.connected ≡ false)
unfolding apply
starts-apply (worker start) f h = ground arith
starts-apply (gap_event (adv_data_set success)) f h = ground arith
starts-apply (gap_event (scan_rsp_data_set success)) f h = ground arith
starts-apply (gap_event (adv_start success)) f h = ground arith
starts-apply (gap_event adv_stop) f h = ground arith
starts-apply (gap_event sec_req) f h = ground arith
starts-apply (gap_event other_event) f h = ground arith
starts-apply _ f h = ground arith
