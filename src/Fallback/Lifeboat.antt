-- ===== src/Fallback/Lifeboat.antt =====
-- An enabled lifeboat comes to advertise; its watchdog does not come back.
use esp32_remot_control.Prelude.{◌≡◌, true, false, Bool, some, ◌∷◌, if◌then◌else◌, arith}
use esp32_remot_control.Esp.{esp_ok}
use esp32_remot_control.Fallback.{
  start_advertising, stopped, running, Fb, adv_data_set, scan_rsp_data_set, ble_worker, fb_gap_evt,
  ble_lifeboat_set, ble_fallback_init, ble_fallback_stop,
}

-- Enabling the lifeboat on an idle device whose stack and payloads are ready, with an empty queue,
-- makes the worker start advertising in its next round.
lifeboat_starts :
    (f : Fb)
    → f.stack_ready ≡ true
    → f.adv_ready ≡ true
    → f.connected ≡ false
    → f.kicks ≡ some 0
    → (ble_worker esp_ok (ble_lifeboat_set true f)).gap ≡ start_advertising ∷ f.gap
unfolding ble_worker ble_lifeboat_set
lifeboat_starts f s a c k = ground arith

-- Enabling it before the payloads are ready defers the start: once both payloads have been set, in
-- either order, the worker starts advertising in its next round.
pub lifeboat_deferred_starts :
    (f : Fb) (scan_first : Bool)
    → f.stack_ready ≡ true
    → f.adv_ready ≡ false
    → f.adv_cfg ≡ false
    → f.scan_rsp_cfg ≡ false
    → f.connected ≡ false
    → f.kicks ≡ some 0
    → let f1 = ble_lifeboat_set true f in
      let f2 = fb_gap_evt (if scan_first then scan_rsp_data_set true else adv_data_set true) f1 in
      let f3 = fb_gap_evt (if scan_first then adv_data_set true else scan_rsp_data_set true) f2 in
      (ble_worker esp_ok f3).gap ≡ start_advertising ∷ f.gap
unfolding ble_worker ble_lifeboat_set fb_gap_evt
lifeboat_deferred_starts f true s a c1 c2 c k = ground arith
lifeboat_deferred_starts f false s a c1 c2 c k = ground arith

-- From a ready stack with a running watchdog, a stop and a new init leave the watchdog stopped and
-- the stack ready.
watchdog_stays_stopped :
    (f : Fb)
    → f.stack_ready ≡ true
    → f.watch ≡ running
    → ((ble_fallback_init (ble_fallback_stop f)).watch ≡ stopped)
      × ((ble_fallback_init (ble_fallback_stop f)).stack_ready ≡ true)
unfolding ble_fallback_init ble_fallback_stop
watchdog_stays_stopped f s w = ground arith
