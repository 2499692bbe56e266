-- ===== src/Wifi/Backoff.antt =====
-- The delays of the reconnect timer, and that it always runs after a disconnect.
use esp32_remot_control.Prelude.{
  ℕ, zero, suc, ◌+◌, ◌*◌, ◌/◌, ◌%◌, ◌^◌, ◌≤◌, ◌≡◌, refl, ap, ◌∙◌, false, some, min, ltb,
  if◌then◌else◌, arith,
}
use esp32_remot_control.Device.{Device, Wifi, Platform, Step, runs, restarts, and_then}
use esp32_remot_control.Syscoord.{syscoord_on_wifi_state}
use esp32_remot_control.Wifi.{
  Reason, base_delay, jittered, wifi_backoff_schedule, pd_ms_to_ticks, sta_disconnected, wifi_evt,
  report, scheduled, error_of, wifi_tcp_timer_is_active, wifi_tcp_timer_stop_if_active,
}

power_positive : (n : ℕ) → 1 ≤ 2 ^ n
power_positive zero = omega arith
power_positive (suc n) = omega (arith, power_positive n)

-- The base delay is 500 ms doubled at every retry, up to 30 s: the shift that stops at 6 and the
-- 32-bit product change nothing.
base_delay_lem : (n : ℕ) → base_delay n ≡ min (500 * 2 ^ n) 30000
unfolding base_delay
base_delay_lem zero = refl
base_delay_lem (suc zero) = refl
base_delay_lem (suc (suc zero)) = refl
base_delay_lem (suc (suc (suc zero))) = refl
base_delay_lem (suc (suc (suc (suc zero)))) = refl
base_delay_lem (suc (suc (suc (suc (suc zero))))) = refl
base_delay_lem (suc (suc (suc (suc (suc (suc n)))))) =
    let late : ltb (suc (suc (suc (suc (suc (suc n)))))) 6 ≡ false = ground arith in
    rw late (omega (arith, power_positive n))

jittered_lem : (r d : ℕ) → d ≤ 30000 → (d ≤ jittered r d + d / 20) × (jittered r d ≤ d + d / 20)
unfolding jittered
jittered_lem r d h = let small : (d * 10) % 4294967296 ≡ d * 10 = omega arith in ground arith

ticks_lem :
    (ms : ℕ) → ms ≤ 40000 → (10 * pd_ms_to_ticks ms ≤ ms) × (ms ≤ 10 * pd_ms_to_ticks ms + 9)
unfolding pd_ms_to_ticks
ticks_lem ms h = let small : (ms * 100) % 4294967296 ≡ ms * 100 = omega arith in ground arith

-- The timer is set to 500 ms doubled at every retry, up to 30 s, with a jitter of at most 5 % to
-- either side, for whatever number `esp_random` gives, and cut to whole ticks of 10 ms; it is never set
-- to less than 47 ticks.
pub wifi_backoff_schedule_bounds :
    (r : ℕ) (w : Wifi)
    → let b = min (500 * 2 ^ w.s_retries) 30000 in
      (x : ℕ) × ((wifi_backoff_schedule r w).reconnect_in ≡ some x)
      × (b ≤ 10 * x + 9 + b / 20)
      × (10 * x ≤ b + b / 20)
      × (47 ≤ x)
unfolding wifi_backoff_schedule
wifi_backoff_schedule_bounds r w =
    let e = base_delay_lem w.s_retries in
    let positive = power_positive w.s_retries in
    let ms = jittered r (base_delay w.s_retries) in
    let (low, high) = jittered_lem r (base_delay w.s_retries) (omega (arith, e)) in
    let (below, above) = ticks_lem ms (omega (arith, e, high)) in
    (
      pd_ms_to_ticks ms,
      refl,
      omega (arith, e, low, above),
      omega (arith, e, high, below),
      omega (arith, e, low, above, positive),
    )

and_then-runs :
    (s : Step) (k : Device → Device) (d' : Device)
    → and_then s (λ d. runs (k d)) ≡ runs d'
    → (d : Device) × (d' ≡ k d)
unfolding and_then
and_then-runs (runs d) k d' h = (d, cc)
and_then-runs (restarts d) k d' h = absurd cc

-- After a disconnect the reconnect timer runs, unless the device has restarted, for 47 to 3150 ticks of
-- 10 ms: the jitter may exceed the 30 s of the cap.
sta_disconnected_reconnects :
    (p : Platform) (r : ℕ) (q : Reason) (d d' : Device)
    → wifi_evt p r (sta_disconnected q) d ≡ runs d'
    → (x : ℕ) × (d'.wifi.reconnect_in ≡ some x) × (47 ≤ x) × (x ≤ 3150)
unfolding wifi_evt scheduled
sta_disconnected_reconnects p r q d d' h =
    let d1 = record d {
      wifi =
          if wifi_tcp_timer_is_active d.wifi then wifi_tcp_timer_stop_if_active d.wifi else d.wifi;
    } in
    let (d3, e) =
      and_then-runs (report p (error_of q) (syscoord_on_wifi_state false d1)) (scheduled r) d' h in
    let (x, armed, low, high, floor) = wifi_backoff_schedule_bounds r d3.wifi in
    (x, ap (λ (v : Device). v.wifi.reconnect_in) e ∙ armed, floor, omega arith)
