-- ===== src/Boot/Running.antt =====
-- When a boot does not stop at a call that is checked (main/main.c).
use esp32_remot_control.Prelude.{
  ℕ, ◌&&◌, ◌≡◌, ◌≢◌, refl, Bool, true, false, Option, none, some, List, arith,
}
use esp32_remot_control.Esp.{is_ok}
use esp32_remot_control.Dht.{Dht, dht_init, dht_start}
use esp32_remot_control.Device.{Wifi}
use esp32_remot_control.Wifi.Start.{WifiCalls, wifi_start_lem, goes_through}
use esp32_remot_control.Command.Bus.{Message, cmd_bus_init, cmd_bus_is_ready}
use esp32_remot_control.Boot.{
  Machine, BootEnv, Booted, up, aborted, erased, with_nvs, cmd_router_start, dht_period_ms,
  coordinated, on_air, drivers, nvs_ready, nvs_no_free_pages, nvs_new_version, nvs_broken, NvsInit,
  after_erase, is_ready,
}

-- NVS is ready, at once or behind an erasure.
abbrev pub usable : NvsInit → BootEnv → Bool
usable nvs_ready env = true
usable nvs_broken env = false
usable _ env = is_ok env.nvs_erase && is_ready env.nvs_again

-- The calls of `wifi_start` succeed, whether its timer exists or not.
abbrev pub AllSucceed : WifiCalls → Type 0
AllSucceed c = (w : Wifi) → goes_through c w ≡ true

on_air-ne-aborted : (env : BootEnv) (m : Machine) → AllSucceed env.wifi → on_air env m ≢ aborted
unfolding on_air
on_air-ne-aborted env m g =
    let b = m.board in
    rw
      (
        on_air,
        wifi_start_lem env.wifi env.wifi_readable none none b.device b.station (g b.device.wifi),
      )
      (λ e. absurd cc)

sensor_starts :
    (created : Bool) (period now : ℕ) (d : Dht)
    → created ≡ true
    → is_ok (dht_start created (dht_init period now d)).0 ≡ true
unfolding dht_start dht_init
sensor_starts created period now d c = ground arith

bus_ready_lem :
    (created : Bool) (q : Option (List Message))
    → created ≡ true
    → cmd_bus_is_ready (cmd_bus_init created q) ≡ true
unfolding cmd_bus_init cmd_bus_is_ready
bus_ready_lem created none c = ground arith
bus_ready_lem created (some q) c = refl

pub comes_up :
    (env : BootEnv) (m : Machine)
    → env.bus_created ≡ true
    → env.sampler_created ≡ true
    → is_ok env.led_configured ≡ true
    → AllSucceed env.wifi
    → drivers env (coordinated env m) ≢ aborted
unfolding drivers coordinated cmd_router_start
comes_up env m b c l g =
    let sensor = sensor_starts env.sampler_created dht_period_ms env.now m.peripherals.dht c in
    let bus = bus_ready_lem env.bus_created m.board.bus b in
    rw (sensor, l, bus) (on_air-ne-aborted env _ g)

after_erase_lem :
    (env : BootEnv) (m : Machine) (next : Machine → Booted)
    → (is_ok env.nvs_erase && is_ready env.nvs_again) ≡ true
    → after_erase env m next ≡ next (erased m)
unfolding after_erase
after_erase_lem env m next h = ground arith

pub with_nvs-usable :
    (i : NvsInit) (env : BootEnv) (m : Machine) (next : Machine → Booted)
    → usable i env ≡ true
    → ((x : Machine) → next x ≢ aborted)
    → with_nvs i env m next ≢ aborted
unfolding with_nvs
with_nvs-usable nvs_ready env m next u h = h m
with_nvs-usable nvs_no_free_pages env m next u h = rw (after_erase_lem env m next u) (h (erased m))
with_nvs-usable nvs_new_version env m next u h = rw (after_erase_lem env m next u) (h (erased m))
with_nvs-usable nvs_broken env m next u h = absurd cc

pub machine_of : (b : Booted) → b ≢ aborted → (m : Machine) × (b ≡ up m)
machine_of (up m) h = (m, refl)
machine_of aborted h = absurd (h refl)
