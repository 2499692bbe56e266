-- ===== src/Boot.antt =====
-- main/main.c: what a boot does before the events begin. The calls that stop the program when they fail
-- (`ESP_ERROR_CHECK`) restart the device.
mod Examples
pub mod Driven
pub mod Running
pub mod Started
use esp32_remot_control.Prelude.{
  ℕ, Bool, true, false, Option, none, some, List, Bytes, ◌==◌, if◌then◌else◌,
}
use esp32_remot_control.Esp.{EspErr, is_ok, Partition}
use esp32_remot_control.Bootflag.{Nvs, bootflag_set_post_rollback}
use esp32_remot_control.Dht.{dht_init, dht_start}
use esp32_remot_control.Device.{Device}
use esp32_remot_control.Monitor.Policy.{factory_subtype}
use esp32_remot_control.Syscoord.{syscoord_init}
use esp32_remot_control.Wifi.Credentials.{Station}
use esp32_remot_control.Wifi.Start.{WifiCalls, wifi_start}
use esp32_remot_control.Command.{Board}
use esp32_remot_control.Command.Auth.{Token}
use esp32_remot_control.Command.Bus.{cmd_bus_init, cmd_bus_is_ready}
use esp32_remot_control.Command.Router.{Peripherals, led_init}

-- What the memory and NVS hold, and whether the tasks of the coordinator and of the router run.
pub record Machine : Type 0 where
  pub board : Board
  pub peripherals : Peripherals
  pub worker : Bool
  pub router : Bool

-- The answers of `nvs_flash_init`, with what stands in the way of an erasure.
pub data NvsInit : Type 0 where
  nvs_ready nvs_no_free_pages nvs_new_version nvs_broken : NvsInit

-- What a boot is answered: NVS, twice, and its erasure; the running partition; whether the Wi-Fi
-- namespace can be read; the tick; whether the queues and the tasks can be created, and the LED's pin
-- configured; and the answers to `wifi_start`.
pub record BootEnv : Type 0 where
  pub nvs_init : NvsInit
  pub nvs_erase : EspErr
  pub nvs_again : NvsInit
  pub running : Option Partition
  pub wifi_readable : Bool
  pub now : ℕ
  pub sys_queue_created : Bool
  pub worker_created : Bool
  pub bus_created : Bool
  pub sampler_created : Bool
  pub router_created : Bool
  pub led_configured : EspErr
  pub wifi : WifiCalls

pub data Booted : Type 0 where
  up : Machine → Booted
  aborted : Booted

-- `nvs_flash_erase`: nothing is stored any more.
unfoldable pub erased : Machine → Machine
erased m =
    let b = m.board in
    record m {
      board = record b {
        device = record b.device { nvs = record b.device.nvs { post_rb = none } };
        token = record b.token { stored = none };
        station = record b.station { saved = none };
      };
    }

abbrev pub checked : Bool → Booted → Booted
checked ok next = if ok then next else aborted

abbrev pub is_ready : NvsInit → Bool
is_ready nvs_ready = true
is_ready _ = false

-- Behind an erasure.
unfoldable pub after_erase : BootEnv → Machine → (Machine → Booted) → Booted
unfolding erased
after_erase env m next =
    checked (is_ok env.nvs_erase) (checked (is_ready env.nvs_again) (next (erased m)))

-- The first lines: NVS, erased if it has no room or another format.
unfoldable pub with_nvs : NvsInit → BootEnv → Machine → (Machine → Booted) → Booted
unfolding after_erase
with_nvs nvs_ready env m next = next m
with_nvs nvs_no_free_pages env m next = after_erase env m next
with_nvs nvs_new_version env m next = after_erase env m next
with_nvs nvs_broken env m next = aborted

abbrev pub is_factory : Option Partition → Bool
is_factory none = false
is_factory (some run) = run.subtype == factory_subtype

-- "clear any stale post-rollback latch"
unfoldable pub clear_latch : BootEnv → Machine → Machine
clear_latch env m =
    let d = m.board.device in
    if is_factory env.running
    then record m {
      board = record m.board { device = record d { nvs = bootflag_set_post_rollback false d.nvs } };
    }
    else m

-- `cmd_router_start`, behind `cmd_bus_init`; whether the task can be created is not looked at.
unfoldable pub cmd_router_start : BootEnv → Machine → Booted
cmd_router_start env m =
    checked (cmd_bus_is_ready m.board.bus) (up (record m { router = env.router_created }))

-- The coordinator and the bus.
unfoldable pub coordinated : BootEnv → Machine → Machine
coordinated env m = record m {
  board = record m.board {
    device = syscoord_init env.sys_queue_created m.board.device;
    bus = cmd_bus_init env.bus_created m.board.bus;
  };
  worker = env.worker_created;
}

-- `wifi_start(NULL, NULL)`
unfoldable pub on_air : BootEnv → Machine → Booted
on_air env m =
    let started =
      wifi_start env.wifi env.wifi_readable none none (m.board.device, m.board.station) in
    elim started [
      | none ↦ aborted
      | some (d, w) ↦ up (record m { board = record m.board { device = d; station = w } })
    ]

abbrev pub dht_period_ms : ℕ
dht_period_ms = 2000

abbrev pub then_boot : (Machine → Booted) → Booted → Booted
then_boot f (up m) = f m
then_boot f aborted = aborted

-- The sensor, the LED, the router and Wi-Fi.
unfoldable pub drivers : BootEnv → Machine → Booted
unfolding cmd_router_start on_air
drivers env m =
    let p = m.peripherals in
    let (e, sensor) = dht_start env.sampler_created (dht_init dht_period_ms env.now p.dht) in
    checked (is_ok e) (
      checked (is_ok env.led_configured) (
        then_boot (on_air env)
          (cmd_router_start env (record m { peripherals = led_init (record p { dht = sensor }) }))))

unfoldable pub app_main : BootEnv → Machine → Booted
unfolding with_nvs clear_latch coordinated drivers
app_main env m =
    with_nvs env.nvs_init env m (λ m'. drivers env (coordinated env (clear_latch env m')))
