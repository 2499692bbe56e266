-- ===== src/Boot/Started.antt =====
-- What a boot that comes up has set up.
use esp32_remot_control.Prelude.{◌≡◌, true, false, none, some, if◌then◌else◌}
use esp32_remot_control.Mode.{wait_control}
use esp32_remot_control.Bootflag.{bootflag_is_post_rollback}
use esp32_remot_control.Device.{Device, Platform}
use esp32_remot_control.System.{Runs}
use esp32_remot_control.System.Invariant.{IsCoordinated}
use esp32_remot_control.Command.Bus.{cmd_bus_is_ready}
use esp32_remot_control.Boot.{Machine, BootEnv, is_factory}
use esp32_remot_control.Boot.Driven.{Driven}

-- A device that waits for control, with the lifeboat hidden and nothing queued.
pub record Waits (env : BootEnv) (d : Device) : Type 0 where
  pub waiting : d.mode ≡ wait_control
  pub hidden : d.fb.lifeboat_enabled ≡ false
  pub nothing_queued : d.recoveries ≡ (if env.sys_queue_created then some 0 else none)
  pub armed : d.monitor.done ≡ false
  pub unlatched :
      is_factory env.running ≡ true
      → d.nvs.readable ≡ true
      → d.nvs.writable ≡ true
      → bootflag_is_post_rollback d.nvs ≡ false

-- The device and its peripherals behind a boot, and in every state that follows without a restart.
pub record Started (env : BootEnv) (m : Machine) : Type 0 where
  pub waits : Waits env m.board.device
  pub bus_ready : cmd_bus_is_ready m.board.bus ≡ true
  pub sampling : m.peripherals.dht.task ≡ true
  pub worker : m.worker ≡ env.worker_created
  pub routed : m.router ≡ env.router_created
  pub dark : m.peripherals.led_level ≡ 0
  pub quiet : m.peripherals.dht.stream_on ≡ false
  pub stays : (p : Platform) (d : Device) → Runs p m.board.device d → IsCoordinated d
