-- ===== src/Boot/Driven.antt =====
-- What the drivers of a boot and Wi-Fi leave behind (main/main.c).
use esp32_remot_control.Prelude.{
  ℕ, ◌≡◌, refl, ap, ◌∙◌, Bool, true, false, Option, none, some, arith,
}
use esp32_remot_control.Esp.{is_ok}
use esp32_remot_control.Wifi.Credentials.{Station}
use esp32_remot_control.Command.{Board}
use esp32_remot_control.Command.Router.{Peripherals}
use esp32_remot_control.Dht.{Dht, dht_init, dht_start}
use esp32_remot_control.Device.{Device}
use esp32_remot_control.Wifi.{wifi_tcp_timer_create_once}
use esp32_remot_control.Wifi.Start.{wifi_start, wifi_start-device}
use esp32_remot_control.Command.Bus.{cmd_bus_is_ready}
use esp32_remot_control.Command.Router.{led_init}
use esp32_remot_control.Boot.{
  Machine, BootEnv, Booted, up, aborted, checked, then_boot, cmd_router_start, dht_period_ms,
  on_air, drivers,
}

abbrev pub on_timer : Device → Device
on_timer d = record d { wifi = wifi_tcp_timer_create_once d.wifi }

-- Wi-Fi has been started.
pub record OnAir (m m' : Machine) : Type 0 where
  pub timed :
      m'.board.device
      ≡ record m.board.device { wifi = wifi_tcp_timer_create_once m.board.device.wifi }
  pub same_bus : m'.board.bus ≡ m.board.bus
  pub same_peripherals : m'.peripherals ≡ m.peripherals
  pub same_router : m'.router ≡ m.router
  pub same_worker : m'.worker ≡ m.worker

on_air-OnAir : (env : BootEnv) (m m' : Machine) → on_air env m ≡ up m' → OnAir m m'
unfolding on_air
on_air-OnAir env m m' h =
    let b = m.board in
    go (wifi_start env.wifi env.wifi_readable none none (b.device, b.station))
      (λ x e. wifi_start-device env.wifi env.wifi_readable none none b.device b.station x e) h
  where
    go :
        (o : Option (Device × Station))
        → ((x : Device × Station)
            → o ≡ some x
            → x.0 ≡ record m.board.device { wifi = wifi_tcp_timer_create_once m.board.device.wifi })
        → elim o [
          | none ↦ aborted
          | some (d, w) ↦ up (record m { board = record m.board { device = d; station = w } })
        ]
          ≡ up m'
        → OnAir m m'
    go none k e = absurd cc
    go (some (d, w)) k e =
        let t = k (d, w) refl in
        record {
          timed = ground (arith, e, t);
          same_bus = ground (arith, e);
          same_peripherals = ground (arith, e);
          same_router = ground (arith, e);
          same_worker = ground (arith, e);
        }

-- The machine that is put on the air.
BeforeAir : (env : BootEnv) (m m' : Machine) → Type 0
BeforeAir env m m' =
    (m1 : Machine) × (on_air env m1 ≡ up m')
    × (m1.board ≡ m.board)
    × (cmd_bus_is_ready m1.board.bus ≡ true)
    × (m1.router ≡ env.router_created)
    × (m1.worker ≡ m.worker)
    × (m1.peripherals.led_level ≡ 0)
    × (m1.peripherals.dht.task ≡ true)
    × (m1.peripherals.dht.stream_on ≡ false)

pub checked-up :
    (ok : Bool) (b : Booted) (m' : Machine) → checked ok b ≡ up m' → (ok ≡ true) × (b ≡ up m')
checked-up true b m' h = (refl, h)
checked-up false b m' h = absurd cc

then_boot-up :
    (f : Machine → Booted) (ok : Bool) (m m' : Machine)
    → then_boot f (checked ok (up m)) ≡ up m'
    → (ok ≡ true) × (f m ≡ up m')
then_boot-up f true m m' h = (refl, h)
then_boot-up f false m m' h = absurd cc

sensor_up :
    (created : Bool) (period now : ℕ) (d : Dht)
    → let (e, d') = dht_start created (dht_init period now d) in
      is_ok e ≡ true → (d'.task ≡ true) × (d'.stream_on ≡ false)
unfolding dht_start dht_init
sensor_up created period now d h = ground arith

drivers-BeforeAir : (env : BootEnv) (m m' : Machine) → drivers env m ≡ up m' → BeforeAir env m m'
unfolding drivers cmd_router_start led_init BeforeAir
drivers-BeforeAir env m m' h =
    let p = m.peripherals in
    let (e, sensor) = dht_start env.sampler_created (dht_init dht_period_ms env.now p.dht) in
    let (ok, h1) = checked-up (is_ok e) _ m' h in
    let (lit, h2) = checked-up (is_ok env.led_configured) _ m' h1 in
    let m1 = record m {
      peripherals = led_init (record p { dht = sensor });
      router = env.router_created;
    } in
    let (ready, h3) = then_boot-up (on_air env) (cmd_bus_is_ready m.board.bus) m1 m' h2 in
    let (task, quiet) = sensor_up env.sampler_created dht_period_ms env.now p.dht ok in
    (m1, h3, refl, ready, refl, refl, refl, task, quiet)

-- The device that the coordinator has set up goes on the air with a timer for the TCP server.
pub record Driven (env : BootEnv) (m m' : Machine) : Type 0 where
  pub device :
      m'.board.device
      ≡ record m.board.device { wifi = wifi_tcp_timer_create_once m.board.device.wifi }
  pub bus_ready : cmd_bus_is_ready m'.board.bus ≡ true
  pub worker_kept : m'.worker ≡ m.worker
  pub routed : m'.router ≡ env.router_created
  pub dark : m'.peripherals.led_level ≡ 0
  pub sampling : m'.peripherals.dht.task ≡ true
  pub quiet : m'.peripherals.dht.stream_on ≡ false

pub drivers-Driven : (env : BootEnv) (m m' : Machine) → drivers env m ≡ up m' → Driven env m m'
unfolding BeforeAir
drivers-Driven env m m' h =
    let (m1, aired, board, ready, routed, worker, dark, task, quiet) =
      drivers-BeforeAir env m m' h in
    let a = on_air-OnAir env m1 m' aired in
    record {
      device = a.timed ∙ ap (λ (b : Board). on_timer b.device) board;
      bus_ready = ap cmd_bus_is_ready a.same_bus ∙ ready;
      worker_kept = a.same_worker ∙ worker;
      routed = a.same_router ∙ routed;
      dark = ap (λ (p : Peripherals). p.led_level) a.same_peripherals ∙ dark;
      sampling = ap (λ (p : Peripherals). p.dht.task) a.same_peripherals ∙ task;
      quiet = ap (λ (p : Peripherals). p.dht.stream_on) a.same_peripherals ∙ quiet;
    }
