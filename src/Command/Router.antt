-- ===== src/Command/Router.antt =====
-- cmd_router.c: the task that takes the messages of the bus, with components/led/led.c. A reply goes to
-- the connection that the message names; a sample's values are whole.
use esp32_remot_control.Prelude.{
  ℕ, Bool, true, false, not, Option, none, some, List, ◌∷◌, ◌++◌, Bytes, codes, take, if◌then◌else◌,
}
use esp32_remot_control.Print.{print_u}
use esp32_remot_control.Command.Texts.{print_flag}
use esp32_remot_control.Dht.{Dht, Sample, dht_read_latest, dht_set_stream, dht_get_stream_state}
use esp32_remot_control.Command.Bus.{
  BusCommand, bus_led_on, bus_led_off, bus_dht_query, bus_dht_stream_on, bus_dht_stream_off,
  bus_dht_state, Message, cmd_bus_receive_msg,
}

-- The LED's level, the sensor, and the replies, newest first.
pub record Peripherals : Type 0 where
  pub led_level : ℕ
  pub dht : Dht
  pub answers : List (ℕ × Bytes)

-- The configuration has the LED active high.
unfoldable pub led_on : Peripherals → Peripherals
led_on p = record p { led_level = 1 }

unfoldable pub led_off : Peripherals → Peripherals
led_off p = record p { led_level = 0 }

unfoldable pub led_init : Peripherals → Peripherals
led_init p = record p { led_level = 0 }

-- `if (m.ctx) cmd_reply(m.ctx, ...)`, where `cmd_reply` says nothing to a context whose `write` is NULL.
-- `writes` tells of a context whether it is set.
abbrev pub answer : (ℕ → Bool) → Option ℕ → Bytes → Peripherals → Peripherals
answer writes none a p = p
answer writes (some link) a p =
    if writes link then record p { answers = (link, a) ∷ p.answers } else p

-- The answer to `dht?`, in a buffer of 64 bytes.
abbrev pub latest_answer : Sample × ℕ → Bytes
latest_answer (s, age) =
    if not s.valid
    then codes "DHT NA\n"
    else take 63 (
        codes "DHT T="
        ++ (print_u s.temp_c
            ++ (codes ".0C RH="
                ++ (print_u s.rh ++ (codes ".0% age=" ++ (print_u age ++ codes " ms\n"))))))

-- The answer to `dhtstate`, in a buffer of 96 bytes.
abbrev pub state_answer : Bool × ℕ → Sample × ℕ → Bytes
state_answer (on, interval) (s, age) = take 95 (
    codes "DHTSTATE stream="
    ++ (print_flag on
        ++ (codes " interval="
            ++ (print_u interval
                ++ (codes " valid="
                    ++ (print_flag s.valid
                        ++ (codes " age=" ++ (print_u age ++ codes " ms\n"))))))))

-- The switch, at a tick `now` of `tick_ms` ms.
unfoldable pub route : (ℕ → Bool) → ℕ → ℕ → BusCommand → Option ℕ → ℕ → Peripherals → Peripherals
unfolding led_on led_off
route writes tick_ms now bus_led_on ctx arg p = answer writes ctx (codes "LED_ON\n") (led_on p)
route writes tick_ms now bus_led_off ctx arg p = answer writes ctx (codes "LED_OFF\n") (led_off p)
route writes tick_ms now bus_dht_query ctx arg p =
    answer writes ctx (latest_answer (dht_read_latest tick_ms now p.dht)) p
route writes tick_ms now bus_dht_stream_on ctx arg p =
    answer writes ctx (codes "DHTSTREAM ON\n") (record p { dht = dht_set_stream true arg p.dht })
route writes tick_ms now bus_dht_stream_off ctx arg p =
    answer writes ctx (codes "DHTSTREAM OFF\n") (record p { dht = dht_set_stream false 0 p.dht })
route writes tick_ms now bus_dht_state ctx arg p =
    answer writes ctx
      (state_answer (dht_get_stream_state p.dht) (dht_read_latest tick_ms now p.dht)) p
route writes tick_ms now _ ctx arg p = p

unfoldable pub routed : (ℕ → Bool) → ℕ → ℕ → Option Message → Peripherals → Peripherals
unfolding route
routed writes tick_ms now none p = p
routed writes tick_ms now (some m) p = route writes tick_ms now m.command m.ctx m.arg p

-- One round of `cmd_router_task`.
unfoldable pub cmd_router_task :
    (ℕ → Bool) → ℕ → ℕ → Option (List Message) × Peripherals → Option (List Message) × Peripherals
unfolding routed
cmd_router_task writes tick_ms now (bus, p) =
    let (m, rest) = cmd_bus_receive_msg bus in (rest, routed writes tick_ms now m p)
