-- ===== src/Command/Bus.antt =====
-- cmd_bus.c: the queue between the commands and the router. A send waits for a while (20 or 50 ms)
-- for room; it fails here if the queue is full when it stops waiting. FreeRTOS documents its queue as
-- first in, first out, with as many places as it was created with.
use esp32_remot_control.Prelude.{
  ℕ, Bool, true, false, Option, none, some, List, [], ◌∷◌, ◌++◌, ltb, length, if◌then◌else◌,
}

-- `cmd_t`
pub data BusCommand : Type 0 where
  bus_none bus_led_on bus_led_off bus_ota_start : BusCommand
  bus_dht_query bus_dht_stream_on bus_dht_stream_off bus_dht_state : BusCommand

-- `cmd_msg_t`; `ctx` is the link of the connection that asks.
pub record Message : Type 0 where
  pub command : BusCommand
  pub ctx : Option ℕ
  pub arg : ℕ

abbrev pub cmd_bus_depth : ℕ
cmd_bus_depth = 16

-- `created`: whether the queue can be created.
unfoldable pub cmd_bus_init : Bool → Option (List Message) → Option (List Message)
cmd_bus_init created none = if created then some [] else none
cmd_bus_init created (some q) = some q

unfoldable pub cmd_bus_is_ready : Option (List Message) → Bool
cmd_bus_is_ready none = false
cmd_bus_is_ready (some q) = true

-- Has it been sent, and the queue; the oldest message first.
unfoldable pub cmd_bus_send_msg : Message → Option (List Message) → Bool × Option (List Message)
cmd_bus_send_msg m none = (false, none)
cmd_bus_send_msg m (some q) =
    if ltb (length q) cmd_bus_depth then (true, some (q ++ m ∷ [])) else (false, some q)

unfoldable pub cmd_bus_receive_msg : Option (List Message) → Option Message × Option (List Message)
cmd_bus_receive_msg none = (none, none)
cmd_bus_receive_msg (some []) = (none, some [])
cmd_bus_receive_msg (some (m ∷ q)) = (some m, some q)

-- The wrappers without context.
unfoldable pub cmd_bus_send : BusCommand → Option (List Message) → Bool × Option (List Message)
cmd_bus_send c q = cmd_bus_send_msg (record { command = c; ctx = none; arg = 0 }) q

unfoldable pub cmd_bus_receive : Option (List Message) → Option BusCommand × Option (List Message)
cmd_bus_receive q =
    let (m, rest) = cmd_bus_receive_msg q in
    (elim m [ none ↦ none | some v ↦ some v.command ], rest)
