-- ===== src/Gatt/Server/State.antt =====
-- The state of the server, and the reads of its values.
use esp32_remot_control.Prelude.{ℕ, Bool, Option, List, ◌∷◌, Bytes, ◌==◌, if◌then◌else◌}
use esp32_remot_control.Esp.{FlashEnv}
use esp32_remot_control.Alerts.{alert_latest}
use esp32_remot_control.Errsrc.{errsrc_get}
use esp32_remot_control.Dht.{Dht, dht_read_latest}
use esp32_remot_control.Command.{Board, Environment}
use esp32_remot_control.Ota.Crc.{CrcRoutine}
use esp32_remot_control.Ota.Ble.{World}
use esp32_remot_control.Gatt.Attributes.{
  Index, handle_of, idx_errsrc_val, idx_alert_val, idx_dht_val,
}
use esp32_remot_control.Gatt.Notify.{errsrc, alert, dht, GattCall, set_value, Link}
use esp32_remot_control.Gatt.Commands.{BleCmd}
use esp32_remot_control.Gatt.Server.Values.{alert_line, dht_line}

-- The statics of gatt_server.c (`link`, `dht_notify`, `gatt_handle_table`, `cli`), the state of the
-- components behind them, and the responses that are sent to reads, newest first. `ota.monitor` is
-- that of the board while an upload hook runs.
pub record Server : Type 0 where
  pub link : Link
  pub dht_notify : Bool
  pub gatt_handle_table : List ℕ
  pub cli : Option BleCmd
  pub ota : World
  pub board : Board
  pub sampler : Dht
  pub responses : List (ℕ × Bytes)

-- What surrounds an event: the answers of ESP-IDF, the tick count and the length of a tick.
pub record Surroundings : Type 0 where
  pub command : Environment
  pub flash : FlashEnv
  pub crc : CrcRoutine
  pub now : ℕ
  pub tick_ms : ℕ

-- An event is handled, or the device restarts inside it.
pub data Outcome : Type 0 where
  runs restarts : Server → Outcome

abbrev pub calls_gatt : GattCall → Server → Server
calls_gatt c s = record s { link = record s.link { calls = c ∷ s.link.calls } }

abbrev pub is_handle : Server → ℕ → Index → Bool
is_handle s h i = h == handle_of s.gatt_handle_table i

unfoldable pub on_read_errsrc : Server → Server
on_read_errsrc s = calls_gatt (set_value errsrc (errsrc_get s.board.device.errsrc)) s

unfoldable pub on_read_alert : Server → Server
on_read_alert s = calls_gatt (set_value alert (alert_line (alert_latest s.board.device.alerts))) s

-- The text of the latest reading, and the state once it has been set.
unfoldable pub on_read_dht_and_len : Surroundings → Server → Bytes × Server
on_read_dht_and_len env s =
    let (sample, age_ms) = dht_read_latest env.tick_ms env.now s.sampler in
    let text = dht_line sample age_ms in (text, calls_gatt (set_value dht text) s)

-- `ESP_GATTS_READ_EVT`
unfoldable pub on_read : Surroundings → ℕ → Server → Server
unfolding on_read_errsrc on_read_alert on_read_dht_and_len
on_read env h s =
    if is_handle s h idx_errsrc_val
    then on_read_errsrc s
    else if is_handle s h idx_alert_val
    then on_read_alert s
    else if is_handle s h idx_dht_val
    then (let (text, s') = on_read_dht_and_len env s in
        record s' { responses = (h, text) ∷ s'.responses })
    else s
