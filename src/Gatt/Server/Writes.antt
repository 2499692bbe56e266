-- ===== src/Gatt/Server/Writes.antt =====
-- `ESP_GATTS_WRITE_EVT`: each writable attribute.
use esp32_remot_control.Prelude.{
  ℕ, ◌%◌, Bool, Option, none, some, [], ◌∷◌, Bytes, c_str, codes, take, ◌==◌, if◌then◌else◌,
}
use esp32_remot_control.Alerts.{alert_latest}
use esp32_remot_control.Errsrc.{errsrc_get}
use esp32_remot_control.Command.{Board, Environment}
use esp32_remot_control.Ota.Ble
use esp32_remot_control.Ota.Ble.{World, Step, ble_ota_on_ctrl_write, ble_ota_on_data_write}
use esp32_remot_control.Gatt.Attributes.{
  Index, gatt_ccc_decode, idx_rx_val, idx_wifi_val, idx_tx_ccc, idx_errsrc_ccc, idx_alert_ccc,
  idx_dht_ccc, idx_ota_ctrl_val, idx_ota_data_val,
}
use esp32_remot_control.Gatt.Credentials.{parse_cred, send_status, gatt_on_wifi_cred_write}
use esp32_remot_control.Gatt.Notify.{dht, indicate, clamped, on_tx_ccc, on_errsrc_ccc, on_alert_ccc}
use esp32_remot_control.Gatt.Commands.{BleCmd, feed, receive}
use esp32_remot_control.Gatt.Server.Values.{alert_line}
use esp32_remot_control.Gatt.Server.State.{
  Server, Surroundings, Outcome, runs, restarts, calls_gatt, is_handle, on_read_dht_and_len,
}

-- `(gatt_ccc_decode(value, len) & 0x0001) != 0`
abbrev pub asks : Bytes → Bool
unfolding gatt_ccc_decode
asks d = gatt_ccc_decode d % 2 == 1

-- The upload hooks work with the monitor of the device.
abbrev pub ota_world : Server → World
ota_world s = record s.ota { monitor = s.board.device.monitor }

abbrev pub with_world : Server → World → Server
with_world s w = record s {
  ota = w;
  board = record s.board { device = record s.board.device { monitor = w.monitor } };
}

abbrev pub after_hook : Server → Step → Outcome
after_hook s (Ble.runs w) = runs (with_world s w)
after_hook s (Ble.restarts w) = restarts (with_world s w)

abbrev pub with_client : Server → Option BleCmd × Board → Server
with_client s (cli, b) = record s { cli = cli; board = b }

unfoldable pub refuse : Option (Bytes × Bytes) → Board → Board
refuse none b = send_status (codes "BADFMT") b
refuse (some cred) b = b

-- Credentials: without a client they are parsed and not used.
unfoldable pub receive_credentials :
    Environment → Bytes → Option BleCmd → Board → Option BleCmd × Board
unfolding refuse
receive_credentials env [] none b = (none, b)
receive_credentials env (c ∷ d) none b = (none, refuse (parse_cred (c_str (take 199 (c ∷ d)))) b)
receive_credentials env d (some cli) b = feed (gatt_on_wifi_cred_write env d) cli b

unfoldable pub on_dht_ccc : Surroundings → Bool → Server → Server
unfolding on_read_dht_and_len
on_dht_ccc env on s =
    let s' = record s { dht_notify = on } in
    if on
    then (let (text, s2) = on_read_dht_and_len env s' in
        calls_gatt (indicate dht (clamped s2.link.mtu_payload text)) s2)
    else s'

-- The chain of tests; `matches i` is `h == gatt_handle_table[i]`.
unfoldable pub on_match : Surroundings → (Index → Bool) → Bytes → Server → Outcome
unfolding receive receive_credentials on_dht_ccc
on_match env matches d s =
    if matches idx_rx_val
    then runs (with_client s (receive env.command d s.cli s.board))
    else if matches idx_wifi_val
    then runs (with_client s (receive_credentials env.command d s.cli s.board))
    else if matches idx_tx_ccc
    then runs (record s { link = on_tx_ccc (asks d) s.link })
    else if matches idx_errsrc_ccc
    then runs (record s { link = on_errsrc_ccc (asks d) (errsrc_get s.board.device.errsrc) s.link })
    else if matches idx_alert_ccc
    then runs (record s {
      link = on_alert_ccc (asks d) (alert_line (alert_latest s.board.device.alerts)) s.link;
    })
    else if matches idx_dht_ccc
    then runs (on_dht_ccc env (asks d) s)
    else if matches idx_ota_ctrl_val
    then after_hook s (ble_ota_on_ctrl_write env.flash s.board.device.mode d (ota_world s))
    else if matches idx_ota_data_val
    then after_hook s (ble_ota_on_data_write env.flash env.crc d (ota_world s))
    else runs s

unfoldable pub on_write : Surroundings → ℕ → Bytes → Server → Outcome
unfolding on_match
on_write env h d s = on_match env (is_handle s h) d s
