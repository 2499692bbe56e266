-- ===== src/Gatt/Server/Routing.antt =====
-- Which attribute a write reaches.
use mathlib.Core.Path.{fun_ext}
use esp32_remot_control.Prelude.{◌≡◌, refl, ap, ◌∙◌, Bool, Bytes, ◌==◌}
use esp32_remot_control.Alerts.{alert_latest}
use esp32_remot_control.Errsrc.{errsrc_get}
use esp32_remot_control.Ota.Ble.{ble_ota_on_ctrl_write, ble_ota_on_data_write}
use esp32_remot_control.Gatt.Attributes.{
  Index, position, handle_of, idx_rx_val, idx_tx_ccc, idx_wifi_val, idx_errsrc_ccc, idx_alert_ccc,
  idx_ota_ctrl_val, idx_ota_data_val, idx_dht_ccc,
}
use esp32_remot_control.Gatt.Attributes.Handles.{IsTable, handle_of-eq}
use esp32_remot_control.Gatt.Notify.{on_tx_ccc, on_errsrc_ccc, on_alert_ccc}
use esp32_remot_control.Gatt.Commands.{receive}
use esp32_remot_control.Gatt.Server.Values.{alert_line}
use esp32_remot_control.Gatt.Server.State.{Server, Surroundings, Outcome, runs}
use esp32_remot_control.Gatt.Server.Writes.{
  asks, ota_world, after_hook, with_client, receive_credentials, on_dht_ccc, on_match, on_write,
}
use esp32_remot_control.Gatt.Server.Events.{write, gatts_event_handler}

-- What a write to each attribute is for.
abbrev pub effect : Surroundings → Index → Bytes → Server → Outcome
effect env idx_rx_val d s = runs (with_client s (receive env.command d s.cli s.board))
effect env idx_wifi_val d s = runs (with_client s (receive_credentials env.command d s.cli s.board))
effect env idx_tx_ccc d s = runs (record s { link = on_tx_ccc (asks d) s.link })
effect env idx_errsrc_ccc d s =
    runs (record s { link = on_errsrc_ccc (asks d) (errsrc_get s.board.device.errsrc) s.link })
effect env idx_alert_ccc d s = runs (record s {
  link = on_alert_ccc (asks d) (alert_line (alert_latest s.board.device.alerts)) s.link;
})
effect env idx_dht_ccc d s = runs (on_dht_ccc env (asks d) s)
effect env idx_ota_ctrl_val d s =
    after_hook s (ble_ota_on_ctrl_write env.flash s.board.device.mode d (ota_world s))
effect env idx_ota_data_val d s =
    after_hook s (ble_ota_on_data_write env.flash env.crc d (ota_world s))
effect env _ d s = runs s

chosen :
    (env : Surroundings) (i : Index) (d : Bytes) (s : Server)
    → on_match env (λ j. position i == position j) d s ≡ effect env i d s
unfolding on_match
chosen env idx_rx_val d s = refl
chosen env _ d s = refl

-- With the handles of a complete table, all different, a write to the handle of an attribute has the
-- effect of that attribute, and one to an attribute that is not for writing has none.
pub on_write_reaches :
    (env : Surroundings) (i : Index) (d : Bytes) (s : Server)
    → IsTable s.gatt_handle_table
    → gatts_event_handler env (write (handle_of s.gatt_handle_table i) d) s ≡ effect env i d s
unfolding gatts_event_handler on_write
on_write_reaches env i d s t =
    ap (λ (matches : Index → Bool). on_match env matches d s)
      (fun_ext (λ j. handle_of-eq s.gatt_handle_table i j t))
    ∙ chosen env i d s
