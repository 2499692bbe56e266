-- ===== src/Gatt/Server/Events.antt =====
-- `gatts_event_handler`, whole.
use esp32_remot_control.Prelude.{
  ℕ, Bool, true, false, ◌&&◌, Option, none, some, List, Bytes, codes, length, ◌==◌, if◌then◌else◌,
}
use esp32_remot_control.Errsrc.{errsrc_subscribe}
use esp32_remot_control.Fallback.{ble_set_connected}
use esp32_remot_control.Syscoord.{syscoord_on_ble_service_started}
use esp32_remot_control.Ota.Ble.{ble_ota_on_disconnect}
use esp32_remot_control.Gatt.Attributes.{efbe_idx_nb, handle_of, idx_tx_val}
use esp32_remot_control.Gatt.Notify.{
  tx, errsrc, alert, dht, set_value, on_mtu, on_connect, on_disconnect, gatt_server_notify_errsrc,
}
use esp32_remot_control.Gatt.Commands.{
  BleCmd, ble_cmd_create, ble_cmd_on_connect, ble_cmd_on_disconnect,
}
use esp32_remot_control.Gatt.Server.State.{
  Server, Surroundings, Outcome, runs, restarts, calls_gatt, on_read,
}
use esp32_remot_control.Gatt.Server.Writes.{after_hook, ota_world, on_write}

-- `esp_gatts_cb_event_t`, with what the handler reads of the parameters.
pub data GattEvent : Type 0 where
  reg start other_event : GattEvent
  creat_attr_tab : Bool → List ℕ → GattEvent
  mtu : ℕ → GattEvent
  read : ℕ → GattEvent
  write : ℕ → Bytes → GattEvent
  connect : ℕ → ℕ → GattEvent
  disconnect : GattEvent

-- `ok`: the status; the handles are those of the table, in its order.
unfoldable pub gatt_on_attr_table_created : Bool → List ℕ → Server → Server
gatt_on_attr_table_created ok handles s =
    if ok && length handles == efbe_idx_nb
    then (let s1 = record s {
      gatt_handle_table = handles;
      link = record s.link { has_table = true };
    } in
        let s2 = calls_gatt (set_value tx (codes "OK")) s1 in
        let s3 = calls_gatt (set_value errsrc (codes "NONE")) s2 in
        let s4 = calls_gatt (set_value alert (codes "ALERT seq=0 code=0")) s3 in
        calls_gatt (set_value dht (codes "DHT NA")) s4)
    else s

-- `ble_set_connected`, which the fallback provides.
abbrev pub set_connected : Bool → Server → Server
set_connected on s = record s {
  board = record s.board {
    device = record s.board.device { fb = ble_set_connected on s.board.device.fb };
  };
}

unfoldable pub on_connect_evt : ℕ → ℕ → Server → Server
on_connect_evt gatts_if conn_id s =
    let s1 = set_connected true (record s { link = on_connect s.link; dht_notify = false }) in
    record s1 {
      cli = ble_cmd_on_connect gatts_if conn_id (handle_of s1.gatt_handle_table idx_tx_val) s1.cli;
    }

-- The rest of the handler of a disconnect, behind the upload hook.
unfoldable pub disconnected : Server → Server
disconnected s =
    let s1 = set_connected false s in
    record s1 {
      cli = ble_cmd_on_disconnect s1.cli;
      link = on_disconnect s1.link;
      dht_notify = false;
    }

abbrev pub then_runs : (Server → Server) → Outcome → Outcome
then_runs f (runs s) = runs (f s)
then_runs f (restarts s) = restarts s

unfoldable pub gatts_event_handler : Surroundings → GattEvent → Server → Outcome
unfolding gatt_on_attr_table_created on_connect_evt disconnected on_read on_write
gatts_event_handler env reg s = runs (record s { link = record s.link { registered = true } })
gatts_event_handler env (creat_attr_tab ok handles) s =
    runs (gatt_on_attr_table_created ok handles s)
gatts_event_handler env start s = runs (record s {
  board = record s.board {
    device = syscoord_on_ble_service_started env.command.platform s.board.device;
  };
})
gatts_event_handler env (mtu m) s = runs (record s { link = on_mtu m s.link })
gatts_event_handler env (read h) s = runs (on_read env h s)
gatts_event_handler env (write h d) s = on_write env h d s
gatts_event_handler env (connect gatts_if conn_id) s = runs (on_connect_evt gatts_if conn_id s)
gatts_event_handler env disconnect s =
    then_runs disconnected (after_hook s (ble_ota_on_disconnect env.flash (ota_world s)))
gatts_event_handler env other_event s = runs s

-- `if (!g_ble_cli) g_ble_cli = ble_cmd_create()`
client_created : Option BleCmd → Option BleCmd
unfolding ble_cmd_create
client_created none = some ble_cmd_create
client_created (some cli) = some cli

-- `gatt_server_init`: the subscription to the error source tells it at once.
unfoldable pub gatt_server_init : Server → Server
unfolding client_created
gatt_server_init s =
    let e = errsrc_subscribe s.board.device.errsrc in
    record s {
      cli = client_created s.cli;
      board = record s.board { device = record s.board.device { errsrc = e } };
      link = gatt_server_notify_errsrc e.s_err s.link;
    }
