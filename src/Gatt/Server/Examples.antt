-- ===== src/Gatt/Server/Examples.antt =====
-- A server with a guest, tests of the values, and instances of the theorems.
use esp32_remot_control.Prelude.{ℕ, ◌≡◌, ◌≢◌, refl, true, false, some, List, [], ◌∷◌, codes}
use esp32_remot_control.Print.{print_u}
use esp32_remot_control.Alerts.{alert_ble_fatal}
use esp32_remot_control.Fallback.{ble_set_connected}
use esp32_remot_control.Framing.{ble_cmd_on_rx}
use esp32_remot_control.Command.{ble, reply}
use esp32_remot_control.Command.Dispatch.{cmd_dispatch_line}
use esp32_remot_control.Command.Fixtures.{env, board}
use esp32_remot_control.Ota.Crc.{software_crc}
use esp32_remot_control.Ota.Session.{cleared}
use esp32_remot_control.Ota.Writer.{no_writer}
use esp32_remot_control.Ota.Fixtures.{willing}
use esp32_remot_control.Ota.Ble.{reset_state, ble_ota_on_disconnect}
use esp32_remot_control.Gatt.Attributes.{idx_tx_char, idx_dht_ccc, tx_props, gatt_build_attr_table}
use esp32_remot_control.Gatt.Attributes.Consistent.{Described, gatt_build_attr_table-Described}
use esp32_remot_control.Gatt.Credentials.{dispatch_on}
use esp32_remot_control.Gatt.Commands.{ble_cmd_on_connect, receive}
use esp32_remot_control.Gatt.Server.Values.{alert_line, dht_line}
use esp32_remot_control.Gatt.Server.State.{Server, Surroundings, Outcome, runs, restarts}
use esp32_remot_control.Gatt.Server.Writes.{on_write}
use esp32_remot_control.Gatt.Server.Events.{
  write, connect, disconnect, on_connect_evt, gatts_event_handler,
}
use esp32_remot_control.Gatt.Server.Routing.{effect, on_write_reaches}
use esp32_remot_control.Gatt.Server.Spared.{client_authed, Spared}
use esp32_remot_control.Gatt.Server.Guest.{here, next, guests_spare}
use esp32_remot_control.Gatt.Server.Sessions.{IsFresh, next_client}

alert_line_example :
    alert_line (record { seq = 65535; code = alert_ble_fatal; detail = codes "no control" })
    ≡ codes "ALERT seq=65535 code=9 no control"
unfolding alert_line print_u
alert_line_example = refl

dht_line_example :
    dht_line (record { valid = true; temp_c = 21; rh = 40 }) 1500
    ≡ codes "DHT T=21.0C RH=40.0% age=1500ms"
unfolding dht_line print_u
dht_line_example = refl

abbrev handles : List ℕ
handles =
    40 ∷ 41 ∷ 42 ∷ 43 ∷ 44 ∷ 45 ∷ 46 ∷ 47 ∷ 48 ∷ 49 ∷ 50 ∷ 51 ∷ 52 ∷ 53 ∷ 54 ∷ 55 ∷ 56 ∷ 57 ∷ 58
    ∷ 59 ∷ 60 ∷ []

abbrev around : Surroundings
around = record { command = env; flash = willing; crc = software_crc; now = 100; tick_ms = 10 }

abbrev server : Server
server = record {
  link = record {
    registered = true;
    connected = false;
    has_table = true;
    mtu_payload = 180;
    tx_notify = false;
    es_notify = false;
    alert_notify = false;
    s_last_errsrc_sent = [];
    calls = [];
  };
  dht_notify = false;
  gatt_handle_table = handles;
  cli = some (record {
    ifx = 0;
    conn_id = 0;
    tx_handle = 0;
    line = codes "AUT";
    ctx = record { authed = true; xport = ble; link = 0 };
  });
  ota = record {
    bo = reset_state;
    s_ble = cleared no_writer;
    log = [];
    monitor = board.device.monitor;
    tx = [];
  };
  board = board;
  sampler = record {
    inited = true;
    def_period_ms = 2000;
    stream_on = false;
    period_ms = 2000;
    last_tick = 0;
    last = record { valid = false; temp_c = 0; rh = 0 };
    task = true;
    woken = false;
  };
  responses = [];
}

abbrev server_of : Outcome → Server
server_of (runs s) = s
server_of (restarts s) = s

gatt_build_attr_table-Described_example : Described idx_tx_char tx_props
unfolding gatt_build_attr_table
gatt_build_attr_table-Described_example = gatt_build_attr_table-Described idx_tx_char tx_props refl

on_write_reaches_example :
    gatts_event_handler around (write 60 (1 ∷ 0 ∷ [])) server
    ≡ effect around idx_dht_ccc (1 ∷ 0 ∷ []) server
on_write_reaches_example =
    on_write_reaches around idx_dht_ccc (1 ∷ 0 ∷ []) server
      (record { complete = refl; different = refl })

abbrev met : Server
met = server_of (gatts_event_handler around (connect 3 0) server)

abbrev tried : Server
tried = server_of (gatts_event_handler around (write 42 (codes "led_on\nled_on\n")) met)

met_lem : gatts_event_handler around (connect 3 0) server ≡ runs met
unfolding gatts_event_handler
met_lem = refl

tried_lem : gatts_event_handler around (write 42 (codes "led_on\nled_on\n")) met ≡ runs tried
unfolding gatts_event_handler on_write
tried_lem = refl

tried_denied : tried.board.out ≡ reply (codes "DENIED\n") ∷ reply (codes "DENIED\n") ∷ []
unfolding gatts_event_handler on_write on_connect_evt receive ble_cmd_on_rx dispatch_on
    cmd_dispatch_line ble_cmd_on_connect ble_set_connected
tried_denied = refl

met_guest : client_authed met.cli ≡ false
unfolding gatts_event_handler on_connect_evt ble_cmd_on_connect
met_guest = refl

tried_guest : client_authed tried.cli ≡ false
unfolding gatts_event_handler on_write on_connect_evt receive ble_cmd_on_rx dispatch_on
    cmd_dispatch_line ble_cmd_on_connect ble_set_connected
tried_guest = refl

guests_spare_example :
    Spared server tried × (gatts_event_handler around disconnect tried ≢ restarts server)
guests_spare_example = guests_spare around disconnect server tried server refl refl (
    next around (write 42 (codes "led_on\nled_on\n"))
      (next around (connect 3 0) here met_lem met_guest) tried_lem tried_guest)

abbrev left : Server
left = server_of (gatts_event_handler around disconnect server)

left_lem : gatts_event_handler around disconnect server ≡ runs left
unfolding gatts_event_handler ble_ota_on_disconnect
left_lem = refl

abbrev second : Server
second = server_of (gatts_event_handler around (connect 3 1) left)

second_lem : gatts_event_handler around (connect 3 1) left ≡ runs second
unfolding gatts_event_handler
second_lem = refl

next_client_example : IsFresh second × (second.link.mtu_payload ≡ server.link.mtu_payload)
next_client_example = next_client around around 3 1 server left second left_lem second_lem
