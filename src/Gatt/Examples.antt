-- ===== src/Gatt/Examples.antt =====
-- Tests and instances of the theorems on provisioning.
use esp32_remot_control.Prelude.{◌≡◌, refl, true, false, some, [], codes, arith}
use esp32_remot_control.Command.{ble, Context}
use esp32_remot_control.Command.Fixtures.{env, board}
use esp32_remot_control.Gatt.Credentials.{gatt_on_wifi_cred_write}
use esp32_remot_control.Gatt.Notify.{
  Link, gatt_server_send_status, on_connect, on_disconnect, on_errsrc_ccc,
}
use esp32_remot_control.Gatt.Notify.Stream.{received, within, gatt_server_send_status_lem}
use esp32_remot_control.Gatt.Notify.Subscribers.{errsrc_indications, second_subscriber_misses}
use esp32_remot_control.Gatt.Provisioning.{words_saved}

abbrev phone : Context
phone = record { authed = true; xport = ble; link = 0 }

words_saved_example :
    (gatt_on_wifi_cred_write env (codes "home\nsecret") ([], (phone, board))).1.1.station.saved
    ≡ some (codes "home", codes "secret")
words_saved_example =
    words_saved env (codes "home") (codes "secret") phone board
      (record { nonempty = refl; all_printable = refl })
      (record { nonempty = refl; all_printable = refl }) (omega arith) (omega arith) refl refl

abbrev fresh_link : Link
fresh_link = record {
  registered = true;
  connected = true;
  has_table = true;
  mtu_payload = 20;
  tx_notify = true;
  es_notify = false;
  alert_notify = false;
  s_last_errsrc_sent = [];
  calls = [];
}

gatt_server_send_status_lem_example :
    let l' = gatt_server_send_status (codes "WIFI: GOT IP ip=10.0.0.7") fresh_link in
    (received l'.calls ≡ codes "WIFI: GOT IP ip=10.0.0.7\n")
    × (within 20 [] ≡ true → within 20 l'.calls ≡ true)
gatt_server_send_status_lem_example =
    gatt_server_send_status_lem (codes "WIFI: GOT IP ip=10.0.0.7") fresh_link refl refl refl
      (omega arith)

second_subscriber_misses_example :
    let l1 = on_errsrc_ccc true (codes "NO_AP") (on_connect fresh_link) in
    let l2 = on_errsrc_ccc true (codes "NO_AP") (on_connect (on_disconnect l1)) in
    errsrc_indications l2.calls ≡ errsrc_indications l1.calls
second_subscriber_misses_example =
    second_subscriber_misses b'N' (codes "O_AP") fresh_link (omega arith)
