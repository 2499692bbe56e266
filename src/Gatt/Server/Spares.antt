-- ===== src/Gatt/Server/Spares.antt =====
-- Each event of a device that is not in recovery mode and has no upload under way returns, and spares
-- the device if its client is a guest behind it.
use esp32_remot_control.Prelude.{ℕ, ◌≡◌, refl, Bool, true, false, List, Bytes, arith}
use esp32_remot_control.Mode.{is_recovery}
use esp32_remot_control.Device.{Device}
use esp32_remot_control.Alerts.{alert_latest}
use esp32_remot_control.Errsrc.{errsrc_get}
use esp32_remot_control.Fallback.{Fb, ble_set_connected}
use esp32_remot_control.Syscoord.{syscoord_on_ble_service_started}
use esp32_remot_control.Ota.Ble.{
  ble_ota_on_ctrl_write, ble_ota_on_data_write, ble_ota_on_disconnect,
}
use esp32_remot_control.Ota.Ble.Idle.{ctrl-Idle, frame-Idle, disconnect-Idle}
use esp32_remot_control.Gatt.Attributes.{
  Index, idx_rx_val, idx_wifi_val, idx_tx_ccc, idx_errsrc_ccc, idx_alert_ccc, idx_dht_ccc,
  idx_ota_ctrl_val, idx_ota_data_val,
}
use esp32_remot_control.Gatt.Notify.{on_tx_ccc, on_errsrc_ccc, on_alert_ccc, on_mtu}
use esp32_remot_control.Gatt.Server.Values.{alert_line}
use esp32_remot_control.Gatt.Commands.{receive}
use esp32_remot_control.Gatt.Server.State.{Server, Surroundings, Outcome, runs, is_handle, on_read}
use esp32_remot_control.Gatt.Server.Writes.{
  asks, ota_world, with_world, after_hook, receive_credentials, on_dht_ccc, on_match, on_write,
}
use esp32_remot_control.Gatt.Server.Events.{
  GattEvent, reg, start, other_event, creat_attr_tab, mtu, read, write, connect, disconnect,
  gatt_on_attr_table_created, on_connect_evt, disconnected, then_runs, gatts_event_handler,
}
use esp32_remot_control.Gatt.Server.Lines.{Same, Untouched-trans, device-Untouched}
use esp32_remot_control.Gatt.Server.Spared.{
  Spared, Returns, if-Returns, kept-Returns, link-Returns, device-Returns, client-Returns,
  receive-Untouched, receive_credentials-Untouched, hook-Spared, after_hook-Idle, hook-Returns,
}

dht_ccc-Returns :
    (env : Surroundings) (on : Bool) (s : Server)
    → s.ota.bo.active ≡ false
    → Returns s (runs (on_dht_ccc env on s))
unfolding on_dht_ccc
dht_ccc-Returns env on s a = kept-Returns s (on_dht_ccc env on s) a (ground arith) (ground arith)

match-Returns :
    (env : Surroundings) (matches : Index → Bool) (d : Bytes) (s : Server)
    → is_recovery s.board.device.mode ≡ false
    → s.ota.bo.active ≡ false
    → Returns s (on_match env matches d s)
unfolding on_match
match-Returns env matches d s r a =
    let hook = ble_ota_on_ctrl_write env.flash s.board.device.mode d (ota_world s) in
    if-Returns (matches idx_rx_val)
      (client-Returns s (receive env.command d s.cli s.board) a
        (receive-Untouched env.command d s.cli s.board))
      (if-Returns (matches idx_wifi_val)
        (client-Returns s (receive_credentials env.command d s.cli s.board) a
          (receive_credentials-Untouched env.command d s.cli s.board))
        (if-Returns (matches idx_tx_ccc) (link-Returns s (on_tx_ccc (asks d) s.link) a) (
          if-Returns (matches idx_errsrc_ccc)
            (link-Returns s (on_errsrc_ccc (asks d) (errsrc_get s.board.device.errsrc) s.link) a)
            (if-Returns (matches idx_alert_ccc)
              (link-Returns s
                (on_alert_ccc (asks d) (alert_line (alert_latest s.board.device.alerts)) s.link) a)
              (if-Returns (matches idx_dht_ccc) (dht_ccc-Returns env (asks d) s a) (
                if-Returns (matches idx_ota_ctrl_val)
                  (hook-Returns s hook
                    (ctrl-Idle env.flash s.board.device.mode d (ota_world s) r a))
                  (if-Returns (matches idx_ota_data_val)
                    (hook-Returns s (ble_ota_on_data_write env.flash env.crc d (ota_world s))
                      (frame-Idle env.flash env.crc d (ota_world s) a))
                    (kept-Returns s s a refl refl))))))))

read-Returns :
    (env : Surroundings) (h : ℕ) (s : Server)
    → s.ota.bo.active ≡ false
    → Returns s (runs (on_read env h s))
unfolding on_read
read-Returns env h s a = kept-Returns s (on_read env h s) a (ground arith) (ground arith)

table-Returns :
    (ok : Bool) (handles : List ℕ) (s : Server)
    → s.ota.bo.active ≡ false
    → Returns s (runs (gatt_on_attr_table_created ok handles s))
unfolding gatt_on_attr_table_created
table-Returns ok handles s a =
    kept-Returns s (gatt_on_attr_table_created ok handles s) a (ground arith) (ground arith)

fb-Same : (d : Device) (f : Fb) → Same d (record d { fb = f })
fb-Same d f = ground arith

then_runs-Returns :
    (f : Server → Server) (s : Server) (o : Outcome) (s' : Server)
    → o ≡ runs s'
    → Spared s (f s')
    → Returns s (then_runs f o)
then_runs-Returns f s o s' e p = record { next = f s'; returns = rw e refl; spares = λ _. p }

service-Same :
    (env : Surroundings) (d : Device)
    → is_recovery d.mode ≡ false
    → Same d (syscoord_on_ble_service_started env.command.platform d)
unfolding syscoord_on_ble_service_started
service-Same env d r = ground arith

-- A disconnect behind its upload hook changes of the board the fallback alone.
disconnected-Spared : (s s' : Server) → Spared s s' → Spared s (disconnected s')
unfolding disconnected
disconnected-Spared s s' p = record {
  untouched = Untouched-trans p.untouched (
      device-Untouched s'.board
        (record s'.board.device { fb = ble_set_connected false s'.board.device.fb })
        (fb-Same s'.board.device (ble_set_connected false s'.board.device.fb)));
  flash_kept = p.flash_kept;
  inactive = p.inactive;
}

pub handle-Returns :
    (env : Surroundings) (e : GattEvent) (s : Server)
    → is_recovery s.board.device.mode ≡ false
    → s.ota.bo.active ≡ false
    → Returns s (gatts_event_handler env e s)
unfolding gatts_event_handler on_connect_evt on_write
handle-Returns env reg s r a = link-Returns s (record s.link { registered = true }) a
handle-Returns env start s r a =
    let d = syscoord_on_ble_service_started env.command.platform s.board.device in
    device-Returns s d (record s { board = record s.board { device = d } }) a
      (service-Same env s.board.device r) refl refl
handle-Returns env other_event s r a = kept-Returns s s a refl refl
handle-Returns env (creat_attr_tab ok handles) s r a = table-Returns ok handles s a
handle-Returns env (mtu m) s r a = link-Returns s (on_mtu m s.link) a
handle-Returns env (read h) s r a = read-Returns env h s a
handle-Returns env (write h d) s r a = match-Returns env (is_handle s h) d s r a
handle-Returns env (connect gatts_if conn_id) s r a =
    let fb = ble_set_connected true s.board.device.fb in
    device-Returns s (record s.board.device { fb = fb }) (on_connect_evt gatts_if conn_id s) a
      (fb-Same s.board.device fb) refl refl
handle-Returns env disconnect s r a =
    let hook = ble_ota_on_disconnect env.flash (ota_world s) in
    let idle = disconnect-Idle env.flash (ota_world s) a in
    then_runs-Returns disconnected s (after_hook s hook) (with_world s idle.next)
      (after_hook-Idle s hook idle)
      (disconnected-Spared s (with_world s idle.next) (hook-Spared s hook idle))
