-- ===== src/Gatt/Server/Spared.antt =====
-- What an event of the BLE link spares, and the steps of its handlers that do.
use esp32_remot_control.Prelude.{
  ◌≡◌, refl, ap, ◌∙◌, Bool, true, false, Option, none, some, Bytes, c_str, take, codes, ◌∷◌, [],
  if◌then◌else◌, arith,
}
use esp32_remot_control.Device.{Device}
use esp32_remot_control.Monitor.{Monitor}
use esp32_remot_control.Command.{Board, Environment}
use esp32_remot_control.Ota.Ble
use esp32_remot_control.Ota.Ble.{
  Step, ble_ota_on_ctrl_write, ble_ota_on_data_write, ble_ota_on_disconnect,
}
use esp32_remot_control.Ota.Ble.Idle.{Idle}
use esp32_remot_control.Gatt.Notify.{Link}
use esp32_remot_control.Gatt.Credentials.{parse_cred}
use esp32_remot_control.Gatt.Commands.{BleCmd, receive}
use esp32_remot_control.Gatt.Server.State.{Server, Outcome, runs}
use esp32_remot_control.Gatt.Server.Writes.{
  ota_world, with_world, after_hook, with_client, refuse, receive_credentials,
}
use esp32_remot_control.Gatt.Server.Lines.{
  Same, Untouched, Untouched-refl, Untouched-trans, device-Untouched, send_status-Untouched,
  ble_cmd_on_rx-Guest, gatt_on_wifi_cred_write-Guest,
}

abbrev pub client_authed : Option BleCmd → Bool
client_authed none = false
client_authed (some cli) = cli.ctx.authed

-- The board is untouched, the flash as it was, and no upload under way.
pub record Spared (s s' : Server) : Type 0 where
  pub untouched : Untouched s.board s'.board
  pub flash_kept : s'.ota.log ≡ s.ota.log
  pub inactive : s'.ota.bo.active ≡ false

pub Spared-trans : {s t u : Server} → Spared s t → Spared t u → Spared s u
Spared-trans p q = record {
  untouched = Untouched-trans p.untouched q.untouched;
  flash_kept = q.flash_kept ∙ p.flash_kept;
  inactive = q.inactive;
}

-- An event is handled without a restart, and spares the device if its client is a guest behind it.
pub record Returns (s : Server) (o : Outcome) : Type 0 where
  pub next : Server
  pub returns : o ≡ runs next
  pub spares : client_authed next.cli ≡ false → Spared s next

pub if-Returns :
    {s : Server} {x y : Outcome} (b : Bool)
    → Returns s x
    → Returns s y
    → Returns s (if b then x else y)
if-Returns true r q = r
if-Returns false r q = q

-- A handler that leaves the board and the upload.
pub kept-Returns :
    (s s' : Server)
    → s.ota.bo.active ≡ false
    → s'.board ≡ s.board
    → s'.ota ≡ s.ota
    → Returns s (runs s')
kept-Returns s s' a b o = record {
  next = s';
  returns = refl;
  spares = λ _. record {
    untouched = rw b (Untouched-refl s.board);
    flash_kept = ap (λ (w : Ble.World). w.log) o;
    inactive = ap (λ (w : Ble.World). w.bo.active) o ∙ a;
  };
}

pub link-Returns :
    (s : Server) (l : Link) → s.ota.bo.active ≡ false → Returns s (runs (record s { link = l }))
link-Returns s l a = kept-Returns s (record s { link = l }) a refl refl

-- One that changes of the board the device alone.
pub device-Returns :
    (s : Server) (d : Device) (s' : Server)
    → s.ota.bo.active ≡ false
    → Same s.board.device d
    → s'.board ≡ record s.board { device = d }
    → s'.ota ≡ s.ota
    → Returns s (runs s')
device-Returns s d s' a same b o = record {
  next = s';
  returns = refl;
  spares = λ _. record {
    untouched = rw b (device-Untouched s.board d same);
    flash_kept = ap (λ (w : Ble.World). w.log) o;
    inactive = ap (λ (w : Ble.World). w.bo.active) o ∙ a;
  };
}

pub client-Returns :
    (s : Server) (r : Option BleCmd × Board)
    → s.ota.bo.active ≡ false
    → (client_authed r.0 ≡ false → Untouched s.board r.1)
    → Returns s (runs (with_client s r))
client-Returns s (cli, b) a u = record {
  next = with_client s (cli, b);
  returns = refl;
  spares = λ g. record { untouched = u g; flash_kept = refl; inactive = a };
}

pub receive-Untouched :
    (env : Environment) (d : Bytes) (cli : Option BleCmd) (b : Board)
    → client_authed (receive env d cli b).0 ≡ false
    → Untouched b (receive env d cli b).1
unfolding receive
receive-Untouched env d none b g = Untouched-refl b
receive-Untouched env d (some cli) b g = (ble_cmd_on_rx-Guest env d cli.line cli.ctx b g).untouched

refuse-Untouched : (o : Option (Bytes × Bytes)) (b : Board) → Untouched b (refuse o b)
unfolding refuse
refuse-Untouched none b = send_status-Untouched (codes "BADFMT") b
refuse-Untouched (some cred) b = Untouched-refl b

pub receive_credentials-Untouched :
    (env : Environment) (d : Bytes) (cli : Option BleCmd) (b : Board)
    → client_authed (receive_credentials env d cli b).0 ≡ false
    → Untouched b (receive_credentials env d cli b).1
unfolding receive_credentials
receive_credentials-Untouched env [] none b g = Untouched-refl b
receive_credentials-Untouched env (c ∷ d) none b g =
    refuse-Untouched (parse_cred (c_str (take 199 (c ∷ d)))) b
receive_credentials-Untouched env d (some cli) b g =
    (gatt_on_wifi_cred_write-Guest env d cli.line cli.ctx b g).untouched

monitor-Same : (d : Device) (m : Monitor) → m ≡ d.monitor → Same d (record d { monitor = m })
monitor-Same d m e = ground arith

pub hook-Spared :
    (s : Server) (r : Step) (i : Idle (ota_world s) r) → Spared s (with_world s i.next)
hook-Spared s r i = record {
  untouched =
      device-Untouched s.board (record s.board.device { monitor = i.next.monitor })
        (monitor-Same s.board.device i.next.monitor i.monitor_left);
  flash_kept = i.log_kept;
  inactive = i.inactive;
}

pub after_hook-Idle :
    (s : Server) (r : Step) (i : Idle (ota_world s) r) → after_hook s r ≡ runs (with_world s i.next)
after_hook-Idle s r i = rw i.returns refl

pub hook-Returns : (s : Server) (r : Step) → Idle (ota_world s) r → Returns s (after_hook s r)
hook-Returns s r i = record {
  next = with_world s i.next;
  returns = after_hook-Idle s r i;
  spares = λ _. hook-Spared s r i;
}
