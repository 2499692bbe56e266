-- ===== src/Gatt/Server/Sessions.antt =====
-- What one BLE client leaves to the next, as a whole.
use esp32_remot_control.Prelude.{ℕ, ◌≡◌, refl, ap, sym, ◌∙◌, false, Option, none, some, [], arith}
use esp32_remot_control.Esp.{FlashEnv}
use esp32_remot_control.Ota.Ble
use esp32_remot_control.Ota.Ble.{World, Step, ble_ota_on_disconnect}
use esp32_remot_control.Gatt.Notify.{on_connect, on_disconnect}
use esp32_remot_control.Gatt.Commands.{BleCmd, ble_cmd_on_connect}
use esp32_remot_control.Gatt.Server.State.{Server, Surroundings, runs}
use esp32_remot_control.Gatt.Server.Writes.{ota_world, with_world, after_hook}
use esp32_remot_control.Gatt.Server.Events.{
  connect, disconnect, on_connect_evt, disconnected, then_runs, gatts_event_handler,
}

-- A client that has sent nothing and proved nothing.
abbrev pub IsNew : Option BleCmd → Type 0
IsNew none = Unit {0}
IsNew (some cli) = (cli.line ≡ []) × (cli.ctx.authed ≡ false)

pub record IsFresh (s : Server) : Type 0 where
  pub new_client : IsNew s.cli
  pub tx_off : s.link.tx_notify ≡ false
  pub errsrc_off : s.link.es_notify ≡ false
  pub alert_off : s.link.alert_notify ≡ false
  pub dht_off : s.dht_notify ≡ false
  pub no_upload : s.ota.bo.active ≡ false

-- The upload hook of a disconnect ends the upload.
hook-inactive :
    (env : FlashEnv) (w w' : World)
    → ble_ota_on_disconnect env w ≡ Ble.runs w'
    → w'.bo.active ≡ false
unfolding ble_ota_on_disconnect
hook-inactive env w w' h = ground arith

then_runs-hook :
    (s s1 : Server) (r : Step)
    → ((w : World) → r ≡ Ble.runs w → w.bo.active ≡ false)
    → then_runs disconnected (after_hook s r) ≡ runs s1
    → (s1.link.mtu_payload ≡ s.link.mtu_payload) × (s1.ota.bo.active ≡ false)
unfolding disconnected on_disconnect
then_runs-hook s s1 (Ble.runs w) a h =
    let same : disconnected (with_world s w) ≡ s1 = cc in
    (
      ap (λ (v : Server). v.link.mtu_payload) (sym same),
      ap (λ (v : Server). v.ota.bo.active) (sym same) ∙ a w refl,
    )
then_runs-hook s s1 (Ble.restarts w) a h = absurd cc

connect-IsNew : (g c h : ℕ) (cli : Option BleCmd) → IsNew (ble_cmd_on_connect g c h cli)
unfolding ble_cmd_on_connect
connect-IsNew g c h none = tt
connect-IsNew g c h (some cli) = (refl, refl)

-- A client that connects after another one has left, without a restart, is not authenticated, has no
-- begun command line, no subscription and no upload, whatever the other one had; but the payload of
-- its link is the one that was negotiated before.
pub next_client :
    (env env' : Surroundings) (gatts_if conn_id : ℕ) (s s1 s2 : Server)
    → gatts_event_handler env disconnect s ≡ runs s1
    → gatts_event_handler env' (connect gatts_if conn_id) s1 ≡ runs s2
    → IsFresh s2 × (s2.link.mtu_payload ≡ s.link.mtu_payload)
unfolding gatts_event_handler on_connect_evt on_connect
next_client env env' gatts_if conn_id s s1 s2 h k =
    let left =
      then_runs-hook s s1 (ble_ota_on_disconnect env.flash (ota_world s))
        (λ w. hook-inactive env.flash (ota_world s) w) h in
    let same : on_connect_evt gatts_if conn_id s1 ≡ s2 = cc in
    rw⁻¹ same (
      record {
        new_client = connect-IsNew gatts_if conn_id _ s1.cli;
        tx_off = refl;
        errsrc_off = refl;
        alert_off = refl;
        dht_off = refl;
        no_upload = left.1;
      },
      left.0,
    )
