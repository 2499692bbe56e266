-- ===== src/Gatt/Server/Guest.antt =====
-- What BLE clients can do to the device without the token, whatever they send.
use esp32_remot_control.Prelude.{◌≡◌, ◌≢◌, refl, ap, ◌∙◌, false}
use esp32_remot_control.Mode.{is_recovery}
use esp32_remot_control.Gatt.Server.State.{Server, Surroundings, runs, restarts}
use esp32_remot_control.Gatt.Server.Events.{GattEvent, gatts_event_handler}
use esp32_remot_control.Gatt.Server.Lines.{Untouched-refl}
use esp32_remot_control.Gatt.Server.Spared.{client_authed, Spared, Spared-trans}
use esp32_remot_control.Gatt.Server.Spares.{handle-Returns}

-- Events of the GATT server behind each of which the client is not authenticated.
pub data Visit (s : Server) : Server → Type 0 where
  here : Visit s s
  next :
      {s1 s2 : Server} (env : Surroundings) (e : GattEvent)
      → Visit s s1
      → gatts_event_handler env e s1 ≡ runs s2
      → client_authed s2.cli ≡ false
      → Visit s s2

step-Spared :
    (env : Surroundings) (e : GattEvent) (s s' : Server)
    → is_recovery s.board.device.mode ≡ false
    → s.ota.bo.active ≡ false
    → gatts_event_handler env e s ≡ runs s'
    → client_authed s'.cli ≡ false
    → Spared s s'
step-Spared env e s s' r a h g =
    let ret = handle-Returns env e s r a in
    let same : ret.next ≡ s' = cc (ret.returns, h) in rw same at (ret.spares (rw same g))

Visit-Spared :
    (s s' : Server)
    → is_recovery s.board.device.mode ≡ false
    → s.ota.bo.active ≡ false
    → Visit s s'
    → Spared s s'
Visit-Spared s s' r a here = record {
  untouched = Untouched-refl s.board;
  flash_kept = refl;
  inactive = a;
}
Visit-Spared s s' r a (next {s1 = s1} env e v h g) =
    let p = Visit-Spared s s1 r a v in
    let mode = ap is_recovery p.untouched.device_kept.mode_kept ∙ r in
    Spared-trans p (step-Spared env e s1 s' mode p.inactive h g)

never_restarts :
    (env : Surroundings) (e : GattEvent) (s s' : Server)
    → is_recovery s.board.device.mode ≡ false
    → s.ota.bo.active ≡ false
    → gatts_event_handler env e s ≢ restarts s'
never_restarts env e s s' r a h = let ret = handle-Returns env e s r a in cc (ret.returns, h)

-- From a device that is not in recovery mode and has no upload under way, any events of the GATT
-- server (connections, writes of any bytes to any attribute, disconnects) behind which no client is
-- authenticated leave the stored token, the Wi-Fi configuration and the flash as they were, run no
-- upload, order nothing, and keep the mode, the post-rollback flag, the boot partition and the
-- monitor; and no further event restarts the device.
pub guests_spare :
    (env : Surroundings) (e : GattEvent) (s s' s'' : Server)
    → is_recovery s.board.device.mode ≡ false
    → s.ota.bo.active ≡ false
    → Visit s s'
    → Spared s s' × (gatts_event_handler env e s' ≢ restarts s'')
guests_spare env e s s' s'' r a v =
    let p = Visit-Spared s s' r a v in
    let mode = ap is_recovery p.untouched.device_kept.mode_kept ∙ r in
    (p, never_restarts env e s' s'' mode p.inactive)
