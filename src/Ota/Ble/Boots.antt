-- ===== src/Ota/Ble/Boots.antt =====
-- A hook that does not restart the device leaves the boot partition.
use esp32_remot_control.Prelude.{ℕ, ◌≡◌, inl, inr, drop, length, Bytes, Option-cases, arith}
use esp32_remot_control.Mode.{Mode}
use esp32_remot_control.Scan.{scan_ux}
use esp32_remot_control.Esp.{FlashEnv}
use esp32_remot_control.Ota.Crc.{CrcRoutine}
use esp32_remot_control.Ota.Session.{ble, ota_session_write, ota_session_finish}
use esp32_remot_control.Ota.Session.Boots.{
  boots, boots-ota_session_begin, boots-ota_session_write, boots-ota_session_finish,
  boots-ota_session_abort,
}
use esp32_remot_control.Ota.Ble.{
  World, runs, ctrl_line, start_session, on_start, on_finish, after_write, finalize, progress,
  on_frame, ota_begin_xport, ota_finish_xport, ota_abort_xport, ota_write_xport,
  ble_ota_on_ctrl_write, ble_ota_on_data_write, ble_ota_on_disconnect,
}

module _ (env : FlashEnv) where
  pub boots-ctrl :
      (mode : Mode) (d : Bytes) (w : World) {w' : World}
      → ble_ota_on_ctrl_write env mode d w ≡ runs w'
      → boots w'.log ≡ boots w.log
  unfolding ble_ota_on_ctrl_write on_start start_session on_finish ota_begin_xport ota_finish_xport
      ota_abort_xport
  boots-ctrl mode d w e = elim (Option-cases (scan_ux (drop 12 (ctrl_line d)))) [
    | inl unread ↦
        ground
          (arith, boots-ota_session_finish env w.s_ble w.log, boots-ota_session_abort w.s_ble w.log)
    | inr (sc, got) ↦ ground (
      arith,
      boots-ota_session_begin env w.s_ble sc.0 sc.1 ble w.log,
      boots-ota_session_finish env w.s_ble w.log,
      boots-ota_session_abort w.s_ble w.log,
    )
  ]

  boots-finalize : (w : World) {w' : World} → finalize env w ≡ runs w' → boots w'.log ≡ boots w.log
  unfolding finalize ota_finish_xport ota_abort_xport
  boots-finalize w e =
      let f = ota_session_finish env w.s_ble w.log in
      ground (arith, boots-ota_session_finish env w.s_ble w.log, boots-ota_session_abort f.1 f.2)

  boots-after_write :
      (blen : ℕ) (w : World) {w' : World}
      → after_write env blen w ≡ runs w'
      → boots w'.log ≡ boots w.log
  unfolding after_write progress finalize ota_finish_xport ota_abort_xport
  boots-after_write blen w e =
      let f = ota_session_finish env w.s_ble w.log in
      ground (arith, boots-ota_session_finish env w.s_ble w.log, boots-ota_session_abort f.1 f.2)

  pub boots-frame :
      (crc : CrcRoutine) (d : Bytes) (w : World) {w' : World}
      → ble_ota_on_data_write env crc d w ≡ runs w'
      → boots w'.log ≡ boots w.log
  unfolding ble_ota_on_data_write on_frame ota_write_xport ota_abort_xport
  boots-frame crc d w {w'} e =
      let r = ota_session_write env crc w.s_ble (drop 6 d) w.log in
      ground (
        arith,
        boots-ota_session_write env crc w.s_ble (drop 6 d) w.log,
        boots-ota_session_abort r.1 r.2,
        boots-after_write (length (drop 6 d)) (record w { s_ble = r.1; log = r.2 }) {w' = w'},
      )

  pub boots-disconnect :
      (w : World) {w' : World} → ble_ota_on_disconnect env w ≡ runs w' → boots w'.log ≡ boots w.log
  unfolding ble_ota_on_disconnect ota_finish_xport ota_abort_xport
  boots-disconnect w e =
      let f = ota_session_finish env w.s_ble w.log in
      ground (
        arith,
        boots-ota_session_finish env w.s_ble w.log,
        boots-ota_session_abort f.1 f.2,
        boots-ota_session_abort w.s_ble w.log,
      )
