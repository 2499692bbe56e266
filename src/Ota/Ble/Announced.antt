-- ===== src/Ota/Ble/Announced.antt =====
-- The size and the CRC of an upload under way (ble_ota.c).
use esp32_remot_control.Prelude.{
  ℕ, ◌≡◌, inl, inr, true, false, not, ◌&&◌, if◌then◌else◌, codes, drop, Bytes, Bool-cases, arith,
  Option, none, some,
}
use esp32_remot_control.Mode.{Mode}
use esp32_remot_control.Scan.{scan_ux, has_prefix}
use esp32_remot_control.Esp.{FlashEnv}
use esp32_remot_control.Ota.Crc.{CrcRoutine}
use esp32_remot_control.Ota.Ble.{
  World, runs, ctrl_line, start_session, on_start, on_finish, ota_begin_xport,
  ble_ota_on_ctrl_write, ble_ota_on_data_write,
}
use esp32_remot_control.Ota.Ble.Frames.{on_frame-announced}
use esp32_remot_control.Ota.Ble.Hooks.{Hook, ctrl, frame, disconnect}

-- What a START line announces to a device without an upload: the size and the CRC that it gives.
abbrev pub announce : Hook → World → Option (ℕ × ℕ) → Option (ℕ × ℕ)
announce (ctrl mode d) w a =
    if not w.bo.active && has_prefix (codes "BL_OTA START") (ctrl_line d)
    then scan_ux (drop 12 (ctrl_line d))
    else a
announce (frame d) w a = a
announce disconnect w a = a

-- An upload under way is the announced one.
abbrev pub IsAnnounced : Option (ℕ × ℕ) → World → Type 0
IsAnnounced a w = w.bo.active ≡ true → a ≡ some (w.bo.total, w.bo.expect_crc)

module _ (env : FlashEnv) (crc : CrcRoutine) where
  start_session-IsAnnounced :
      (size expect : ℕ) (w : World)
      → w.bo.active ≡ false
      → IsAnnounced (some (size, expect)) (start_session env size expect w)
  unfolding start_session ota_begin_xport
  start_session-IsAnnounced size expect w idle = ground arith

  on_start-IsAnnounced :
      (mode : Mode) (o : Option (ℕ × ℕ)) (w : World)
      → w.bo.active ≡ false
      → IsAnnounced o (on_start env mode o w)
  unfolding on_start
  on_start-IsAnnounced mode none w idle = λ e. cc
  on_start-IsAnnounced mode (some (size, expect)) w idle =
      ground (arith, start_session-IsAnnounced size expect w idle)

  pub ble_ota_on_ctrl_write-IsAnnounced :
      (a : Option (ℕ × ℕ)) (mode : Mode) (d : Bytes) (w : World) {w' : World}
      → IsAnnounced a w
      → ble_ota_on_ctrl_write env mode d w ≡ runs w'
      → IsAnnounced (announce (ctrl mode d) w a) w'
  unfolding ble_ota_on_ctrl_write on_finish
  ble_ota_on_ctrl_write-IsAnnounced a mode d w i e = elim (Bool-cases w.bo.active) [
    | inl busy ↦ ground (arith, i busy)
    | inr idle ↦ ground (arith, on_start-IsAnnounced mode (scan_ux (drop 12 (ctrl_line d))) w idle)
  ]

  pub ble_ota_on_data_write-IsAnnounced :
      (a : Option (ℕ × ℕ)) (d : Bytes) (w : World) {w' : World}
      → IsAnnounced a w
      → ble_ota_on_data_write env crc d w ≡ runs w'
      → IsAnnounced a w'
  unfolding ble_ota_on_data_write
  ble_ota_on_data_write-IsAnnounced a d w {w'} i e = elim (Bool-cases w.bo.active) [
    | inl busy ↦ ground (arith, i busy, on_frame-announced env crc (drop 6 d) w {w' = w'})
    | inr idle ↦ ground arith
  ]
