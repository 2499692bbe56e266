-- ===== src/Ota/Ble/Assembled.antt =====
-- The chunks that an upload under way has flashed (ble_ota.c).
use esp32_remot_control.Prelude.{
  ℕ, suc, ◌+◌, ◌%◌, ◌≡◌, inl, inr, true, false, drop, length-drop, Bytes, Bool-cases, arith, Option,
  none, some,
}
use esp32_remot_control.Mode.{Mode}
use esp32_remot_control.Scan.{scan_ux}
use esp32_remot_control.Esp.{is_ok-eq, FlashEnv, IsDocumented, image}
use esp32_remot_control.Ota.Crc.{CrcRoutine}
use esp32_remot_control.Ota.Session.{ble, ota_session_begin}
use esp32_remot_control.Ota.Session.Image.{ota_session_begin-IsTracked}
use esp32_remot_control.Ota.Ble.{
  World, runs, ctrl_line, start_session, on_start, on_finish, ota_begin_xport,
  ble_ota_on_ctrl_write, ble_ota_on_data_write,
}
use esp32_remot_control.Ota.Ble.Synced.{IsSynced}
use esp32_remot_control.Ota.Ble.Frames.{on_frame-runs}
use esp32_remot_control.Ota.Ble.Hooks.{frame, sent, IsFrom}

-- An upload under way holds the chunks below the expected number.
abbrev pub IsAssembled : (ℕ → Bytes) → World → Type 0
IsAssembled chunk w =
    w.bo.active ≡ true → image w.s_ble.wr.handle w.log ≡ sent chunk w.bo.expect_seq

module _ (env : FlashEnv) (crc : CrcRoutine) where
  start_session-IsAssembled :
      (chunk : ℕ → Bytes) (size expect : ℕ) (w : World)
      → IsDocumented env
      → w.bo.active ≡ false
      → IsAssembled chunk (start_session env size expect w)
  unfolding start_session ota_begin_xport
  start_session-IsAssembled chunk size expect w doc idle = ground (
    arith,
    ota_session_begin-IsTracked env crc w.s_ble size expect ble w.log doc,
    is_ok-eq (ota_session_begin env w.s_ble size expect ble w.log).0,
  )

  on_start-IsAssembled :
      (chunk : ℕ → Bytes) (mode : Mode) (o : Option (ℕ × ℕ)) (w : World)
      → IsDocumented env
      → w.bo.active ≡ false
      → IsAssembled chunk (on_start env mode o w)
  unfolding on_start
  on_start-IsAssembled chunk mode none w doc idle = λ e. cc
  on_start-IsAssembled chunk mode (some (size, expect)) w doc idle =
      ground (arith, start_session-IsAssembled chunk size expect w doc idle)

  pub ble_ota_on_ctrl_write-IsAssembled :
      (chunk : ℕ → Bytes) (mode : Mode) (d : Bytes) (w : World) {w' : World}
      → IsDocumented env
      → IsAssembled chunk w
      → ble_ota_on_ctrl_write env mode d w ≡ runs w'
      → IsAssembled chunk w'
  unfolding ble_ota_on_ctrl_write on_finish
  ble_ota_on_ctrl_write-IsAssembled chunk mode d w doc a e = elim (Bool-cases w.bo.active) [
    | inl busy ↦ ground (arith, a)
    | inr idle ↦
        ground (arith, on_start-IsAssembled chunk mode (scan_ux (drop 12 (ctrl_line d))) w doc idle)
  ]

  pub ble_ota_on_data_write-IsAssembled :
      (chunk : ℕ → Bytes) (d : Bytes) (w : World) {w' : World}
      → IsSynced crc w
      → IsFrom chunk (frame d)
      → IsAssembled chunk w
      → ble_ota_on_data_write env crc d w ≡ runs w'
      → IsAssembled chunk w'
  unfolding ble_ota_on_data_write
  ble_ota_on_data_write-IsAssembled chunk d w {w'} i f a e = elim (Bool-cases w.bo.active) [
    | inl busy ↦
        let u = i.uploading busy in
        let next : (w.bo.expect_seq + 1) % 4294967296 ≡ suc w.bo.expect_seq =
          omega (arith, u.numbered, u.unfinished, u.expected, u.tracked.fits) in
        ground
          (arith, a busy, f, next, length-drop 6 d, on_frame-runs env crc (drop 6 d) w {w' = w'} u)
    | inr idle ↦ ground arith
  ]
