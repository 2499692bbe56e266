-- ===== src/Ota/Ble.antt =====
-- components/ble/gatt/ble_ota.c, with the single BLE session of components/ota/ota_handler.c. Each
-- hook is one step of the device: it ends in a new state, or the device restarts.
pub mod Synced
pub mod Frames
pub mod Boots
pub mod Hooks
pub mod Announced
pub mod Assembled
pub mod Upload
pub mod Idle
mod Examples
use esp32_remot_control.Prelude.{
  ℕ, ◌+◌, ◌*◌, Bool, true, false, not, ◌&&◌, ◌||◌, Option, none, some, List, [], ◌∷◌, length, take,
  drop, map, Bytes, codes, c_str, u32, ltb, leb, ◌==◌, if◌then◌else◌,
}
use esp32_remot_control.Scan.{scan_ux, has_prefix}
use esp32_remot_control.Mode.{Mode, is_recovery}
use esp32_remot_control.Monitor.{Monitor, health_monitor_control_ok}
use esp32_remot_control.Esp.{EspErr, is_ok, Log, FlashEnv}
use esp32_remot_control.Ota.Crc.{CrcRoutine}
use esp32_remot_control.Ota.Session.{
  Session, Source, ble, ota_session_begin, ota_session_write, ota_session_finish, ota_session_abort,
}
use esp32_remot_control.Ota.Handler.{rd_le32}

-- `ble_ota_state_t`
pub record BleOta : Type 0 where
  pub active : Bool
  pub total : ℕ
  pub written : ℕ
  pub expect_crc : ℕ
  pub expect_seq : ℕ
  pub next_prog_mark : ℕ

-- What `ble_tx_send` is given.
pub data Tx : Type 0 where
  err_busy err_badfmt err_forbidden err_begin ack_start err_noactive err_finish : Tx
  ok_rebooting ok_aborted err_unknown err_write : Tx
  prog : ℕ → ℕ → Tx

-- The statics of the two files, the flash, the monitor, and the lines sent, newest first.
pub record World : Type 0 where
  pub bo : BleOta
  pub s_ble : Session
  pub log : Log
  pub monitor : Monitor
  pub tx : List Tx

-- `esp_restart` does not return.
pub data Step : Type 0 where
  runs : World → Step
  restarts : World → Step

abbrev pub reset_state : BleOta
reset_state = record {
  active = false;
  total = 0;
  written = 0;
  expect_crc = 0;
  expect_seq = 0;
  next_prog_mark = 0;
}

abbrev pub say : Tx → World → World
say t w = record w { tx = t ∷ w.tx }

abbrev pub ble_ota_reset : World → World
ble_ota_reset w = record w { bo = reset_state }

abbrev pub prog_step : ℕ
prog_step = 262144

abbrev blank : ℕ → ℕ
blank c = if c == b'\r' || c == b'\n' then b' ' else c

-- The control line: at most 127 bytes, up to the first NUL, with line ends blanked.
unfoldable pub ctrl_line : Bytes → Bytes
ctrl_line d = map blank (c_str (take 127 d))

unfoldable pub ota_abort_xport : World → World
ota_abort_xport w = let (s, l) = ota_session_abort w.s_ble w.log in record w { s_ble = s; log = l }

module _ (env : FlashEnv) where
  unfoldable pub ota_begin_xport : ℕ → ℕ → World → EspErr × World
  ota_begin_xport size crc w =
      let (e, s, l) = ota_session_begin env w.s_ble size crc ble w.log in
      (e, record w { s_ble = s; log = l })

  unfoldable pub ota_finish_xport : World → EspErr × World
  ota_finish_xport w =
      let (e, s, l) = ota_session_finish env w.s_ble w.log in (e, record w { s_ble = s; log = l })

  -- `START`, once the line has been parsed.
  start_session : ℕ → ℕ → World → World
  unfolding ota_begin_xport
  start_session size crc w =
      let (e, w') = ota_begin_xport size crc w in
      let state : BleOta = record {
        active = true;
        total = size;
        written = 0;
        expect_crc = crc;
        expect_seq = 0;
        next_prog_mark = prog_step;
      } in
      if is_ok e
      then say ack_start (record w' { bo = state; monitor = health_monitor_control_ok w'.monitor })
      else say err_begin w'

  on_start : Mode → Option (ℕ × ℕ) → World → World
  unfolding start_session
  on_start mode none w = say err_badfmt w
  on_start mode (some (size, crc)) w =
      if size == 0
      then say err_badfmt w
      else if not (is_recovery mode)
      then say err_forbidden w
      else start_session size crc w

  on_finish : World → Step
  unfolding ota_finish_xport
  on_finish w =
      let (e, w') = ota_finish_xport w in
      if is_ok e
      then restarts (ble_ota_reset (say ok_rebooting w'))
      else runs (ble_ota_reset (say err_finish w'))

  unfoldable pub ble_ota_on_ctrl_write : Mode → Bytes → World → Step
  unfolding ctrl_line on_start on_finish ota_abort_xport
  ble_ota_on_ctrl_write mode d w =
      let line = ctrl_line d in
      if length d == 0
      then runs w
      else if has_prefix (codes "BL_OTA START") line
      then runs (if w.bo.active then say err_busy w else on_start mode (scan_ux (drop 12 line)) w)
      else if has_prefix (codes "BL_OTA FINISH") line
      then (if w.bo.active then on_finish w else runs (say err_noactive w))
      else if has_prefix (codes "BL_OTA ABORT") line
      then runs (
          if w.bo.active
          then say ok_aborted (ble_ota_reset (ota_abort_xport w))
          else say err_noactive w)
      else runs (say err_unknown w)

-- The progress line, behind an accepted frame.
progress : World → World
progress w =
    if leb w.bo.next_prog_mark w.bo.written || w.bo.written == w.bo.total
    then record w {
      tx = prog w.bo.written w.bo.total ∷ w.tx;
      bo = record w.bo { next_prog_mark = u32 (w.bo.next_prog_mark + prog_step) };
    }
    else w

module _ (env : FlashEnv) where
  -- The last frame has arrived.
  finalize : World → Step
  unfolding ota_finish_xport ota_abort_xport
  finalize w =
      let (e, w') = ota_finish_xport env w in
      if is_ok e
      then restarts (ble_ota_reset (say ok_rebooting w'))
      else runs (ble_ota_reset (ota_abort_xport (say err_finish w')))

  after_write : ℕ → World → Step
  unfolding progress finalize
  after_write blen w =
      let bo = w.bo in
      let counted = record w {
        bo = record bo { expect_seq = u32 (bo.expect_seq + 1); written = u32 (bo.written + blen) };
      } in
      let w' = progress counted in if w'.bo.written == w'.bo.total then finalize w' else runs w'

module _ (env : FlashEnv) (crc : CrcRoutine) where
  unfoldable pub ota_write_xport : Bytes → World → EspErr × World
  ota_write_xport d w =
      let (e, s, l) = ota_session_write env crc w.s_ble d w.log in
      (e, record w { s_ble = s; log = l })

  -- A frame that has passed the guards.
  pub on_frame : Bytes → World → Step
  unfolding ota_write_xport after_write
  on_frame payload w =
      let (e, w') = ota_write_xport payload w in
      if is_ok e
      then after_write env (length payload) w'
      else runs (ble_ota_reset (ota_abort_xport (say err_write w')))

  unfoldable pub ble_ota_on_data_write : Bytes → World → Step
  unfolding on_frame
  ble_ota_on_data_write d w =
      let seq = rd_le32 (take 4 d) in
      let blen = rd_le32 (take 2 (drop 4 d)) in
      if not w.bo.active || ltb (length d) 6
      then runs w
      else if not (length d == 6 + blen)
      then runs w
      else if not (seq == w.bo.expect_seq)
      then runs w
      else if ltb w.bo.total (u32 (w.bo.written + blen))
      then runs w
      else on_frame (drop 6 d) w

module _ (env : FlashEnv) where
  unfoldable pub ble_ota_on_disconnect : World → Step
  unfolding ota_finish_xport ota_abort_xport
  ble_ota_on_disconnect w =
      let (e, w') = ota_finish_xport env w in
      if not w.bo.active
      then runs w
      else if leb w.bo.total w.bo.written && ltb 0 w.bo.total
      then (if is_ok e then restarts w' else runs (ble_ota_reset (ota_abort_xport w')))
      else runs (ble_ota_reset (ota_abort_xport w))
