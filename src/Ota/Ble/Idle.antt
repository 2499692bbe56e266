-- ===== src/Ota/Ble/Idle.antt =====
-- A device that is not in recovery mode and has no upload under way: the hooks do nothing.
use esp32_remot_control.Prelude.{
  ℕ, ◌≡◌, refl, false, Option, none, some, Bytes, codes, ◌==◌, Bool-cases, inl, inr, arith, length,
  drop,
}
use esp32_remot_control.Esp.{FlashEnv}
use esp32_remot_control.Mode.{Mode, is_recovery}
use esp32_remot_control.Scan.{scan_ux, has_prefix}
use esp32_remot_control.Ota.Crc.{CrcRoutine}
use esp32_remot_control.Ota.Ble.{
  World, Step, runs, say, err_noactive, err_unknown, ctrl_line, on_start, ble_ota_on_ctrl_write,
  ble_ota_on_data_write, ble_ota_on_disconnect,
}

-- No upload is under way, and none can begin: the hooks leave the flash and the session, and return.
pub record Idle (w : World) (r : Step) : Type 0 where
  pub next : World
  pub returns : r ≡ runs next
  pub log_kept : next.log ≡ w.log
  pub inactive : next.bo.active ≡ false
  pub monitor_left : next.monitor ≡ w.monitor

say-Idle :
    (w : World) (r : Step) (w' : World)
    → r ≡ runs w'
    → w.bo.active ≡ false
    → w'.log ≡ w.log
    → w'.bo ≡ w.bo
    → w'.monitor ≡ w.monitor
    → Idle w r
say-Idle w r w' e a l b m = record {
  next = w';
  returns = e;
  log_kept = l;
  inactive = ground arith;
  monitor_left = m;
}

on_start-kept :
    (env : FlashEnv) (mode : Mode) (o : Option (ℕ × ℕ)) (w : World)
    → is_recovery mode ≡ false
    → ((on_start env mode o w).log ≡ w.log)
      × ((on_start env mode o w).bo ≡ w.bo)
      × ((on_start env mode o w).monitor ≡ w.monitor)
unfolding on_start
on_start-kept env mode none w r = (refl, refl, refl)
on_start-kept env mode (some (size, crc)) w r = (ground arith, ground arith, ground arith)

pub ctrl-Idle :
    (env : FlashEnv) (mode : Mode) (d : Bytes) (w : World)
    → is_recovery mode ≡ false
    → w.bo.active ≡ false
    → Idle w (ble_ota_on_ctrl_write env mode d w)
unfolding ble_ota_on_ctrl_write
ctrl-Idle env mode d w r a = elim (Bool-cases (length d == 0)) [
  | inl y ↦ say-Idle w _ w (rw y refl) a refl refl refl
  | inr n ↦ elim (Bool-cases (has_prefix (codes "BL_OTA START") (ctrl_line d))) [
    | inl y ↦
        let started = on_start env mode (scan_ux (drop 12 (ctrl_line d))) w in
        let (l, b, m) = on_start-kept env mode (scan_ux (drop 12 (ctrl_line d))) w r in
        say-Idle w _ started (rw (n, y, a) refl) a l b m
    | inr n2 ↦ elim (Bool-cases (has_prefix (codes "BL_OTA FINISH") (ctrl_line d))) [
      | inl y ↦ say-Idle w _ (say err_noactive w) (rw (n, n2, y, a) refl) a refl refl refl
      | inr n3 ↦ elim (Bool-cases (has_prefix (codes "BL_OTA ABORT") (ctrl_line d))) [
        | inl y ↦ say-Idle w _ (say err_noactive w) (rw (n, n2, n3, y, a) refl) a refl refl refl
        | inr n4 ↦ say-Idle w _ (say err_unknown w) (rw (n, n2, n3, n4) refl) a refl refl refl
      ]
    ]
  ]
]

pub frame-Idle :
    (env : FlashEnv) (crc : CrcRoutine) (d : Bytes) (w : World)
    → w.bo.active ≡ false
    → Idle w (ble_ota_on_data_write env crc d w)
unfolding ble_ota_on_data_write
frame-Idle env crc d w a = say-Idle w _ w (rw a refl) a refl refl refl

pub disconnect-Idle :
    (env : FlashEnv) (w : World) → w.bo.active ≡ false → Idle w (ble_ota_on_disconnect env w)
unfolding ble_ota_on_disconnect
disconnect-Idle env w a = say-Idle w _ w (rw a refl) a refl refl refl
