-- ===== src/Ota/Ble/Synced.antt =====
-- The adapter's counters and the session's agree in every state between two hooks.
use esp32_remot_control.Prelude.{
  ℕ, ◌+◌, ◌≤◌, ◌<◌, ◌≡◌, ◌∙◌, ap, inl, inr, true, false, drop, length, length-drop, length-append,
  Bytes, Option, none, some, Bool-cases, arith,
}
use esp32_remot_control.Mode.{Mode}
use esp32_remot_control.Scan.{scan_ux}
use esp32_remot_control.Esp.{is_ok, is_ok-eq, Log, FlashEnv, IsDocumented, image}
use esp32_remot_control.Ota.Crc.{CrcRoutine}
use esp32_remot_control.Ota.Session.{
  Source, Session, ble, ota_session_begin, ota_session_write, ota_session_finish,
}
use esp32_remot_control.Ota.Session.Image.{
  IsTracked, ota_session_begin-IsTracked, ota_session_write-IsTracked,
}
use esp32_remot_control.Ota.Session.Finish.{ota_session_finish_sound}
use esp32_remot_control.Ota.Session.Boots.{ota_session_abort-closed}
use esp32_remot_control.Ota.Ble.{
  World, runs, start_session, on_start, on_finish, after_write, finalize, progress, on_frame,
  ctrl_line, ota_finish_xport, ota_abort_xport, ota_write_xport, ble_ota_on_ctrl_write,
  ble_ota_on_data_write, ble_ota_on_disconnect,
}

-- With an upload under way: the session is open, the counters of the two agree, and the image is
-- not complete yet. Without one: the session is closed.
pub record IsUploading (crc : CrcRoutine) (w : World) : Type 0 where
  pub tracked : IsTracked crc w.s_ble w.log
  pub counted : w.s_ble.bytes_written ≡ w.bo.written
  pub expected : w.s_ble.bytes_expected ≡ w.bo.total
  pub crc_kept : w.s_ble.crc_expect ≡ w.bo.expect_crc
  pub unfinished : w.bo.written < w.bo.total
  pub numbered : w.bo.expect_seq ≤ w.bo.written

pub record IsSynced (crc : CrcRoutine) (w : World) : Type 0 where
  pub closed : w.bo.active ≡ false → w.s_ble.active ≡ false
  pub uploading : w.bo.active ≡ true → IsUploading crc w

ota_session_begin-closed :
    (env : FlashEnv) (s : Session) (total expect : ℕ) (source : Source) (l : Log)
    → s.active ≡ false
    → is_ok (ota_session_begin env s total expect source l).0 ≡ false
    → (ota_session_begin env s total expect source l).1.active ≡ false
unfolding ota_session_begin
ota_session_begin-closed env s total expect source l h bad = ground arith

module _ (env : FlashEnv) (crc : CrcRoutine) where
  start_session-IsSynced :
      (size expect : ℕ) (w : World)
      → IsDocumented env
      → w.bo.active ≡ false
      → w.s_ble.active ≡ false
      → 0 < size
      → IsSynced crc (start_session env size expect w)
  unfolding start_session
  start_session-IsSynced size expect w doc idle closed h =
      let t = ota_session_begin-IsTracked env crc w.s_ble size expect ble w.log doc in
      let b = ota_session_begin env w.s_ble size expect ble w.log in
      elim (Bool-cases (is_ok b.0)) [
        | inl good ↦ rw good (record {
          closed = λ e. cc;
          uploading = λ e.
              let u = t (is_ok-eq b.0 good) in
              record {
                tracked = u.0;
                counted = omega (arith, u.0.written, ap length u.1);
                expected = u.2;
                crc_kept = u.3;
                unfinished = h;
                numbered = omega arith;
              };
        })
        | inr bad ↦ rw bad (record {
          closed = λ e. ota_session_begin-closed env w.s_ble size expect ble w.log closed bad;
          uploading = λ e. cc;
        })
      ]

  on_start-IsSynced :
      (mode : Mode) (o : Option (ℕ × ℕ)) (w : World)
      → IsDocumented env
      → w.bo.active ≡ false
      → IsSynced crc w
      → IsSynced crc (on_start env mode o w)
  unfolding on_start
  on_start-IsSynced mode none w doc idle i = record { closed = i.closed; uploading = λ e. cc }
  on_start-IsSynced mode (some (size, expect)) w doc idle i =
      ground (arith, start_session-IsSynced size expect w doc idle (i.closed idle))

  on_finish-IsSynced :
      (w : World) {w' : World} → IsUploading crc w → on_finish env w ≡ runs w' → IsSynced crc w'
  unfolding on_finish ota_finish_xport
  on_finish-IsSynced w i e =
      ground (arith, ota_session_finish_sound env crc w.s_ble w.log i.tracked)

  -- Whatever the control characteristic is given, the state stays synced.
  pub ble_ota_on_ctrl_write-IsSynced :
      (mode : Mode) (d : Bytes) (w : World) {w' : World}
      → IsDocumented env
      → IsSynced crc w
      → ble_ota_on_ctrl_write env mode d w ≡ runs w'
      → IsSynced crc w'
  unfolding ble_ota_on_ctrl_write
  ble_ota_on_ctrl_write-IsSynced mode d w {w'} doc i e = elim (Bool-cases w.bo.active) [
    | inl busy ↦ ground (
      arith,
      i,
      i.uploading busy,
      on_finish-IsSynced w {w' = w'} (i.uploading busy),
      ota_session_abort-closed w.s_ble w.log,
    )
    | inr idle ↦
        ground (arith, i, on_start-IsSynced mode (scan_ux (drop 12 (ctrl_line d))) w doc idle i)
  ]

  after_write-IsSynced :
      (blen : ℕ) (w : World) {w' : World}
      → w.bo.active ≡ true
      → IsTracked crc w.s_ble w.log
      → w.s_ble.bytes_written ≡ w.bo.written + blen
      → w.s_ble.bytes_expected ≡ w.bo.total
      → w.s_ble.crc_expect ≡ w.bo.expect_crc
      → w.bo.expect_seq ≤ w.bo.written
      → 0 < blen
      → after_write env blen w ≡ runs w'
      → IsSynced crc w'
  unfolding after_write progress finalize ota_finish_xport ota_abort_xport
  after_write-IsSynced blen w busy t counted expected kept numbered some_bytes e = ground (
    arith,
    t,
    ota_session_finish_sound env crc w.s_ble w.log t,
    ota_session_abort-closed (ota_session_finish env w.s_ble w.log).1
        (ota_session_finish env w.s_ble w.log).2,
  )

  pub write_nonempty :
      (s : Session) (d : Bytes) (l : Log)
      → is_ok (ota_session_write env crc s d l).0 ≡ true
      → 0 < length d
  unfolding ota_session_write
  write_nonempty s d l h = ground arith

  on_frame-IsSynced :
      (payload : Bytes) (w : World) {w' : World}
      → w.bo.active ≡ true
      → IsUploading crc w
      → length payload < 65536
      → w.bo.written + length payload ≤ w.bo.total
      → on_frame env crc payload w ≡ runs w'
      → IsSynced crc w'
  unfolding on_frame ota_write_xport ota_abort_xport
  on_frame-IsSynced payload w {w'} busy i small room e =
      let r = ota_session_write env crc w.s_ble payload w.log in
      let t = ota_session_write-IsTracked env crc w.s_ble payload w.log i.tracked small in
      let w1 = record w { s_ble = r.1; log = r.2 } in
      elim (Bool-cases (is_ok r.0)) [
        | inl good ↦
            let grown = length-append (image w.s_ble.wr.handle w.log) payload in
            let image_is = rw good at t.4 in
            let len : r.1.bytes_written ≡ w.bo.written + length payload =
              ground (arith, t.0.written, t.1, image_is, grown, i.tracked.written, i.counted) in
            after_write-IsSynced (length payload) w1 busy t.0 len (t.2 ∙ i.expected)
              (t.3 ∙ i.crc_kept) i.numbered (write_nonempty w.s_ble payload w.log good)
              (rw good at e)
        | inr bad ↦ ground (arith, ota_session_abort-closed r.1 r.2)
      ]

  -- Whatever the data characteristic is given, the state stays synced.
  pub ble_ota_on_data_write-IsSynced :
      (d : Bytes) (w : World) {w' : World}
      → IsSynced crc w
      → length d < 65536
      → ble_ota_on_data_write env crc d w ≡ runs w'
      → IsSynced crc w'
  unfolding ble_ota_on_data_write
  ble_ota_on_data_write-IsSynced d w {w'} i small e = elim (Bool-cases w.bo.active) [
    | inl busy ↦
        let u = i.uploading busy in
        ground (
          arith,
          i,
          u,
          u.tracked.fits,
          u.expected,
          length-drop 6 d,
          on_frame-IsSynced (drop 6 d) w {w' = w'} busy u,
        )
    | inr idle ↦ ground (arith, i)
  ]

  -- Whatever the state, a disconnect leaves it synced, with the upload over.
  pub ble_ota_on_disconnect-IsSynced :
      (w : World) {w' : World}
      → IsSynced crc w
      → ble_ota_on_disconnect env w ≡ runs w'
      → IsSynced crc w' × (w'.bo.active ≡ false)
  unfolding ble_ota_on_disconnect ota_finish_xport ota_abort_xport
  ble_ota_on_disconnect-IsSynced w i e = ground (
    arith,
    i,
    ota_session_abort-closed w.s_ble w.log,
    ota_session_abort-closed (ota_session_finish env w.s_ble w.log).1
        (ota_session_finish env w.s_ble w.log).2,
  )
