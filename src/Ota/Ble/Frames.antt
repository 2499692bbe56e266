-- ===== src/Ota/Ble/Frames.antt =====
-- What one frame does to the image.
use esp32_remot_control.Prelude.{
  ℕ, ◌+◌, ◌%◌, ◌<◌, ◌≡◌, ◌≢◌, ◌⊎◌, ◌∙◌, ap, inl, inr, true, ◌++◌, length, Bytes, Bool-cases, arith,
}
use esp32_remot_control.Mode.{Mode}
use esp32_remot_control.Esp.{is_ok, Log, FlashEnv, image}
use esp32_remot_control.Ota.Crc.{CrcRoutine}
use esp32_remot_control.Ota.Session.{ota_session_write, ota_session_finish}
use esp32_remot_control.Ota.Session.Image.{IsTracked, ota_session_write-IsTracked}
use esp32_remot_control.Ota.Session.Finish.{ota_session_finish_sound, image-ota_session_finish}
use esp32_remot_control.Ota.Session.Boots.{boots, boots-ota_session_write, boots-ota_session_finish}
use esp32_remot_control.Ota.Ble.{
  World, runs, restarts, on_finish, after_write, finalize, progress, on_frame, ota_finish_xport,
  ota_abort_xport, ota_write_xport, ble_ota_on_ctrl_write, ble_ota_on_disconnect,
}
use esp32_remot_control.Ota.Ble.Synced.{IsUploading, IsSynced}

-- The image that a restart leaves behind: whole, with its CRC, and booted from.
pub record IsFlashed (crc : CrcRoutine) (before : Log) (w : World) : Type 0 where
  pub whole : length (image w.s_ble.wr.handle w.log) ≡ w.s_ble.bytes_expected
  pub crc_holds :
      (w.s_ble.crc_expect ≡ 0) ⊎ (crc.update 0 (image w.s_ble.wr.handle w.log) ≡ w.s_ble.crc_expect)
  pub booted : boots w.log ≡ 1 + boots before

module _ (env : FlashEnv) (crc : CrcRoutine) where
  on_finish-ne-restarts : (w w' : World) → IsUploading crc w → on_finish env w ≢ restarts w'
  unfolding on_finish ota_finish_xport ota_session_finish
  on_finish-ne-restarts w w' u e = ground (arith, u)

  -- In a synced state no control line restarts the device, FINISH included: an upload that is still
  -- under way is not complete, and a complete one is over.
  pub ble_ota_on_ctrl_write-ne-restarts :
      (mode : Mode) (d : Bytes) (w w' : World)
      → IsSynced crc w
      → ble_ota_on_ctrl_write env mode d w ≢ restarts w'
  unfolding ble_ota_on_ctrl_write
  ble_ota_on_ctrl_write-ne-restarts mode d w w' i e = ground (arith, i, on_finish-ne-restarts w w')

  -- In a synced state a disconnect does not restart the device.
  pub ble_ota_on_disconnect-ne-restarts :
      (w w' : World) → IsSynced crc w → ble_ota_on_disconnect env w ≢ restarts w'
  unfolding ble_ota_on_disconnect
  ble_ota_on_disconnect-ne-restarts w w' i e = ground (arith, i)

  after_write-restarts :
      (blen : ℕ) (w : World) {w' : World}
      → IsTracked crc w.s_ble w.log
      → after_write env blen w ≡ restarts w'
      → IsFlashed crc w.log w'
        × (image w'.s_ble.wr.handle w'.log ≡ image w.s_ble.wr.handle w.log)
        × (w'.s_ble.bytes_expected ≡ w.s_ble.bytes_expected)
        × (w'.s_ble.crc_expect ≡ w.s_ble.crc_expect)
  unfolding after_write progress finalize ota_finish_xport
  after_write-restarts blen w t e = ground (
    arith,
    t,
    ota_session_finish_sound env crc w.s_ble w.log t,
    image-ota_session_finish env crc w.s_ble w.log t,
    boots-ota_session_finish env w.s_ble w.log,
  )

  after_write-runs :
      (blen : ℕ) (w : World) {w' : World}
      → after_write env blen w ≡ runs w'
      → w'.bo.active ≡ true
      → (w'.s_ble ≡ w.s_ble)
        × (w'.log ≡ w.log)
        × (w'.bo.expect_seq ≡ (w.bo.expect_seq + 1) % 4294967296)
  unfolding after_write progress finalize ota_finish_xport ota_abort_xport
  after_write-runs blen w e a = ground arith

  -- What a frame adds: the payload, at the end of the image, if it carries the expected number.
  pub on_frame-restarts :
      (payload : Bytes) (w : World) {w' : World}
      → IsUploading crc w
      → length payload < 65536
      → on_frame env crc payload w ≡ restarts w'
      → IsFlashed crc w.log w'
        × (image w'.s_ble.wr.handle w'.log ≡ image w.s_ble.wr.handle w.log ++ payload)
        × (w'.s_ble.bytes_expected ≡ w.bo.total)
        × (w'.s_ble.crc_expect ≡ w.bo.expect_crc)
  unfolding on_frame ota_write_xport
  on_frame-restarts payload w {w'} u small e =
      let r = ota_session_write env crc w.s_ble payload w.log in
      let t = ota_session_write-IsTracked env crc w.s_ble payload w.log u.tracked small in
      let w1 = record w { s_ble = r.1; log = r.2 } in
      elim (Bool-cases (is_ok r.0)) [
        | inl good ↦
            let a = after_write-restarts (length payload) w1 t.0 (rw good at e) in
            let b = boots-ota_session_write env crc w.s_ble payload w.log in
            let f : IsFlashed crc w.log w' = record {
              whole = a.0.whole;
              crc_holds = a.0.crc_holds;
              booted = a.0.booted ∙ ap (λ (n : ℕ). 1 + n) b;
            } in
            let added = rw good at t.4 in
            (f, ground (arith, a.1, t.1, added), a.2 ∙ t.2 ∙ u.expected, a.3 ∙ t.3 ∙ u.crc_kept)
        | inr bad ↦ ground (arith, e)
      ]

  pub on_frame-runs :
      (payload : Bytes) (w : World) {w' : World}
      → IsUploading crc w
      → length payload < 65536
      → on_frame env crc payload w ≡ runs w'
      → w'.bo.active ≡ true
      → (image w'.s_ble.wr.handle w'.log ≡ image w.s_ble.wr.handle w.log ++ payload)
        × (w'.bo.expect_seq ≡ (w.bo.expect_seq + 1) % 4294967296)
  unfolding on_frame ota_write_xport ota_abort_xport
  on_frame-runs payload w {w'} u small e a =
      let r = ota_session_write env crc w.s_ble payload w.log in
      let t = ota_session_write-IsTracked env crc w.s_ble payload w.log u.tracked small in
      let w1 = record w { s_ble = r.1; log = r.2 } in
      elim (Bool-cases (is_ok r.0)) [
        | inl good ↦
            let after = after_write-runs (length payload) w1 (rw good at e) a in
            let added = rw good at t.4 in ground (arith, after, t.1, added)
        | inr bad ↦ ground (arith, e)
      ]

  after_write-announced :
      (blen : ℕ) (w : World) {w' : World}
      → after_write env blen w ≡ runs w'
      → w'.bo.active ≡ true
      → (w'.bo.total ≡ w.bo.total) × (w'.bo.expect_crc ≡ w.bo.expect_crc)
  unfolding after_write progress finalize ota_finish_xport ota_abort_xport
  after_write-announced blen w e a = ground arith

  -- A frame that leaves the upload under way leaves what has been announced of it.
  pub on_frame-announced :
      (payload : Bytes) (w : World) {w' : World}
      → on_frame env crc payload w ≡ runs w'
      → w'.bo.active ≡ true
      → (w'.bo.total ≡ w.bo.total) × (w'.bo.expect_crc ≡ w.bo.expect_crc)
  unfolding on_frame ota_write_xport ota_abort_xport
  on_frame-announced payload w {w'} e a =
      let r = ota_session_write env crc w.s_ble payload w.log in
      let w1 = record w { s_ble = r.1; log = r.2 } in
      elim (Bool-cases (is_ok r.0)) [
        | inl good ↦ after_write-announced (length payload) w1 (rw good at e) a
        | inr bad ↦ ground (arith, e)
      ]
