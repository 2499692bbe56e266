-- ===== src/Ota/Ble/Examples.antt =====
-- An upload of three bytes in two frames, with a repeated frame, and instances of the theorems.
use esp32_remot_control.Prelude.{
  ℕ, zero, suc, ◌≡◌, ◌≢◌, refl, true, none, List, [], ◌∷◌, Bytes, codes, arith,
}
use esp32_remot_control.Scan.{scan_ux, has_prefix, digits}
use esp32_remot_control.Mode.{recovery}
use esp32_remot_control.Monitor.{health_monitor_control_ok}
use esp32_remot_control.Esp.{image}
use esp32_remot_control.Ota.Crc.{software_crc, crc32_update}
use esp32_remot_control.Ota.Writer.{
  no_writer, ota_writer_begin, ota_writer_write, ota_writer_end, ota_writer_abort,
}
use esp32_remot_control.Ota.Session.{
  cleared, ota_session_begin, ota_session_write, ota_session_finish, ota_session_abort,
}
use esp32_remot_control.Ota.Fixtures.{willing, willing-IsDocumented}
use esp32_remot_control.Ota.Ble.{
  World, Step, runs, restarts, reset_state, ble_ota_on_ctrl_write, ble_ota_on_data_write,
}
use esp32_remot_control.Ota.Ble.Synced.{IsSynced}
use esp32_remot_control.Ota.Ble.Frames.{ble_ota_on_ctrl_write-ne-restarts}
use esp32_remot_control.Ota.Ble.Hooks.{Hook, ctrl, frame}
use esp32_remot_control.Ota.Ble.Upload.{hook, announced, run, Reached, run-Reached}

abbrev booted_up : World
booted_up = record {
  bo = reset_state;
  s_ble = cleared no_writer;
  log = [];
  monitor = record { done = true; fail_streak = 0; has_timeout_cb = true };
  tx = [];
}

abbrev start_line : Bytes
start_line = codes "BL_OTA START 3 0\n"

-- Two chunks: [7, 8] and [9].
abbrev chunks : ℕ → Bytes
chunks zero = 7 ∷ 8 ∷ []
chunks (suc n) = 9 ∷ []

abbrev frame_0 : Bytes
frame_0 = 0 ∷ 0 ∷ 0 ∷ 0 ∷ 2 ∷ 0 ∷ 7 ∷ 8 ∷ []

abbrev frame_1 : Bytes
frame_1 = 1 ∷ 0 ∷ 0 ∷ 0 ∷ 1 ∷ 0 ∷ 9 ∷ []

abbrev upload : List Hook
upload = ctrl recovery start_line ∷ frame frame_0 ∷ frame frame_0 ∷ frame frame_1 ∷ []

abbrev after : Step → List ℕ
after (runs w) = []
after (restarts w) = unfold image in image w.s_ble.wr.handle w.log

upload_restarts : after (run willing software_crc upload booted_up) ≡ 7 ∷ 8 ∷ 9 ∷ []
unfolding run hook ble_ota_on_ctrl_write ble_ota_on_data_write has_prefix scan_ux digits
    ota_session_begin ota_session_write ota_session_finish ota_session_abort ota_writer_begin
    ota_writer_write ota_writer_end ota_writer_abort crc32_update health_monitor_control_ok image
upload_restarts = refl

booted_up-IsSynced : IsSynced software_crc booted_up
booted_up-IsSynced = record { closed = λ e. refl; uploading = λ e. cc }

run-Reached_example :
    Reached willing software_crc chunks []
      (announced willing software_crc upload booted_up none)
      (run willing software_crc upload booted_up)
run-Reached_example =
    run-Reached willing software_crc chunks upload booted_up none willing-IsDocumented
      booted_up-IsSynced (λ e. cc) (λ e. cc)
      (tt, ((omega arith, λ e. refl), ((omega arith, λ e. refl), ((omega arith, λ e. refl), tt))))

ble_ota_on_ctrl_write-ne-restarts_example :
    ble_ota_on_ctrl_write willing recovery (codes "BL_OTA FINISH") booted_up ≢ restarts booted_up
ble_ota_on_ctrl_write-ne-restarts_example =
    ble_ota_on_ctrl_write-ne-restarts willing software_crc recovery (codes "BL_OTA FINISH")
      booted_up booted_up booted_up-IsSynced
