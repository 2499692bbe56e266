-- ===== src/Ota/Examples.antt =====
-- Tests and instances of the theorems on uploads.
use esp32_remot_control.Prelude.{
  ◌≡◌, ◌≢◌, refl, inr, true, false, some, none, [], ◌∷◌, ◌++◌, arith, if◌then◌else◌,
}
use esp32_remot_control.Esp.{esp_ok, is_ok, Log, image, begin, write, abort}
use esp32_remot_control.Ota.Crc.{software_crc, crc32_update}
use esp32_remot_control.Ota.Writer.{
  no_writer, ota_writer_begin, ota_writer_write, ota_writer_end, ota_writer_abort,
}
use esp32_remot_control.Ota.Session.{
  Session, ble, cleared, ota_session_begin, ota_session_write, ota_session_finish,
}
use esp32_remot_control.Ota.Session.Image.{IsTracked, ota_session_write-IsTracked}
use esp32_remot_control.Ota.Session.Finish.{
  IsComplete, Booted, ota_session_finish_sound, ota_session_finish_discards,
}
use esp32_remot_control.Ota.Fixtures.{ota_0, willing, willing-IsDocumented, willing-IsWilling}
use esp32_remot_control.Ota.Socket.{Socket, chunk, eintr, recv_fully}
use esp32_remot_control.Ota.Socket.Stream.{stream}
use esp32_remot_control.Ota.Handler.{ack, ok, rebooted, payload_step, payload_loop, ota_perform}
use esp32_remot_control.Ota.Handler.Sound.{Ended, ota_perform-Ended}
use esp32_remot_control.Ota.Handler.Complete.{ota_perform_reboots}

abbrev idle : Session
idle = cleared (record { handle = 0; dst = none })

-- Five bytes and their CRC, in three pieces with an interrupted call.
abbrev pieces : Socket
pieces =
    chunk (10 ∷ 20 ∷ []) ∷ eintr ∷ chunk (30 ∷ 40 ∷ 50 ∷ 57 ∷ []) ∷ chunk (169 ∷ 249 ∷ 22 ∷ []) ∷ []

perform_pieces :
    let o = ota_perform willing software_crc true idle 5 pieces [] in
    (o.ending ≡ rebooted) × (o.lines ≡ ack ∷ ok ∷ [])
unfolding ota_perform payload_loop payload_step recv_fully ota_session_begin ota_session_write
    ota_session_finish ota_writer_begin ota_writer_write ota_writer_end ota_writer_abort
    crc32_update
perform_pieces = (refl, refl)

ota_perform-Ended_example :
    Ended software_crc 5 (stream pieces) [] (ota_perform willing software_crc true idle 5 pieces [])
ota_perform-Ended_example =
    ota_perform-Ended willing software_crc 5 (stream pieces) [] willing-IsDocumented true idle
      pieces refl

ota_perform_reboots_example :
    (ota_perform willing software_crc true idle 5 pieces []).ending ≡ rebooted
unfolding crc32_update
ota_perform_reboots_example =
    ota_perform_reboots willing software_crc ota_0 5 idle pieces [] willing-IsDocumented
      willing-IsWilling refl (omega arith) (omega arith) (omega arith) (omega arith) (inr refl)

-- A session of two bytes that has written the first.
abbrev half_way : Session
half_way = record {
  active = true;
  wr = record { handle = 1; dst = some ota_0 };
  bytes_expected = 2;
  bytes_written = 1;
  crc_expect = 0;
  crc_running = 1_996_959_894;
  source = ble;
  yield_bytes = 65536;
  since_yield = 1;
}

abbrev half_log : Log
half_log = write 1 (1 ∷ []) esp_ok ∷ begin ota_0 2 1 esp_ok ∷ []

half_way-IsTracked : IsTracked software_crc half_way half_log
unfolding image crc32_update
half_way-IsTracked = record {
  is_active = refl;
  handle_set = omega arith;
  target = omega arith;
  written = refl;
  checked = refl;
  bounded = omega arith;
  fits = omega arith;
  paced = omega arith;
  yields = refl;
}

ota_session_write-IsTracked_example :
    let (e, s', l') = ota_session_write willing software_crc half_way (2 ∷ []) half_log in
    IsTracked software_crc s' l'
    × (s'.wr ≡ half_way.wr)
    × (s'.bytes_expected ≡ 2)
    × (s'.crc_expect ≡ 0)
    × (image 1 l' ≡ (if is_ok e then image 1 half_log ++ 2 ∷ [] else image 1 half_log))
ota_session_write-IsTracked_example =
    ota_session_write-IsTracked willing software_crc half_way (2 ∷ []) half_log half_way-IsTracked
      (omega arith)

ota_session_finish_sound_example :
    let (e, s', l') = ota_session_finish willing half_way half_log in
    (s'.active ≡ false)
    × (e ≡ esp_ok
        → IsComplete software_crc half_way half_log
          × Booted half_way.wr.dst 1 half_log l'
          × (s'.wr ≡ half_way.wr)
          × (s'.bytes_expected ≡ 2)
          × (s'.crc_expect ≡ 0))
ota_session_finish_sound_example =
    ota_session_finish_sound willing software_crc half_way half_log half_way-IsTracked

not-IsComplete-half_way : ¬ IsComplete software_crc half_way half_log
unfolding image
not-IsComplete-half_way c = omega (arith, c.whole)

ota_session_finish_discards_example :
    let (e, s', l') = ota_session_finish willing half_way half_log in
    (e ≢ esp_ok) × (s'.active ≡ false) × (s'.wr ≡ no_writer) × (l' ≡ abort 1 ∷ half_log)
ota_session_finish_discards_example =
    ota_session_finish_discards willing software_crc half_way half_log half_way-IsTracked
      not-IsComplete-half_way
