-- ===== src/Ota/Session/Boots.antt =====
-- Only a finish that answers ESP_OK changes the boot partition.
use esp32_remot_control.Prelude.{ℕ, ◌+◌, ◌≡◌, Bytes, [], ◌∷◌, if◌then◌else◌, arith, false}
use esp32_remot_control.Esp.{is_ok, begin, write, end, abort, set_boot, Log, FlashEnv}
use esp32_remot_control.Ota.Writer.{
  ota_writer_begin, ota_writer_write, ota_writer_end, ota_writer_abort,
}
use esp32_remot_control.Ota.Crc.{CrcRoutine}
use esp32_remot_control.Ota.Session.{
  Source, Session, ota_session_begin, ota_session_write, ota_session_finish, ota_session_abort,
}

-- How often the boot partition has been set.
abbrev pub boots : Log → ℕ
boots [] = 0
boots (begin p n h e ∷ l) = boots l
boots (write h d e ∷ l) = boots l
boots (end h e ∷ l) = boots l
boots (abort h ∷ l) = boots l
boots (set_boot p e ∷ l) = (if is_ok e then 1 else 0) + boots l

module _ (env : FlashEnv) where
  pub boots-ota_session_begin :
      (s : Session) (total expect : ℕ) (source : Source) (l : Log)
      → boots (ota_session_begin env s total expect source l).2 ≡ boots l
  unfolding ota_session_begin ota_writer_begin
  boots-ota_session_begin s total expect source l = ground arith

  pub boots-ota_session_finish :
      (s : Session) (l : Log)
      → let (e, s', l') = ota_session_finish env s l in
        boots l' ≡ (if is_ok e then 1 else 0) + boots l
  unfolding ota_session_finish ota_writer_end ota_writer_abort
  boots-ota_session_finish s l = ground arith

  pub boots-ota_session_write :
      (crc : CrcRoutine) (s : Session) (d : Bytes) (l : Log)
      → boots (ota_session_write env crc s d l).2 ≡ boots l
  unfolding ota_session_write ota_writer_write
  boots-ota_session_write crc s d l = ground arith

pub boots-ota_session_abort : (s : Session) (l : Log) → boots (ota_session_abort s l).1 ≡ boots l
unfolding ota_session_abort ota_writer_abort
boots-ota_session_abort s l = ground arith

-- An abort leaves the session closed.
pub ota_session_abort-closed : (s : Session) (l : Log) → (ota_session_abort s l).0.active ≡ false
unfolding ota_session_abort
ota_session_abort-closed s l = ground arith
