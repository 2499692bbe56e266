-- ===== src/Ota/Session/Image.antt =====
-- What an open session knows of the flash: its counter and its CRC are those of the bytes that
-- went through its handle, and they stay below the size that was announced.
use esp32_remot_control.Prelude.{
  ℕ, [], ◌+◌, ◌≤◌, ◌<◌, ◌≡◌, ◌≢◌, inl, inr, true, Option, none, some, Option-cases, length,
  length-append, ◌++◌, Bytes, u32_mod, arith, if◌then◌else◌,
}
use esp32_remot_control.Esp.{esp_ok, is_ok, Partition, Log, FlashEnv, IsDocumented, image}
use esp32_remot_control.Ota.Writer.{ota_writer_begin, ota_writer_write}
use esp32_remot_control.Ota.Crc.{CrcRoutine}
use esp32_remot_control.Ota.Session.{Source, Session, ota_session_begin, ota_session_write}

-- There is a partition, and it holds that many bytes.
abbrev pub HasRoom : Option Partition → ℕ → Type 0
HasRoom none n = ⊥
HasRoom (some p) n = n ≤ p.size

-- The largest buffer that a caller passes is one BLE frame, below 65536 bytes.
pub record IsTracked (crc : CrcRoutine) (s : Session) (l : Log) : Type 0 where
  pub is_active : s.active ≡ true
  pub handle_set : s.wr.handle ≢ 0
  pub target : HasRoom s.wr.dst s.bytes_expected
  pub written : s.bytes_written ≡ length (image s.wr.handle l)
  pub checked : s.crc_running ≡ crc.update 0 (image s.wr.handle l)
  pub bounded : s.bytes_written ≤ s.bytes_expected
  pub fits : s.bytes_expected + 65536 ≤ u32_mod
  pub paced : s.since_yield < s.yield_bytes
  pub yields : s.yield_bytes ≡ 65536

module _ (env : FlashEnv) (crc : CrcRoutine) where
  -- A session that `ota_session_begin` opens is tracked, with an empty image of the announced size,
  -- when ESP-IDF hands out nonzero handles and its partitions end below 4 GiB less 64 KiB.
  pub ota_session_begin-IsTracked :
      (s : Session) (total expect : ℕ) (source : Source) (l : Log)
      → IsDocumented env
      → let (e, s', l') = ota_session_begin env s total expect source l in
        e ≡ esp_ok
        → IsTracked crc s' l'
          × (image s'.wr.handle l' ≡ [])
          × (s'.bytes_expected ≡ total)
          × (s'.crc_expect ≡ expect)
  unfolding ota_session_begin ota_writer_begin image
  ota_session_begin-IsTracked s total expect source l doc ok =
      elim (Option-cases (env.next_partition l)) [
        | inl e ↦ ground arith
        | inr (p, e) ↦ ground (arith, doc.handles l p total, doc.sizes l e, crc.update_nil 0)
      ]

  -- Whatever a write answers, the session stays tracked, and the image has grown by exactly the
  -- buffer if the answer is ESP_OK, and not at all otherwise.
  pub ota_session_write-IsTracked :
      (s : Session) (d : Bytes) (l : Log)
      → IsTracked crc s l
      → length d < 65536
      → let (e, s', l') = ota_session_write env crc s d l in
        IsTracked crc s' l'
        × (s'.wr ≡ s.wr)
        × (s'.bytes_expected ≡ s.bytes_expected)
        × (s'.crc_expect ≡ s.crc_expect)
        × (image s.wr.handle l'
            ≡ (if is_ok e then image s.wr.handle l ++ d else image s.wr.handle l))
  unfolding ota_session_write ota_writer_write image
  ota_session_write-IsTracked s d l t h =
      ground
        (arith, crc.update-append 0 (image s.wr.handle l) d, length-append (image s.wr.handle l) d)

  -- A buffer that fits is written, if ESP-IDF accepts it.
  pub ota_session_write_accepts :
      (s : Session) (d : Bytes) (l : Log)
      → IsTracked crc s l
      → 0 < length d
      → s.bytes_written + length d ≤ s.bytes_expected
      → env.write_result l s.wr.handle d ≡ esp_ok
      → (ota_session_write env crc s d l).0 ≡ esp_ok
  unfolding ota_session_write ota_writer_write
  ota_session_write_accepts s d l t some_bytes room ok = ground arith
