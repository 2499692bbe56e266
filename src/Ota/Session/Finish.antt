-- ===== src/Ota/Session/Finish.antt =====
-- How a session ends: the boot partition changes only for a complete image whose CRC matches.
use esp32_remot_control.Prelude.{
  ℕ, ◌≡◌, ◌≢◌, ◌⊎◌, inl, inr, ◌∷◌, false, Option, some, none, Option-cases, length, arith,
}
use esp32_remot_control.Esp.{esp_ok, Partition, end, abort, set_boot, Log, FlashEnv, image}
use esp32_remot_control.Ota.Writer.{no_writer, ota_writer_end, ota_writer_abort}
use esp32_remot_control.Ota.Crc.{CrcRoutine}
use esp32_remot_control.Ota.Session.{Session, ota_session_finish}
use esp32_remot_control.Ota.Session.Image.{IsTracked}

-- The image of a session is complete, and its CRC is the expected one or none was asked for.
pub record IsComplete (crc : CrcRoutine) (s : Session) (l : Log) : Type 0 where
  pub whole : length (image s.wr.handle l) ≡ s.bytes_expected
  pub crc_holds : (s.crc_expect ≡ 0) ⊎ (crc.update 0 (image s.wr.handle l) ≡ s.crc_expect)

-- The two calls of a finish that succeeds, on a handle and its partition.
abbrev pub Booted : Option Partition → ℕ → Log → Log → Type 0
Booted none h l l' = ⊥
Booted (some p) h l l' = l' ≡ set_boot p esp_ok ∷ end h esp_ok ∷ l

module _ (env : FlashEnv) (crc : CrcRoutine) (s : Session) (l : Log) (t : IsTracked crc s l) where
  -- `ota_session_finish` on a tracked session closes it, and answers ESP_OK only if the image is
  -- complete with its CRC; then the handle has been ended and the boot partition set to the
  -- session's own target, and the session keeps its writer, its size and its expected CRC.
  pub ota_session_finish_sound :
      let (e, s', l') = ota_session_finish env s l in
      (s'.active ≡ false)
      × (e ≡ esp_ok
          → IsComplete crc s l
            × Booted s.wr.dst s.wr.handle l l'
            × (s'.wr ≡ s.wr)
            × (s'.bytes_expected ≡ s.bytes_expected)
            × (s'.crc_expect ≡ s.crc_expect))
  unfolding ota_session_finish ota_writer_end ota_writer_abort
  ota_session_finish_sound = elim (Option-cases s.wr.dst) [
    | inl e ↦ ground (arith, t.target)
    | inr (p, e) ↦ ground arith
  ]

  -- A complete image with its CRC is accepted if ESP-IDF accepts the end and the boot partition.
  pub ota_session_finish_complete :
      IsComplete crc s l
      → env.end_result l s.wr.handle ≡ esp_ok
      → ((p : Partition) → env.set_boot_result (end s.wr.handle esp_ok ∷ l) p ≡ esp_ok)
      → (ota_session_finish env s l).0 ≡ esp_ok
  unfolding ota_session_finish ota_writer_end
  ota_session_finish_complete c ended booted = elim (Option-cases s.wr.dst) [
    | inl e ↦ ground (arith, t.target)
    | inr (p, e) ↦ ground (arith, booted p)
  ]

  -- An incomplete image, or one with another CRC, is discarded: its handle is aborted, the writer
  -- is emptied, and nothing else is asked of the flash.
  pub ota_session_finish_discards :
      ¬ IsComplete crc s l
      → let (e, s', l') = ota_session_finish env s l in
        (e ≢ esp_ok) × (s'.active ≡ false) × (s'.wr ≡ no_writer) × (l' ≡ abort s.wr.handle ∷ l)
  unfolding ota_session_finish ota_writer_end ota_writer_abort
  ota_session_finish_discards bad = ground arith

  -- What went through the handle is what it was before the finish.
  pub image-ota_session_finish :
      (ota_session_finish env s l).0 ≡ esp_ok
      → let (e, s', l') = ota_session_finish env s l in image s'.wr.handle l' ≡ image s.wr.handle l
  unfolding ota_session_finish ota_writer_end ota_writer_abort image
  image-ota_session_finish ok = ground (arith, t.is_active)
