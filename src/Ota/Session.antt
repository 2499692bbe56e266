-- ===== src/Ota/Session.antt =====
-- components/ota/ota_session.c: bounds, CRC and accounting of one image. `size_t` and `uint32_t`
-- have 32 bits here. No caller passes a null session or a null buffer.
pub mod Image
pub mod Finish
pub mod Boots
use esp32_remot_control.Prelude.{
  ℕ, ◌+◌, ◌&&◌, ◌||◌, not, Bool, true, false, length, Bytes, u32, ltb, leb, ◌==◌, if◌then◌else◌,
}
use esp32_remot_control.Esp.{
  EspErr, esp_ok, invalid_arg, invalid_state, invalid_size, invalid_crc, is_ok, Log, FlashEnv,
}
use esp32_remot_control.Ota.Writer.{
  Writer, ota_writer_begin, ota_writer_write, ota_writer_end, ota_writer_abort,
}
use esp32_remot_control.Ota.Crc.{CrcRoutine}

pub data Source : Type 0 where
  unset ble tcp : Source

-- `ota_session_t`
pub record Session : Type 0 where
  pub active : Bool
  pub wr : Writer
  pub bytes_expected : ℕ
  pub bytes_written : ℕ
  pub crc_expect : ℕ
  pub crc_running : ℕ
  pub source : Source
  pub yield_bytes : ℕ
  pub since_yield : ℕ

abbrev pub ota_session_yield_bytes : ℕ
ota_session_yield_bytes = 65536

-- The session after `memset`, with the writer that `ota_writer_begin` has filled in.
abbrev pub cleared : Writer → Session
cleared wr = record {
  active = false;
  wr = wr;
  bytes_expected = 0;
  bytes_written = 0;
  crc_expect = 0;
  crc_running = 0;
  source = unset;
  yield_bytes = 0;
  since_yield = 0;
}

module _ (env : FlashEnv) where
  -- The part behind the guards.
  begin_session : Session → ℕ → ℕ → Source → Log → EspErr × Session × Log
  begin_session s total crc source l =
      let (e, wr, l') = ota_writer_begin env total l in
      if is_ok e
      then (
        esp_ok,
        record {
          active = true;
          wr = wr;
          bytes_expected = total;
          bytes_written = 0;
          crc_expect = crc;
          crc_running = 0;
          source = source;
          yield_bytes = ota_session_yield_bytes;
          since_yield = 0;
        },
        l',
      )
      else (e, cleared wr, l')

  unfoldable pub ota_session_begin : Session → ℕ → ℕ → Source → Log → EspErr × Session × Log
  unfolding begin_session
  ota_session_begin s total crc source l =
      if total == 0
      then (invalid_arg, s, l)
      else if s.active
      then (invalid_state, s, l)
      else begin_session s total crc source l

  unfoldable pub ota_session_finish : Session → Log → EspErr × Session × Log
  ota_session_finish s l =
      let (wr, aborted) = ota_writer_abort s.wr l in
      let (e, ended) = ota_writer_end env s.wr l in
      if not s.active
      then (invalid_state, s, l)
      else if not (s.bytes_written == s.bytes_expected)
      then (invalid_size, record s { wr = wr; active = false }, aborted)
      else if not (s.crc_expect == 0) && not (s.crc_running == s.crc_expect)
      then (invalid_crc, record s { wr = wr; active = false }, aborted)
      else (e, record s { active = false }, ended)

module _ (env : FlashEnv) (crc : CrcRoutine) where
  -- The accounting behind a successful write; `vTaskDelay(1)` changes no state.
  account : Session → Bytes → Session
  account s d =
      let since = u32 (s.since_yield + length d) in
      record s {
        bytes_written = u32 (s.bytes_written + length d);
        crc_running = crc.update s.crc_running d;
        since_yield = if leb s.yield_bytes since then 0 else since;
      }

  unfoldable pub ota_session_write : Session → Bytes → Log → EspErr × Session × Log
  unfolding account
  ota_session_write s d l =
      let (e, l') = ota_writer_write env s.wr d l in
      if not s.active || length d == 0
      then (invalid_arg, s, l)
      else if ltb s.bytes_expected (u32 (s.bytes_written + length d))
      then (invalid_size, s, l)
      else if is_ok e
      then (esp_ok, account s d, l')
      else (e, s, l')

unfoldable pub ota_session_abort : Session → Log → Session × Log
ota_session_abort s l =
    let (wr, l') = ota_writer_abort s.wr l in
    if s.active then (record s { wr = wr; active = false }, l') else (s, l)
