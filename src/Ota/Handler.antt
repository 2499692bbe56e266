-- ===== src/Ota/Handler.antt =====
-- components/ota/ota_handler.c, the TCP path: `ota_perform`. The session lies on the stack and is
-- not initialised, so what it holds before `ota_session_begin` is a parameter.
pub mod Payload
pub mod Sound
pub mod Complete
use esp32_remot_control.Prelude.{
  ℕ, zero, suc, ◌+◌, ◌-◌, ◌*◌, not, Bool, true, false, List, [], ◌∷◌, length, min, Bytes, u32, ltb,
  ◌==◌, if◌then◌else◌,
}
use esp32_remot_control.Esp.{
  EspErr, esp_fail, no_mem, invalid_size, is_ok, is_invalid_crc, Log, FlashEnv,
}
use esp32_remot_control.Ota.Crc.{CrcRoutine}
use esp32_remot_control.Ota.Session.{
  Session, tcp, ota_session_begin, ota_session_write, ota_session_finish, ota_session_abort,
}
use esp32_remot_control.Ota.Socket.{Socket, Received, got, closed, broken, recv_fully}

-- The lines that `send_line` sends.
pub data Line : Type 0 where
  err_bad_size ack err_ota_begin err_nomem err_recv_payload err_ota_write : Line
  err_recv_crc crcfail err_ota_end ok : Line

-- How the call ends: it returns, `esp_restart` is reached, or the fuel of the model runs out.
pub data Ending : Type 0 where
  returned : EspErr → Ending
  rebooted : Ending
  out_of_fuel : Ending

pub record Outcome : Type 0 where
  pub lines : List Line
  pub ending : Ending
  pub session : Session
  pub log : Log

abbrev pub write_buf_sz : ℕ
write_buf_sz = 4096

-- After one turn of the payload loop, or after the loop.
pub data Progress : Type 0 where
  more : ℕ → Session → Log → Socket → Progress
  stop : Line → EspErr → Session → Log → Progress
  stuck : Session → Log → Progress

-- A failure behind `ota_session_begin`: one line, and the session is aborted.
abbrev pub give_up : Line → EspErr → Session → Log → Progress
give_up line e s l = let (s', l') = ota_session_abort s l in stop line e s' l'

-- `uint32_t tail_crc`
abbrev pub rd_le32 : Bytes → ℕ
rd_le32 [] = 0
rd_le32 (b ∷ d) = b + 256 * rd_le32 d

module _ (env : FlashEnv) (crc : CrcRoutine) where
  payload_write : ℕ → Received → Session → Log → Socket → Progress
  payload_write received (got d) s l k =
      let (e, s', l') = ota_session_write env crc s d l in
      if is_ok e then more (u32 (received + length d)) s' l' k else give_up err_ota_write e s' l'
  payload_write received closed s l k = give_up err_recv_payload esp_fail s l
  payload_write received broken s l k = give_up err_recv_payload esp_fail s l

  unfoldable pub payload_step : ℕ → ℕ → Session → Log → Socket → Progress
  unfolding payload_write
  payload_step size received s l k =
      let (r, k') = recv_fully (min (size - received) write_buf_sz) [] k in
      payload_write received r s l k'

  unfoldable pub payload_loop : ℕ → ℕ → ℕ → Session → Log → Socket → Progress
  payload_loop zero size received s l k =
      if ltb received size then stuck s l else more received s l k
  payload_loop (suc f) size received s l k =
      let turn : Progress = elim (payload_step size received s l k) [
        | more received' s' l' k' ↦ payload_loop f size received' s' l' k'
        | stop line e s' l' ↦ stop line e s' l'
        | stuck s' l' ↦ stuck s' l'
      ] in
      if ltb received size then turn else more received s l k

  -- The end of the function, once the session has been finished.
  finish_reply : EspErr → Session → Log → Outcome
  finish_reply e s l =
      if is_ok e
      then record { lines = ack ∷ ok ∷ []; ending = rebooted; session = s; log = l }
      else record {
        lines = ack ∷ (if is_invalid_crc e then crcfail else err_ota_end) ∷ [];
        ending = returned e;
        session = s;
        log = l;
      }

  abbrev failing : Line → EspErr → Session → Log → Outcome
  failing line e s l = record { lines = ack ∷ line ∷ []; ending = returned e; session = s; log = l }

  -- The trailing CRC, and the finish that checks it.
  tail_step : Received → Session → Log → Outcome
  unfolding finish_reply
  tail_step (got tail) s l =
      let (e, s', l') = ota_session_finish env (record s { crc_expect = rd_le32 tail }) l in
      finish_reply e s' l'
  tail_step closed s l = let (s', l') = ota_session_abort s l in failing err_recv_crc esp_fail s' l'
  tail_step broken s l = let (s', l') = ota_session_abort s l in failing err_recv_crc esp_fail s' l'

  unfoldable pub after_payload : Progress → Outcome
  unfolding tail_step
  after_payload (more received s l k) = tail_step (recv_fully 4 [] k).0 s l
  after_payload (stop line e s l) = failing line e s l
  after_payload (stuck s l) = record {
    lines = ack ∷ [];
    ending = out_of_fuel;
    session = s;
    log = l;
  }

  -- `malloc_ok` is whether the buffer can be allocated. A turn of the loop reads at least one byte,
  -- so the size of the image is fuel enough.
  unfoldable pub ota_perform : Bool → Session → ℕ → Socket → Log → Outcome
  unfolding after_payload
  ota_perform malloc_ok s0 size k l =
      let (e, s, l') = ota_session_begin env s0 size 0 tcp l in
      let (s', aborted) = ota_session_abort s l' in
      let sent = after_payload (payload_loop size size 0 s l' k) in
      if size == 0
      then record {
        lines = err_bad_size ∷ [];
        ending = returned invalid_size;
        session = s0;
        log = l;
      }
      else if not (is_ok e)
      then failing err_ota_begin e s l'
      else if not malloc_ok
      then failing err_nomem no_mem s' aborted
      else sent
