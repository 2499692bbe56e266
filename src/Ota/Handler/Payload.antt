-- ===== src/Ota/Handler/Payload.antt =====
-- The payload loop: what has been written is what has been read, and the loop ends.
use esp32_remot_control.Prelude.{
  ◌≢◌, ◌∙◌, [], ap, length-append, ℕ, zero, suc, ◌+◌, ◌-◌, ◌≤◌, ◌<◌, ◌≡◌, min, false, ltb, take,
  drop, take-add, drop-add, length, length-take, length-drop, Bytes, Bool-cases, inl, inr, arith,
  ltb→lt,
}
use esp32_remot_control.Esp.{esp_ok, Log, FlashEnv, image}
use esp32_remot_control.Ota.Crc.{CrcRoutine}
use esp32_remot_control.Ota.Session.{Session, ota_session_write}
use esp32_remot_control.Ota.Session.Image.{IsTracked, ota_session_write-IsTracked}
use esp32_remot_control.Ota.Session.Boots.{
  boots, boots-ota_session_write, boots-ota_session_abort, ota_session_abort-closed,
}
use esp32_remot_control.Ota.Socket.{Socket, Received, got, closed, broken, recv_fully}
use esp32_remot_control.Ota.Socket.Stream.{stream, ReadsNext, recv_fully-ReadsNext}
use esp32_remot_control.Ota.Handler.{
  Progress, more, stop, stuck, write_buf_sz, payload_write, payload_step, payload_loop,
}

module _ (crc : CrcRoutine) (size : ℕ) (input : Bytes) (booted : ℕ) where
  -- Between two turns: the image is the first `received` bytes of the input.
  pub record InLoop (received : ℕ) (s : Session) (l : Log) (k : Socket) : Type 0 where
    pub tracked : IsTracked crc s l
    pub counted : s.bytes_written ≡ received
    pub expected : s.bytes_expected ≡ size
    pub read : image s.wr.handle l ≡ take received input
    pub available : received ≤ length input
    pub left : stream k ≡ drop received input
    pub unbooted : boots l ≡ booted

  -- What a turn may lead to, from `received` bytes.
  abbrev pub Turned : ℕ → Progress → Type 0
  Turned received (more received' s l k) = InLoop received' s l k × (received < received')
  Turned received (stop line e s l) = (e ≢ esp_ok) × (boots l ≡ booted) × (s.active ≡ false)
  Turned received (stuck s l) = ⊥

  -- What the loop may lead to.
  abbrev pub Looped : Progress → Type 0
  Looped (more received s l k) = InLoop received s l k × (received ≡ size)
  Looped (stop line e s l) = (e ≢ esp_ok) × (boots l ≡ booted) × (s.active ≡ false)
  Looped (stuck s l) = ⊥

module _ (env : FlashEnv) (crc : CrcRoutine) (size : ℕ) (input : Bytes) (booted : ℕ) where
  payload_write-Turned :
      (received want : ℕ) (r : Received) (s : Session) (l : Log) (k k' : Socket)
      → InLoop crc size input booted received s l k
      → received + want ≤ size
      → 0 < want
      → want ≤ 4096
      → ReadsNext want [] k r k'
      → Turned crc size input booted received (payload_write env crc received r s l k')
  unfolding payload_write
  payload_write-Turned received want (got d) s l k k' i room some_wanted small n =
      let d_is : d ≡ take want (drop received input) = rw (← i.left) (n.0) in
      let len : length d ≡ want =
        rw d_is (omega (arith, length-take want (drop received input), ap length i.left)) in
      let w = ota_session_write-IsTracked env crc s d l i.tracked (omega arith) in
      let s' = (ota_session_write env crc s d l).1 in
      let l' = (ota_session_write env crc s d l).2 in
      ground (
        arith,
        w,
        d_is,
        len,
        boots-ota_session_write env crc s d l,
        boots-ota_session_abort s' l',
        ota_session_abort-closed s' l',
        take-add received want input,
        drop-add received want input,
        length-append (image s.wr.handle l) d,
        ap length i.left,
        length-drop received input,
      )
  payload_write-Turned received want closed s l k k' i room some_wanted small n =
      ((λ e. cc), boots-ota_session_abort s l ∙ i.unbooted, ota_session_abort-closed s l)
  payload_write-Turned received want broken s l k k' i room some_wanted small n =
      ((λ e. cc), boots-ota_session_abort s l ∙ i.unbooted, ota_session_abort-closed s l)

  pub payload_step-Turned :
      (received : ℕ) (s : Session) (l : Log) (k : Socket)
      → InLoop crc size input booted received s l k
      → received < size
      → Turned crc size input booted received (payload_step env crc size received s l k)
  unfolding payload_step
  payload_step-Turned received s l k i h =
      let want = min (size - received) write_buf_sz in
      payload_write-Turned received want (recv_fully want [] k).0 s l k (recv_fully want [] k).1 i
        (omega arith) (omega arith) (omega arith) (recv_fully-ReadsNext want [] k)

  after_turn :
      (f received : ℕ) (t : Progress)
      → Turned crc size input booted received t
      → size ≤ received + suc f
      → ((received' : ℕ) (s : Session) (l : Log) (k : Socket)
          → InLoop crc size input booted received' s l k
          → size ≤ received' + f
          → received' ≤ size
          → Looped crc size input booted (payload_loop env crc f size received' s l k))
      → Looped crc size input booted (elim t [
        | more received' s l k ↦ payload_loop env crc f size received' s l k
        | stop line e s l ↦ stop line e s l
        | stuck s l ↦ stuck s l
      ])
  after_turn f received (more received' s l k) t h next =
      next received' s l k t.0 (omega arith)
        (omega (arith, t.0.counted, t.0.expected, t.0.tracked.bounded))
  after_turn f received (stop line e s l) t h next = t
  after_turn f received (stuck s l) t h next = absurd t

  -- With the size of what is left for fuel, the loop ends, with the whole image or with an error.
  pub payload_loop-Looped :
      (f received : ℕ) (s : Session) (l : Log) (k : Socket)
      → InLoop crc size input booted received s l k
      → size ≤ received + f
      → received ≤ size
      → Looped crc size input booted (payload_loop env crc f size received s l k)
  unfolding payload_loop
  payload_loop-Looped zero received s l k i h b =
      let full : ltb received size ≡ false = ground arith in rw full (i, omega arith)
  payload_loop-Looped (suc f) received s l k i h b = elim (Bool-cases (ltb received size)) [
    | inl less ↦ rw less (
        after_turn f received (payload_step env crc size received s l k)
          (payload_step-Turned received s l k i (ltb→lt received size less)) h
          (payload_loop-Looped f))
    | inr full ↦ rw full (i, ground arith)
  ]
