-- ===== src/Ota/Handler/Sound.antt =====
-- What `ota_perform` has done when it ends.
use esp32_remot_control.Prelude.{
  ℕ, ◌+◌, ◌≤◌, ◌≡◌, ◌≢◌, ◌⊎◌, ◌∙◌, ap, length-drop, Bytes, refl, inl, inr, Bool, [], take, drop,
  length, Bool-cases, ◌==◌, arith,
}
use esp32_remot_control.Esp.{
  EspErr, esp_ok, is_ok, is_ok-ne, is_ok-eq, Log, FlashEnv, IsDocumented, image,
}
use esp32_remot_control.Ota.Crc.{CrcRoutine}
use esp32_remot_control.Ota.Session.{Session, tcp, ota_session_begin, ota_session_finish}
use esp32_remot_control.Ota.Session.Image.{IsTracked, ota_session_begin-IsTracked}
use esp32_remot_control.Ota.Session.Finish.{ota_session_finish_sound, image-ota_session_finish}
use esp32_remot_control.Ota.Session.Boots.{
  boots, boots-ota_session_begin, boots-ota_session_finish, boots-ota_session_abort,
}
use esp32_remot_control.Ota.Socket.{Socket, Received, got, closed, broken, recv_fully}
use esp32_remot_control.Ota.Socket.Stream.{stream, ReadsNext, recv_fully-ReadsNext}
use esp32_remot_control.Ota.Handler.{
  Ending, returned, rebooted, out_of_fuel, Outcome, Progress, more, stop, stuck, rd_le32,
  finish_reply, tail_step, after_payload, ota_perform,
}
use esp32_remot_control.Ota.Handler.Payload.{InLoop, Looped, payload_loop-Looped}

module _ (crc : CrcRoutine) (size : ℕ) (input : Bytes) (l0 : Log) where
  -- The input starts with an image of that size, which is in the flash, and goes on with four bytes
  -- that are its CRC, or zero.
  pub record IsInstalled (s : Session) (l : Log) : Type 0 where
    pub whole : image s.wr.handle l ≡ take size input
    pub enough : size + 4 ≤ length input
    pub crc_holds :
        (rd_le32 (take 4 (drop size input)) ≡ 0)
        ⊎ (crc.update 0 (take size input) ≡ rd_le32 (take 4 (drop size input)))
    pub booted_once : boots l ≡ 1 + boots l0

  -- The whole image with a reboot, or an error with the boot partition as it was.
  abbrev pub EndedBy : Ending → Session → Log → Type 0
  EndedBy rebooted s l = IsInstalled s l
  EndedBy (returned e) s l = (e ≢ esp_ok) × (boots l ≡ boots l0)
  EndedBy out_of_fuel s l = ⊥

  abbrev pub Ended : Outcome → Type 0
  Ended o = EndedBy o.ending o.session o.log

module _ (env : FlashEnv) (crc : CrcRoutine) (size : ℕ) (input : Bytes) (l0 : Log) where
  finish_reply-Ended :
      (e : EspErr) (s : Session) (l : Log)
      → (e ≡ esp_ok → IsInstalled crc size input l0 s l)
      → (e ≢ esp_ok → boots l ≡ boots l0)
      → Ended crc size input l0 (finish_reply env crc e s l)
  unfolding finish_reply
  finish_reply-Ended esp_ok s l good bad = good refl
  finish_reply-Ended _ s l good bad = (λ e. cc, bad (λ e. cc))

  tail_step-Ended :
      (r : Received) (s : Session) (l : Log) (k k' : Socket)
      → InLoop crc size input (boots l0) size s l k
      → ReadsNext 4 [] k r k'
      → Ended crc size input l0 (tail_step env crc r s l)
  unfolding tail_step
  tail_step-Ended (got tail) s l k k' i n =
      let s' = record s { crc_expect = rd_le32 tail } in
      let t : IsTracked crc s' l = record {
        is_active = i.tracked.is_active;
        handle_set = i.tracked.handle_set;
        target = i.tracked.target;
        written = i.tracked.written;
        checked = i.tracked.checked;
        bounded = i.tracked.bounded;
        fits = i.tracked.fits;
        paced = i.tracked.paced;
        yields = i.tracked.yields;
      } in
      let fin = ota_session_finish env s' l in
      let sound = ota_session_finish_sound env crc s' l t in
      let kept = image-ota_session_finish env crc s' l t in
      let counted = boots-ota_session_finish env s' l in
      finish_reply-Ended fin.0 fin.1 fin.2
        (λ ok. record {
          whole = ground (arith, kept, i.read);
          enough = omega (arith, ap length i.left, n.1, length-drop size input);
          crc_holds = ground (arith, (sound.1 ok).0.crc_holds, i.read, i.left, n.0);
          booted_once = ground (arith, ok, counted, i.unbooted);
        })
        (λ bad. ground (arith, is_ok-ne fin.0 bad, counted, i.unbooted))
  tail_step-Ended closed s l k k' i n = (λ e. cc, boots-ota_session_abort s l ∙ i.unbooted)
  tail_step-Ended broken s l k k' i n = (λ e. cc, boots-ota_session_abort s l ∙ i.unbooted)

  after_payload-Ended :
      (t : Progress)
      → Looped crc size input (boots l0) t
      → Ended crc size input l0 (after_payload env crc t)
  unfolding after_payload
  after_payload-Ended (more received s l k) (i, e) =
      tail_step-Ended (recv_fully 4 [] k).0 s l k (recv_fully 4 [] k).1 (rw e at i)
        (recv_fully-ReadsNext 4 [] k)
  after_payload-Ended (stop line e s l) t = (t.0, t.1)
  after_payload-Ended (stuck s l) t = absurd t

  -- With documented flash behaviour and any socket, `ota_perform` ends. Either the device reboots,
  -- and then the flash holds the first `size` bytes of what the socket held, the four bytes behind
  -- them are their CRC or zero, and the boot partition has been set once more; or an error is
  -- returned and the boot partition has not been set.
  pub ota_perform-Ended :
      IsDocumented env
      → (malloc_ok : Bool) (s0 : Session) (k : Socket) → stream k ≡ input
      → Ended crc size input l0 (ota_perform env crc malloc_ok s0 size k l0)
  unfolding ota_perform
  ota_perform-Ended doc malloc_ok s0 k e =
      let b = ota_session_begin env s0 size 0 tcp l0 in
      let counted = boots-ota_session_begin env s0 size 0 tcp l0 in
      elim (Bool-cases (size == 0)) [
        | inl empty ↦ rw empty ((λ e. cc), refl)
        | inr some_bytes ↦ rw some_bytes (elim (Bool-cases (is_ok b.0)) [
          | inl good ↦
              let t =
                ota_session_begin-IsTracked env crc s0 size 0 tcp l0 doc (is_ok-eq b.0 good) in
              elim (Bool-cases malloc_ok) [
                | inl m ↦
                    rw (good, m)
                      (after_payload-Ended _ (
                        payload_loop-Looped env crc size input (boots l0) size 0 b.1 b.2 k
                          (record {
                            tracked = t.0;
                            counted = omega (arith, t.0.written, ap length t.1);
                            expected = t.2;
                            read = t.1;
                            available = omega arith;
                            left = e;
                            unbooted = counted;
                          })
                          (omega arith) (omega arith)))
                | inr m ↦ rw (good, m) ((λ e. cc), boots-ota_session_abort b.1 b.2 ∙ counted)
              ]
          | inr bad ↦ rw bad ((λ e. ground arith), counted)
        ])
      ]
