-- ===== src/Ota/Handler/Complete.antt =====
-- An image that arrives whole, in any pieces, is installed.
use esp32_remot_control.Prelude.{
  ℕ, zero, suc, ◌+◌, ◌-◌, ◌≤◌, ◌<◌, ◌≡◌, ◌⊎◌, ◌∷◌, refl, ap, min, inl, inr, true, false, some, [],
  take, drop, length, length-take, length-drop, Bytes, Bool-cases, ltb, ltb→lt, ◌==◌, arith,
}
use esp32_remot_control.Esp.{esp_ok, Partition, end, Log, FlashEnv, IsDocumented}
use esp32_remot_control.Ota.Crc.{CrcRoutine}
use esp32_remot_control.Ota.Writer.{ota_writer_begin}
use esp32_remot_control.Ota.Session.{Session, tcp, ota_session_begin}
use esp32_remot_control.Ota.Session.Image.{
  IsTracked, ota_session_begin-IsTracked, ota_session_write_accepts,
}
use esp32_remot_control.Ota.Session.Finish.{IsComplete, ota_session_finish_complete}
use esp32_remot_control.Ota.Session.Boots.{boots, boots-ota_session_begin}
use esp32_remot_control.Ota.Socket.{Socket, recv_fully}
use esp32_remot_control.Ota.Socket.Stream.{stream, IsClean, recv_fully-IsClean}
use esp32_remot_control.Ota.Handler.{
  rebooted, Progress, more, stop, stuck, write_buf_sz, rd_le32, finish_reply, tail_step,
  payload_write, payload_step, payload_loop, after_payload, ota_perform,
}
use esp32_remot_control.Ota.Handler.Payload.{
  InLoop, Turned, Looped, payload_step-Turned, payload_loop-Looped,
}

-- ESP-IDF accepts every call, and offers the partition `p`.
pub record IsWilling (env : FlashEnv) (p : Partition) : Type 0 where
  pub offers : (l : Log) → env.next_partition l ≡ some p
  pub begins : (l : Log) (n : ℕ) → env.begin_result l p n ≡ esp_ok
  pub writes : (l : Log) (h : ℕ) (d : Bytes) → env.write_result l h d ≡ esp_ok
  pub ends : (l : Log) (h : ℕ) → env.end_result l h ≡ esp_ok
  pub boots_from : (l : Log) (q : Partition) → env.set_boot_result l q ≡ esp_ok

-- The loop has not stopped, and the socket is still clean.
abbrev Goes : Progress → Type 0
Goes (more received s l k) = IsClean k
Goes (stop line e s l) = ⊥
Goes (stuck s l) = ⊥

module _ (env : FlashEnv) (crc : CrcRoutine) (p : Partition) (size : ℕ) (input : Bytes) (booted : ℕ)
    (w : IsWilling env p) (long : size + 4 ≤ length input) where
  payload_step-Goes :
      (received : ℕ) (s : Session) (l : Log) (k : Socket)
      → InLoop crc size input booted received s l k
      → received < size
      → IsClean k
      → Goes (payload_step env crc size received s l k)
  unfolding payload_step payload_write
  payload_step-Goes received s l k i h c =
      let want = min (size - received) write_buf_sz in
      let len : want ≤ length (stream k) = rw i.left (omega (arith, length-drop received input)) in
      let r = recv_fully-IsClean want [] k c len in
      let d = take want (stream k) in
      let full : length d ≡ want = omega (arith, length-take want (stream k)) in
      let e =
        ota_session_write_accepts env crc s d l i.tracked (omega arith)
          (omega (arith, i.counted, i.expected)) (w.writes l s.wr.handle d) in
      rw (r.0, e) (r.1)

  after_turn-Goes :
      (f received : ℕ) (t : Progress)
      → Turned crc size input booted received t
      → Goes t
      → size ≤ received + suc f
      → ((received' : ℕ) (s : Session) (l : Log) (k : Socket)
          → InLoop crc size input booted received' s l k
          → size ≤ received' + f
          → IsClean k
          → Goes (payload_loop env crc f size received' s l k))
      → Goes (elim t [
        | more received' s l k ↦ payload_loop env crc f size received' s l k
        | stop line e s l ↦ stop line e s l
        | stuck s l ↦ stuck s l
      ])
  after_turn-Goes f received (more received' s l k) t g h next =
      next received' s l k t.0 (omega arith) g
  after_turn-Goes f received (stop line e s l) t g h next = absurd g
  after_turn-Goes f received (stuck s l) t g h next = absurd g

  payload_loop-Goes :
      (f received : ℕ) (s : Session) (l : Log) (k : Socket)
      → InLoop crc size input booted received s l k
      → size ≤ received + f
      → IsClean k
      → Goes (payload_loop env crc f size received s l k)
  unfolding payload_loop
  payload_loop-Goes zero received s l k i h c =
      let full : ltb received size ≡ false = ground arith in rw full c
  payload_loop-Goes (suc f) received s l k i h c = elim (Bool-cases (ltb received size)) [
    | inl less ↦
        let h' = ltb→lt received size less in
        rw less (
          after_turn-Goes f received (payload_step env crc size received s l k)
            (payload_step-Turned env crc size input booted received s l k i h')
            (payload_step-Goes received s l k i h' c) h (payload_loop-Goes f))
    | inr full ↦ rw full c
  ]

  tail_step_reboots :
      (s : Session) (l : Log) (k : Socket)
      → InLoop crc size input booted size s l k
      → IsClean k
      → (rd_le32 (take 4 (drop size input)) ≡ 0)
        ⊎ (crc.update 0 (take size input) ≡ rd_le32 (take 4 (drop size input)))
      → (tail_step env crc (recv_fully 4 [] k).0 s l).ending ≡ rebooted
  unfolding tail_step finish_reply
  tail_step_reboots s l k i c h =
      let tail = take 4 (stream k) in
      let s' = record s { crc_expect = rd_le32 tail } in
      let t : IsTracked crc s' l = record {
        is_active = i.tracked.is_active;
        handle_set = i.tracked.handle_set;
        target = i.tracked.target;
        written = i.tracked.written;
        checked = i.tracked.checked;
        bounded = i.tracked.bounded;
        fits = i.tracked.fits;
        paced = i.tracked.paced;
        yields = i.tracked.yields;
      } in
      let whole : IsComplete crc s' l = record {
        whole = omega (arith, i.tracked.written, i.counted, i.expected);
        crc_holds = rw (i.left, i.read) h;
      } in
      let e =
        ota_session_finish_complete env crc s' l t whole (w.ends l s.wr.handle)
          (λ q. w.boots_from (end s.wr.handle esp_ok ∷ l) q) in
      let r = recv_fully-IsClean 4 [] k c (rw i.left (omega (arith, length-drop size input))) in
      rw (r.0, e)

  after_payload_reboots :
      (t : Progress)
      → Looped crc size input booted t
      → Goes t
      → (rd_le32 (take 4 (drop size input)) ≡ 0)
        ⊎ (crc.update 0 (take size input) ≡ rd_le32 (take 4 (drop size input)))
      → (after_payload env crc t).ending ≡ rebooted
  unfolding after_payload
  after_payload_reboots (more received s l k) i g h = tail_step_reboots s l k (rw i.1 at i.0) g h
  after_payload_reboots (stop line e s l) i g h = absurd g
  after_payload_reboots (stuck s l) i g h = absurd g

ota_session_begin_accepts :
    (env : FlashEnv) (crc : CrcRoutine) (p : Partition) (size : ℕ) (s0 : Session) (l : Log)
    → IsWilling env p
    → s0.active ≡ false
    → 0 < size
    → size ≤ p.size
    → (ota_session_begin env s0 size 0 tcp l).0 ≡ esp_ok
unfolding ota_session_begin ota_writer_begin
ota_session_begin_accepts env crc p size s0 l w idle some_bytes room =
    ground (arith, w.offers l, w.begins l size)

-- If ESP-IDF behaves as documented and accepts every call, the memory of the session happens not to
-- be set active, the buffer can be allocated, and a nonempty image that fits the partition arrives
-- on a clean socket in any pieces with its CRC or zero behind it, then `ota_perform` reboots.
pub ota_perform_reboots :
    (env : FlashEnv) (crc : CrcRoutine) (p : Partition) (size : ℕ) (s0 : Session) (k : Socket)
    (l : Log)
    → IsDocumented env
    → IsWilling env p
    → s0.active ≡ false
    → 0 < size
    → size ≤ p.size
    → IsClean k
    → size + 4 ≤ length (stream k)
    → (rd_le32 (take 4 (drop size (stream k))) ≡ 0)
      ⊎ (crc.update 0 (take size (stream k)) ≡ rd_le32 (take 4 (drop size (stream k))))
    → (ota_perform env crc true s0 size k l).ending ≡ rebooted
unfolding ota_perform
ota_perform_reboots env crc p size s0 k l doc w idle some_bytes room c long h =
    let b = ota_session_begin env s0 size 0 tcp l in
    let nonempty : (size == 0) ≡ false = ground arith in
    let e = ota_session_begin_accepts env crc p size s0 l w idle some_bytes room in
    let t = ota_session_begin-IsTracked env crc s0 size 0 tcp l doc e in
    let i : InLoop crc size (stream k) (boots l) 0 b.1 b.2 k = record {
      tracked = t.0;
      counted = omega (arith, t.0.written, ap length t.1);
      expected = t.2;
      read = t.1;
      available = omega arith;
      left = refl;
      unbooted = boots-ota_session_begin env s0 size 0 tcp l;
    } in
    rw (nonempty, e)
      (after_payload_reboots env crc p size (stream k) (boots l) w long _
        (payload_loop-Looped env crc size (stream k) (boots l) size 0 b.1 b.2 k i (omega arith)
          (omega arith))
        (payload_loop-Goes env crc p size (stream k) (boots l) w long size 0 b.1 b.2 k i
          (omega arith) c)
        h)
