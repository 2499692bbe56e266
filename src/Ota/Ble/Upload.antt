-- ===== src/Ota/Ble/Upload.antt =====
-- Any sequence of hooks: what is flashed is what the sender numbered, each chunk once and in order.
use esp32_remot_control.Prelude.{
  ℕ, suc, ◌+◌, ◌≡◌, ◌⊎◌, ◌∙◌, refl, ap, inl, inr, true, List, [], ◌∷◌, drop, length, length-drop,
  Bytes, Bool-cases, arith, Option, some,
}
use esp32_remot_control.Esp.{Log, FlashEnv, IsDocumented, image}
use esp32_remot_control.Ota.Crc.{CrcRoutine}
use esp32_remot_control.Ota.Session.Boots.{boots}
use esp32_remot_control.Ota.Ble.{
  World, Step, runs, restarts, ble_ota_on_ctrl_write, ble_ota_on_data_write, ble_ota_on_disconnect,
}
use esp32_remot_control.Ota.Ble.Synced.{
  IsSynced, ble_ota_on_ctrl_write-IsSynced, ble_ota_on_data_write-IsSynced,
  ble_ota_on_disconnect-IsSynced,
}
use esp32_remot_control.Ota.Ble.Frames.{
  IsFlashed, on_frame-restarts, ble_ota_on_ctrl_write-ne-restarts,
  ble_ota_on_disconnect-ne-restarts,
}
use esp32_remot_control.Ota.Ble.Boots.{boots-ctrl, boots-frame, boots-disconnect}
use esp32_remot_control.Ota.Ble.Hooks.{Hook, ctrl, frame, disconnect, sent, IsFrom, AllFrom}
use esp32_remot_control.Ota.Ble.Announced.{
  announce, IsAnnounced, ble_ota_on_ctrl_write-IsAnnounced, ble_ota_on_data_write-IsAnnounced,
}
use esp32_remot_control.Ota.Ble.Assembled.{
  IsAssembled, ble_ota_on_ctrl_write-IsAssembled, ble_ota_on_data_write-IsAssembled,
}

module _ (env : FlashEnv) (crc : CrcRoutine) where
  unfoldable pub hook : Hook → World → Step
  hook (ctrl mode d) w = ble_ota_on_ctrl_write env mode d w
  hook (frame d) w = ble_ota_on_data_write env crc d w
  hook disconnect w = ble_ota_on_disconnect env w

  -- The hooks up to a restart.
  unfoldable pub run : List Hook → World → Step
  run [] w = runs w
  run (h ∷ hs) w = elim (hook h w) [ runs w' ↦ run hs w' | restarts w' ↦ restarts w' ]

  -- The last announcement of a run.
  unfoldable pub announced : List Hook → World → Option (ℕ × ℕ) → Option (ℕ × ℕ)
  announced [] w a = a
  announced (h ∷ hs) w a = elim (hook h w) [
    | runs w' ↦ announced hs w' (announce h w a)
    | restarts w' ↦ announce h w a
  ]

  -- What a restart after any hooks leaves behind, with the last announcement `a` before it.
  pub record IsInstalledFrom (chunk : ℕ → Bytes) (before : Log) (a : Option (ℕ × ℕ)) (w : World)
      : Type 0 where
    pub frames : ℕ
    pub size : ℕ
    pub expect : ℕ
    pub announcement : a ≡ some (size, expect)
    pub assembled : image w.s_ble.wr.handle w.log ≡ sent chunk frames
    pub whole : length (image w.s_ble.wr.handle w.log) ≡ size
    pub crc_holds : (expect ≡ 0) ⊎ (crc.update 0 (image w.s_ble.wr.handle w.log) ≡ expect)
    pub booted_once : boots w.log ≡ 1 + boots before

  -- What any hooks lead to, from a log `before`.
  abbrev pub Reached : (ℕ → Bytes) → Log → Option (ℕ × ℕ) → Step → Type 0
  Reached chunk before a (runs w) =
      IsSynced crc w × IsAssembled chunk w × IsAnnounced a w × (boots w.log ≡ boots before)
  Reached chunk before a (restarts w) = IsInstalledFrom chunk before a w

  frame-restarts :
      (chunk : ℕ → Bytes) (d : Bytes) (w : World) {w' : World}
      → IsSynced crc w
      → IsFrom chunk (frame d)
      → IsAssembled chunk w
      → ble_ota_on_data_write env crc d w ≡ restarts w'
      → IsFlashed crc w.log w'
        × (image w'.s_ble.wr.handle w'.log ≡ sent chunk (suc w.bo.expect_seq))
        × (w.bo.active ≡ true)
        × (w'.s_ble.bytes_expected ≡ w.bo.total)
        × (w'.s_ble.crc_expect ≡ w.bo.expect_crc)
  unfolding ble_ota_on_data_write
  frame-restarts chunk d w {w'} i f a e = elim (Bool-cases w.bo.active) [
    | inl busy ↦
        let u = i.uploading busy in
        ground
          (arith, a busy, f, length-drop 6 d, on_frame-restarts env crc (drop 6 d) w {w' = w'} u)
    | inr idle ↦ ground arith
  ]

  hook-Reached :
      (chunk : ℕ → Bytes) (h : Hook) (w : World) (a : Option (ℕ × ℕ)) (r : Step)
      → IsDocumented env
      → IsSynced crc w
      → IsAssembled chunk w
      → IsAnnounced a w
      → IsFrom chunk h
      → hook h w ≡ r
      → Reached chunk w.log (announce h w a) r
  unfolding hook
  hook-Reached chunk (ctrl mode d) w a (runs w') doc i s n f e = (
    ble_ota_on_ctrl_write-IsSynced env crc mode d w doc i e,
    ble_ota_on_ctrl_write-IsAssembled env crc chunk mode d w doc s e,
    ble_ota_on_ctrl_write-IsAnnounced env crc a mode d w n e,
    boots-ctrl env mode d w e,
  )
  hook-Reached chunk (ctrl mode d) w a (restarts w') doc i s n f e =
      absurd (ble_ota_on_ctrl_write-ne-restarts env crc mode d w w' i e)
  hook-Reached chunk (frame d) w a (runs w') doc i s n f e = (
    ble_ota_on_data_write-IsSynced env crc d w i f.0 e,
    ble_ota_on_data_write-IsAssembled env crc chunk d w i f s e,
    ble_ota_on_data_write-IsAnnounced env crc a d w n e,
    boots-frame env crc d w e,
  )
  hook-Reached chunk (frame d) w a (restarts w') doc i s n f e =
      let (flashed, assembled, busy, size, expect) = frame-restarts chunk d w i f s e in
      record {
        frames = suc w.bo.expect_seq;
        size = w.bo.total;
        expect = w.bo.expect_crc;
        announcement = n busy;
        assembled = assembled;
        whole = flashed.whole ∙ size;
        crc_holds = rw expect at flashed.crc_holds;
        booted_once = flashed.booted;
      }
  hook-Reached chunk disconnect w a (runs w') doc i s n f e =
      let (synced, over) = ble_ota_on_disconnect-IsSynced env crc w i e in
      (synced, (λ busy. cc), (λ busy. cc), boots-disconnect env w e)
  hook-Reached chunk disconnect w a (restarts w') doc i s n f e =
      absurd (ble_ota_on_disconnect-ne-restarts env crc w w' i e)

  Reached-since :
      (chunk : ℕ → Bytes) (l l' : Log) (a : Option (ℕ × ℕ)) (r : Step)
      → boots l' ≡ boots l
      → Reached chunk l' a r
      → Reached chunk l a r
  Reached-since chunk l l' a (runs w) e (i, s, n, b) = (i, s, n, b ∙ e)
  Reached-since chunk l l' a (restarts w) e f = record {
    frames = f.frames;
    size = f.size;
    expect = f.expect;
    announcement = f.announcement;
    assembled = f.assembled;
    whole = f.whole;
    crc_holds = f.crc_holds;
    booted_once = f.booted_once ∙ ap (λ (n : ℕ). 1 + n) e;
  }

  -- From a synced state in which an upload under way holds the sender's first chunks and is the one that
  -- has been announced, any sequence of control lines, frames of that sender and disconnects leads to
  -- such a state again with the boot partition unchanged, or to a restart. At a restart the image is the
  -- concatenation of the sender's first chunks, it has the size that the last START line to an idle
  -- device gave, its CRC is the one of that line or that was zero, and the boot partition has been set
  -- exactly once.
  pub run-Reached :
      (chunk : ℕ → Bytes) (hs : List Hook) (w : World) (a : Option (ℕ × ℕ))
      → IsDocumented env
      → IsSynced crc w
      → IsAssembled chunk w
      → IsAnnounced a w
      → AllFrom chunk hs
      → Reached chunk w.log (announced hs w a) (run hs w)
  unfolding run announced
  run-Reached chunk [] w a doc i s n f = (i, s, n, refl)
  run-Reached chunk (h ∷ hs) w a doc i s n f =
      go (hook h w) refl (λ w' i' s' n'. run-Reached chunk hs w' (announce h w a) doc i' s' n' f.1)
    where
      go :
          (r : Step)
          → hook h w ≡ r
          → ((w' : World)
              → IsSynced crc w'
              → IsAssembled chunk w'
              → IsAnnounced (announce h w a) w'
              → Reached chunk w'.log (announced hs w' (announce h w a)) (run hs w'))
          → Reached chunk w.log
              (elim r [ runs w' ↦ announced hs w' (announce h w a) | restarts w' ↦ announce h w a ])
              (elim r [ runs w' ↦ run hs w' | restarts w' ↦ restarts w' ])
      go (runs w') e next =
          let t = hook-Reached chunk h w a (runs w') doc i s n f.0 e in
          Reached-since chunk w.log w'.log (announced hs w' (announce h w a)) (run hs w') t.3
            (next w' t.0 t.1 t.2)
      go (restarts w') e next = hook-Reached chunk h w a (restarts w') doc i s n f.0 e
