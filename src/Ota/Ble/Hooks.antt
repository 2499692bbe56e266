-- ===== src/Ota/Ble/Hooks.antt =====
-- The hooks of ble_ota.c as gatt_server.c calls them, and what a sender puts into them.
use esp32_remot_control.Prelude.{
  ℕ, zero, suc, ◌+◌, ◌<◌, ◌≡◌, ◌++◌, List, [], ◌∷◌, take, drop, length, Bytes,
}
use esp32_remot_control.Mode.{Mode}
use esp32_remot_control.Ota.Handler.{rd_le32}

-- The three hooks that gatt_server.c calls; a control line comes with the mode of the moment.
pub data Hook : Type 0 where
  ctrl : Mode → Bytes → Hook
  frame : Bytes → Hook
  disconnect : Hook

-- The first `n` chunks of a sender.
abbrev pub sent : (ℕ → Bytes) → ℕ → Bytes
sent chunk zero = []
sent chunk (suc n) = sent chunk n ++ chunk n

-- A well-formed frame carries the chunk of its number. Frames may be lost, repeated or reordered.
abbrev pub IsFrom : (ℕ → Bytes) → Hook → Type 0
IsFrom chunk (ctrl mode d) = Unit
IsFrom chunk (frame d) =
    (length d < 65536)
    × (length d ≡ 6 + rd_le32 (take 2 (drop 4 d)) → drop 6 d ≡ chunk (rd_le32 (take 4 d)))
IsFrom chunk disconnect = Unit

abbrev pub AllFrom : (ℕ → Bytes) → List Hook → Type 0
AllFrom chunk [] = Unit
AllFrom chunk (h ∷ hs) = IsFrom chunk h × AllFrom chunk hs
