-- ===== src/Mode.antt =====
-- `sc_mode_t` of components/syscoord/include/syscoord.h.
use esp32_remot_control.Prelude.{Bool, true, false}

pub data Mode : Type 0 where
  startup wait_control normal recovery : Mode

abbrev pub is_recovery : Mode → Bool
is_recovery recovery = true
is_recovery _ = false

abbrev pub is_normal : Mode → Bool
is_normal normal = true
is_normal _ = false
