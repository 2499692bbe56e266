-- ===== src/Bootflag.antt =====
-- components/bootflag/bootflag.c: one byte in NVS. Whether the namespace can be opened for reading
-- and for writing is part of the state; without it nothing is stored or nothing is found.
use esp32_remot_control.Prelude.{
  ℕ, ◌≡◌, Bool, true, false, not, Option, none, some, ◌==◌, if◌then◌else◌, arith,
}

pub record Nvs : Type 0 where
  pub post_rb : Option ℕ
  pub readable : Bool
  pub writable : Bool

write_u8 : ℕ → Nvs → Nvs
write_u8 v n = if n.writable then record n { post_rb = some v } else n

read_u8 : Nvs → Option ℕ
read_u8 n = if n.readable then n.post_rb else none

abbrev flag : Bool → ℕ
flag true = 1
flag false = 0

abbrev holds : Option ℕ → ℕ → Bool
holds none v = false
holds (some cur) v = cur == v

abbrev is_set : Option ℕ → Bool
is_set none = false
is_set (some v) = not (v == 0)

unfoldable pub bootflag_set_post_rollback : Bool → Nvs → Nvs
unfolding write_u8 read_u8
bootflag_set_post_rollback on n = if holds (read_u8 n) (flag on) then n else write_u8 (flag on) n

unfoldable pub bootflag_is_post_rollback : Nvs → Bool
unfolding read_u8
bootflag_is_post_rollback n = is_set (read_u8 n)

-- Where NVS can be read and written, what is set is read back, whatever was stored before; setting
-- it once more writes nothing.
pub bootflag_roundtrip :
    (on : Bool) (n : Nvs)
    → n.readable ≡ true
    → n.writable ≡ true
    → let n' = bootflag_set_post_rollback on n in
      (bootflag_is_post_rollback n' ≡ on) × (bootflag_set_post_rollback on n' ≡ n')
unfolding bootflag_set_post_rollback bootflag_is_post_rollback
bootflag_roundtrip on n r w = ground arith
