-- ===== src/Ota/Crc.antt =====
-- The CRC-32 of components/ota/ota_session.c: ESP-IDF's `esp_crc32_le`, a parameter of the session
-- with the documented law that it can be fed in pieces, and the software routine of the source.
use esp32_remot_control.Prelude.{
  ℕ, zero, suc, ◌/◌, bit_and, bit_xor, ◌≡◌, refl, [], ◌∷◌, ◌++◌, Bytes, ◌==◌, if◌then◌else◌,
}

-- What the session relies on of the routine in use.
pub record CrcRoutine : Type 0 where
  pub update : ℕ → Bytes → ℕ
  pub update_nil : (c : ℕ) → update c [] ≡ c
  pub update-append : (c : ℕ) (a b : Bytes) → update (update c a) b ≡ update c (a ++ b)

-- One turn of the inner loop: `poly & -(crc & 1)` is `poly` or 0.
crc_bit : ℕ → ℕ
crc_bit c = bit_xor (c / 2) (if bit_and c 1 == 1 then 0xEDB88320 else 0)

crc_bits : ℕ → ℕ → ℕ
unfolding crc_bit
crc_bits zero c = c
crc_bits (suc n) c = crc_bits n (crc_bit c)

unfoldable pub crc32_update : ℕ → Bytes → ℕ
unfolding crc_bits
crc32_update c [] = c
crc32_update c (b ∷ d) = crc32_update (crc_bits 8 (bit_xor c b)) d

pub crc32_update-append :
    (c : ℕ) (a b : Bytes) → crc32_update (crc32_update c a) b ≡ crc32_update c (a ++ b)
unfolding crc32_update
crc32_update-append c [] b = refl
crc32_update-append c (x ∷ a) b = crc32_update-append (crc_bits 8 (bit_xor c x)) a b

pub crc32_update_nil : (c : ℕ) → crc32_update c [] ≡ c
unfolding crc32_update
crc32_update_nil c = refl

-- The software routine as the session's routine.
abbrev pub software_crc : CrcRoutine
software_crc = record {
  update = crc32_update;
  update_nil = crc32_update_nil;
  update-append = crc32_update-append;
}
