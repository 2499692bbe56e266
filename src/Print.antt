-- ===== src/Print.antt =====
-- The part of the C library's `printf` that the sources use for numbers of 32 bits.
pub mod Read
use esp32_remot_control.Prelude.{
  ℕ, zero, suc, ◌+◌, ◌/◌, ◌%◌, pred, ◌&&◌, leb, [], ◌∷◌, Bytes, ltb, if◌then◌else◌,
}

-- The last `fuel` digits of a number, or fewer if it has fewer, in front of a text.
unfoldable pub digits_before : ℕ → ℕ → Bytes → Bytes
digits_before zero n s = s
digits_before (suc fuel) n s =
    let s' = (48 + n % 10) ∷ s in
    let more = digits_before fuel (n / 10) s' in if ltb n 10 then s' else more

-- `%u`: a number of 32 bits has at most ten digits.
unfoldable pub print_u : ℕ → Bytes
unfolding digits_before
print_u n = digits_before 10 n []

-- A digit of base 16.
abbrev pub nibble : ℕ → ℕ
nibble v = if ltb v 10 then 48 + v else 87 + v

-- `%0<least>x`, of `fuel` digits at most.
unfoldable pub hex_before : ℕ → ℕ → ℕ → Bytes → Bytes
hex_before zero least n s = s
hex_before (suc fuel) least n s =
    let s' = nibble (n % 16) ∷ s in
    let more = hex_before fuel (pred least) (n / 16) s' in
    if ltb n 16 && leb least 1 then s' else more

-- `%06x`: a number of 32 bits has at most eight digits.
unfoldable pub print_06x : ℕ → Bytes
unfolding hex_before
print_06x n = hex_before 8 6 n []
