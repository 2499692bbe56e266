-- ===== src/Print/Read.antt =====
-- Printed numbers are read back.
use esp32_remot_control.Prelude.{
  ℕ, zero, suc, ◌+◌, ◌-◌, ◌*◌, ◌/◌, ◌%◌, ◌<◌, ◌≡◌, refl, ap, ◌∙◌, Bool, true, false, ◌&&◌, Option,
  none, some, [], ◌∷◌, ◌++◌, Bytes, leb, ltb, min, u32_mod, lt→ltb, Bool-cases, inl, inr, arith,
}
use esp32_remot_control.Scan.{digit, digits, number, saturated, unsigned, skip_spaces, scan_u}
use esp32_remot_control.Command.Auth.{is_nil}
use esp32_remot_control.Command.Renewal.{printable, IsWord}
use esp32_remot_control.Gatt.Words.{breaks}
use esp32_remot_control.Print.{digits_before, print_u}

abbrev pow10 : ℕ → ℕ
pow10 zero = 1
pow10 (suc k) = 10 * pow10 k

digit-code : (v : ℕ) → v < 10 → digit 10 (48 + v) ≡ some v
digit-code v h = ground arith

digits-step :
    (acc c v : ℕ) (s : Bytes)
    → digit 10 c ≡ some v
    → digits 10 acc (c ∷ s) ≡ digits 10 (acc * 10 + v) s
unfolding digits
digits-step acc c v s h = rw (digits, h) refl

digits-digit :
    (acc v : ℕ) (s : Bytes) → v < 10 → digits 10 acc ((48 + v) ∷ s) ≡ digits 10 (acc * 10 + v) s
digits-digit acc v s h = digits-step acc (48 + v) v s (digit-code v h)

digits_before-read :
    (fuel n : ℕ) (s : Bytes)
    → n < pow10 (suc fuel)
    → digits 10 0 (digits_before (suc fuel) n s) ≡ digits 10 n s
unfolding digits_before
digits_before-read zero n s h =
    let small : ltb n 10 ≡ true = lt→ltb n 10 (omega arith) in
    let e : 0 * 10 + n % 10 ≡ n = omega arith in
    rw small (digits-digit 0 (n % 10) s (omega arith) ∙ ap (λ k. digits 10 k s) e)
digits_before-read (suc fuel) n s h = elim (Bool-cases (ltb n 10)) [
  | inl y ↦
      let e : 0 * 10 + n % 10 ≡ n = ground arith in
      rw y (digits-digit 0 (n % 10) s (omega arith) ∙ ap (λ k. digits 10 k s) e)
  | inr y ↦
      let e : n / 10 * 10 + n % 10 ≡ n = omega arith in
      rw y (
        digits_before-read fuel (n / 10) ((48 + n % 10) ∷ s) (omega arith)
        ∙ digits-digit (n / 10) (n % 10) s (omega arith)
        ∙ ap (λ k. digits 10 k s) e)
]

digits-break : (n : ℕ) (r : Bytes) → breaks r ≡ true → digits 10 n r ≡ (n, r)
unfolding digits
digits-break n [] h = refl
digits-break n (c ∷ r) h = rw (digits, no_digit) refl
  where
    no_digit : digit 10 c ≡ none
    no_digit = ground arith

-- A digit is in front.
abbrev starts : Bytes → Bool
starts [] = false
starts (c ∷ s) = leb 48 c && leb c 57

digits_before-starts : (fuel n : ℕ) (s : Bytes) → starts (digits_before (suc fuel) n s) ≡ true
unfolding digits_before
digits_before-starts zero n s = ground arith
digits_before-starts (suc fuel) n s =
    let rest = digits_before-starts fuel (n / 10) ((48 + n % 10) ∷ s) in ground arith

digits_before-append :
    (fuel n : ℕ) (s r : Bytes) → digits_before fuel n s ++ r ≡ digits_before fuel n (s ++ r)
unfolding digits_before
digits_before-append zero n s r = refl
digits_before-append (suc fuel) n s r =
    let rest = digits_before-append fuel (n / 10) ((48 + n % 10) ∷ s) r in ground arith

printable-digits_before :
    (fuel n : ℕ) (s : Bytes) → printable s ≡ true → printable (digits_before fuel n s) ≡ true
unfolding digits_before
printable-digits_before zero n s h = h
printable-digits_before (suc fuel) n s h =
    let rest = printable-digits_before fuel (n / 10) ((48 + n % 10) ∷ s) (ground arith) in
    ground arith

number-read :
    (c v n : ℕ) (s r : Bytes)
    → digit 10 c ≡ some v
    → digits 10 0 (c ∷ s) ≡ (n, r)
    → number 10 (c ∷ s) ≡ some (n, r)
unfolding number
number-read c v n s r d e = rw (number, d) (ap (λ (p : ℕ × Bytes). some p) e)

saturated_lem : (n : ℕ) (r : Bytes) → n < u32_mod → saturated (some (n, r)) ≡ some (n, r)
saturated_lem n r l =
    let fits : min n (u32_mod - 1) ≡ n = omega arith in ap (λ (k : ℕ). some (k, r)) fits

unsigned-plain :
    (read : Bytes → Option (ℕ × Bytes)) (c : ℕ) (s : Bytes)
    → leb 48 c ≡ true
    → unsigned read (c ∷ s) ≡ saturated (read (c ∷ s))
unfolding unsigned
unsigned-plain read c s h = ground arith

skip_spaces-plain : (c : ℕ) (s : Bytes) → leb 48 c ≡ true → skip_spaces (c ∷ s) ≡ c ∷ s
skip_spaces-plain c s h = ground arith

scan_u-starts :
    (n : ℕ) (s r : Bytes)
    → starts s ≡ true
    → digits 10 0 s ≡ (n, r)
    → n < u32_mod
    → scan_u s ≡ some (n, r)
unfolding scan_u
scan_u-starts n [] r h e l = absurd cc
scan_u-starts n (c ∷ s) r h e l =
    let digit_first : leb 48 c ≡ true = ground arith in
    let v : digit 10 c ≡ some (c - 48) = ground arith in
    ap (unsigned (number 10)) (skip_spaces-plain c s digit_first)
    ∙ unsigned-plain (number 10) c s digit_first
    ∙ ap saturated (number-read c (c - 48) n s r v e)
    ∙ saturated_lem n r l

-- `%u` reads what `%u` has printed.
pub scan_u-print_u :
    (n : ℕ) (r : Bytes) → n < u32_mod → breaks r ≡ true → scan_u (print_u n ++ r) ≡ some (n, r)
unfolding print_u
scan_u-print_u n r l b =
    ap scan_u (digits_before-append 10 n [] r)
    ∙ scan_u-starts n (digits_before 10 n r) r (digits_before-starts 9 n r)
        (digits_before-read 9 n r (omega arith) ∙ digits-break n r b) l

pub print_u-IsWord : (n : ℕ) → IsWord (print_u n)
unfolding print_u
print_u-IsWord n = record {
  nonempty = starts-nonempty (digits_before 10 n []) (digits_before-starts 9 n []);
  all_printable = printable-digits_before 10 n [] refl;
}
  where
    starts-nonempty : (s : Bytes) → starts s ≡ true → is_nil s ≡ false
    starts-nonempty [] h = absurd cc
    starts-nonempty (c ∷ s) h = refl
