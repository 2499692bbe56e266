-- ===== src/Errsrc/Sync.antt =====
-- The code and the text agree, whoever sets them.
use native.Mathlib.Decide.{dec_le}
use esp32_remot_control.Prelude.{
  ◌∙◌, sym, List, ◌∷◌, ◌≤◌, ◌<◌, ◌≡◌, ◌≢◌, refl, true, false, Option, some, [], ◌∷◌, take, take-all,
  length, length-take, Bytes, equal, equal_iff, Bool-cases, inl, inr, arith,
}
use esp32_remot_control.Errsrc.{
  ErrCode, es_none, Errsrc, errsrc_to_string, str_to_enum, find_code, s_tab, or_none, errsrc_set,
  errsrc_set_enum, errsrc_get, errsrc_get_code,
}

-- The code is that of the text, and the text fits its buffer.
pub record IsSynced (r : Errsrc) : Type 0 where
  pub agrees : r.s_last ≡ str_to_enum r.s_err
  pub short : length r.s_err ≤ 63

equal-length : (a b : Bytes) → length a ≢ length b → equal a b ≡ false
equal-length [] [] h = absurd (h refl)
equal-length [] (_ ∷ _) h = refl
equal-length (_ ∷ _) [] h = refl
equal-length (x ∷ a) (y ∷ b) h = ground (arith, equal-length a b)

equal_refl : (a : Bytes) → equal a a ≡ true
equal_refl a = (equal_iff a a).1 refl

str_to_enum_lem : (e : ErrCode) → str_to_enum (errsrc_to_string e) ≡ e
unfolding str_to_enum
str_to_enum_lem es_none = refl
str_to_enum_lem _ = refl

length-errsrc_to_string : (e : ErrCode) → length (errsrc_to_string e) ≤ 12
length-errsrc_to_string es_none = omega arith
length-errsrc_to_string _ = omega arith

find_code_long : (s : Bytes) (es : List ErrCode) → 12 < length s → find_code s es ≡ es_none
unfolding find_code
find_code_long s [] h = refl
find_code_long s (e ∷ es) h =
    let different =
      equal-length s (errsrc_to_string e) (omega (arith, length-errsrc_to_string e)) in
    rw different (find_code_long s es h)

str_to_enum_long : (s : Bytes) → 12 < length s → str_to_enum s ≡ es_none
unfolding str_to_enum
str_to_enum_long [] h = refl
str_to_enum_long (c ∷ s) h = find_code_long (c ∷ s) s_tab h

-- The text that is stored has the code of the text that was given, cut or not.
str_to_enum-take : (s : Bytes) → str_to_enum (take 63 s) ≡ str_to_enum s
str_to_enum-take s = elim (dec_le (length s) 63) [
  | yes fits ↦ rw (take-all 63 s fits)
  | no long ↦
      str_to_enum_long (take 63 s) (omega (arith, length-take 63 s))
      ∙ sym (str_to_enum_long s (omega arith))
]

-- Setting any text, null, empty or too long for the buffer, keeps code and text in agreement.
pub errsrc_set-IsSynced : (o : Option Bytes) (r : Errsrc) → IsSynced r → IsSynced (errsrc_set o r)
unfolding errsrc_set
errsrc_set-IsSynced o r i =
    let s = or_none o in
    elim (Bool-cases (equal (take 64 r.s_err) (take 64 s))) [
      | inl same ↦ rw same i
      | inr new ↦
          rw new
            (record { agrees = sym (str_to_enum-take s); short = omega (arith, length-take 63 s) })
    ]

equal-take :
    (a b : Bytes) → length a ≤ 63 → length b ≤ 63 → equal (take 64 a) (take 64 b) ≡ equal a b
equal-take a b ha hb = rw (take-all 64 a (omega arith), take-all 64 b (omega arith))

errsrc_to_string-or_none : (e : ErrCode) → or_none (some (errsrc_to_string e)) ≡ errsrc_to_string e
errsrc_to_string-or_none es_none = refl
errsrc_to_string-or_none _ = refl

-- After a code has been set, both views give it back, the code itself and its text, if the text
-- before fitted its buffer.
errsrc_set_enum_lem :
    (e : ErrCode) (r : Errsrc)
    → length r.s_err ≤ 63
    → (errsrc_get_code (errsrc_set_enum e r) ≡ e)
      × (errsrc_get (errsrc_set_enum e r) ≡ errsrc_to_string e)
unfolding errsrc_set_enum errsrc_set errsrc_get errsrc_get_code
errsrc_set_enum_lem e r h =
    let name = errsrc_to_string e in
    let len = length-errsrc_to_string e in
    let cut = equal-take r.s_err name h (omega arith) in
    rw (errsrc_to_string-or_none e) (elim (Bool-cases (equal r.s_err name)) [
      | inl same ↦ rw (cut, same) (refl, (equal_iff r.s_err name).0 same)
      | inr new ↦ rw (cut, new) (str_to_enum_lem e, take-all 63 name (omega arith))
    ])

-- A text that fits the buffer is reported once: setting it again changes nothing and notifies
-- nobody.
errsrc_set_idempotent :
    (o : Option Bytes) (r : Errsrc)
    → length (or_none o) ≤ 63
    → errsrc_set o (errsrc_set o r) ≡ errsrc_set o r
unfolding errsrc_set
errsrc_set_idempotent o r h =
    let s = or_none o in
    let kept = take-all 63 s h in
    let whole = take-all 64 s (omega arith) in
    elim (Bool-cases (equal (take 64 r.s_err) (take 64 s))) [
      | inl same ↦ rw (same, same)
      | inr new ↦ rw new (rw (kept, whole, equal_refl s))
    ]
