-- ===== src/Framing/Lines.antt =====
-- The command lines of a byte stream, said without a buffer.
use esp32_remot_control.Prelude.{
  ℕ, ◌≤◌, ◌≡◌, ap, sym, ◌∙◌, List, [], ◌∷◌, ◌++◌, append-nil, append_assoc, ltb, ◌==◌,
  if◌then◌else◌, Bytes, length, take, take-all, length-append, take-append_le, Bool-cases, inl, inr,
  arith,
}
use esp32_remot_control.Framing.{store_byte, copy_chunk}

-- A text without its '\r'.
abbrev pub without_cr : Bytes → Bytes
without_cr [] = []
without_cr (c ∷ s) = let rest = without_cr s in if c == b'\r' then rest else c ∷ rest

abbrev pub cons_byte : ℕ → List Bytes × Bytes → List Bytes × Bytes
cons_byte c ([], last) = if c == b'\n' then ([] ∷ [], last) else ([], c ∷ last)
cons_byte c (seg ∷ segs, last) =
    if c == b'\n' then ([] ∷ seg ∷ segs, last) else ((c ∷ seg) ∷ segs, last)

-- What stands between the newlines, and what stands behind the last one.
abbrev pub segments : Bytes → List Bytes × Bytes
segments [] = ([], [])
segments (c ∷ s) = cons_byte c (segments s)

-- The line of a segment: no '\r', at most 127 bytes.
abbrev pub clean : Bytes → Bytes
clean seg = take 127 (without_cr seg)

length-store_byte : (c : ℕ) (line : Bytes) → length line ≤ 127 → length (store_byte c line) ≤ 127
length-store_byte c line h = ground (arith, length-append line (c ∷ []))

take-store :
    (line s : Bytes) (c : ℕ)
    → length line ≤ 127
    → take 127 (store_byte c line ++ s) ≡ take 127 (line ++ c ∷ s)
take-store line s c h = elim (Bool-cases (ltb (length line) 127)) [
  | inl y ↦ rw y (ap (λ l. take 127 l) (append_assoc line (c ∷ []) s))
  | inr n ↦
      let full : 127 ≤ length line = ground arith in
      rw n (take-append_le 127 line s full ∙ sym (take-append_le 127 line (c ∷ s) full))
]

-- Copying a chunk behind a line.
pub copy_chunk_lem :
    (line s : Bytes) → length line ≤ 127 → copy_chunk line s ≡ take 127 (line ++ without_cr s)
unfolding copy_chunk
copy_chunk_lem line [] h = rw (append-nil line) (sym (take-all 127 line h))
copy_chunk_lem line (c ∷ s) h = elim (Bool-cases (c == b'\r')) [
  | inl y ↦ rw y (copy_chunk_lem line s h)
  | inr n ↦ rw n (
      copy_chunk_lem (store_byte c line) s (length-store_byte c line h)
      ∙ take-store line (without_cr s) c h)
]
