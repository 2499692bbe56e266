-- ===== src/Scan.antt =====
-- The parts of the C library's `sscanf`, `strncpy` and `strncmp` that the sources use. A result
-- that does not fit saturates, as newlib's `strtoul` does, and a minus sign negates one that does.
use esp32_remot_control.Prelude.{
  ℕ, zero, suc, ◌+◌, ◌-◌, ◌*◌, ◌%◌, Bool, true, false, ◌&&◌, ◌||◌, Option, none, some, [], ◌∷◌, min,
  Bytes, is_space, leb, ltb, ◌==◌, if◌then◌else◌, u32_mod,
}

abbrev pub skip_spaces : Bytes → Bytes
skip_spaces [] = []
skip_spaces (c ∷ s) = let rest = skip_spaces s in if is_space c then rest else c ∷ s

-- The value of a digit in a base up to 16.
abbrev pub digit : ℕ → ℕ → Option ℕ
digit base c =
    let v =
      if leb b'0' c && leb c b'9'
      then c - 48
      else if leb b'a' c && leb c b'f'
      then c - 87
      else if leb b'A' c && leb c b'F'
      then c - 55
      else 16 in
    if ltb v base then some v else none

-- The digits at the head of a text: the value they have behind `acc`, and what follows them.
unfoldable pub digits : ℕ → ℕ → Bytes → ℕ × Bytes
digits base acc [] = (acc, [])
digits base acc (c ∷ s) = elim (digit base c) [
  | none ↦ (acc, c ∷ s)
  | some v ↦ digits base (acc * base + v) s
]

-- A number without sign, whatever its size.
unfoldable pub number : ℕ → Bytes → Option (ℕ × Bytes)
unfolding digits
number base [] = none
number base (c ∷ s) = elim (digit base c) [ none ↦ none | some v ↦ some (digits base 0 (c ∷ s)) ]

-- "0x" is skipped where a digit follows it.
skip_prefix : Bytes → Bytes
skip_prefix (z ∷ x ∷ c ∷ s) =
    if z == b'0' && (x == b'x' || x == b'X') && is_digit (digit 16 c) then c ∷ s else z ∷ x ∷ c ∷ s
  where
    is_digit : Option ℕ → Bool
    is_digit none = false
    is_digit (some _) = true
skip_prefix s = s

-- `strtoul`, kept to 32 bits: a number that is too large is ULONG_MAX, with a minus sign too.
abbrev pub saturated : Option (ℕ × Bytes) → Option (ℕ × Bytes)
saturated none = none
saturated (some (n, rest)) = some (min n (u32_mod - 1), rest)

abbrev pub negated : Option (ℕ × Bytes) → Option (ℕ × Bytes)
negated none = none
negated (some (n, rest)) =
    some (if ltb n u32_mod then (u32_mod - n) % u32_mod else u32_mod - 1, rest)

unfoldable pub unsigned : (Bytes → Option (ℕ × Bytes)) → Bytes → Option (ℕ × Bytes)
unsigned read [] = none
unsigned read (c ∷ s) =
    if c == b'-'
    then negated (read s)
    else if c == b'+'
    then saturated (read s)
    else saturated (read (c ∷ s))

-- `%u`
unfoldable pub scan_u : Bytes → Option (ℕ × Bytes)
unfolding number unsigned
scan_u s = unsigned (number 10) (skip_spaces s)

-- `%x`
unfoldable pub scan_x : Bytes → Option (ℕ × Bytes)
unfolding number unsigned skip_prefix
scan_x s = unsigned (λ t. number 16 (skip_prefix t)) (skip_spaces s)

-- `sscanf(s, "%u %x", &a, &b) == 2`, with what it has stored.
unfoldable pub scan_ux : Bytes → Option (ℕ × ℕ)
unfolding scan_u scan_x
scan_ux s = elim (scan_u s) [
  | none ↦ none
  | some (a, rest) ↦ elim (scan_x rest) [ none ↦ none | some (b, _) ↦ some (a, b) ]
]

-- The bytes of a word, up to `width`, and what follows them.
abbrev pub word : ℕ → Bytes → Bytes × Bytes
word zero s = ([], s)
word (suc n) [] = ([], [])
word (suc n) (c ∷ s) = let (w, rest) = word n s in if is_space c then ([], c ∷ s) else (c ∷ w, rest)

-- `%<width>s`: an empty word is no match.
unfoldable pub scan_s : ℕ → Bytes → Option (Bytes × Bytes)
scan_s width s = keep (word width (skip_spaces s))
  where
    keep : Bytes × Bytes → Option (Bytes × Bytes)
    keep ([], rest) = none
    keep (c ∷ w, rest) = some (c ∷ w, rest)

-- Two words, where they have been read.
abbrev pub pair : Bytes → Option (Bytes × Bytes) → Option (Bytes × Bytes)
pair a none = none
pair a (some (b, _)) = some (a, b)

unfoldable pub second : ℕ → Option (Bytes × Bytes) → Option (Bytes × Bytes)
unfolding scan_s
second n none = none
second n (some (a, rest)) = pair a (scan_s n rest)

-- `sscanf(s, "%<m>s %<n>s", a, b) == 2`
unfoldable pub scan_ss : ℕ → ℕ → Bytes → Option (Bytes × Bytes)
unfolding scan_s second
scan_ss m n s = second n (scan_s m s)

-- `strncmp(s, prefix, strlen(prefix)) == 0`
unfoldable pub has_prefix : Bytes → Bytes → Bool
has_prefix [] s = true
has_prefix (p ∷ ps) [] = false
has_prefix (p ∷ ps) (c ∷ s) = p == c && has_prefix ps s
