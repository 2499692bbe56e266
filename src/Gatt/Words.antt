-- ===== src/Gatt/Words.antt =====
-- Reading back texts that are made of words.
use esp32_remot_control.Prelude.{
  ℕ, zero, suc, ◌≤◌, ◌≡◌, refl, ap, sym, ◌∙◌, Bool, true, false, ◌&&◌, none, some, [], ◌∷◌, ◌++◌,
  append-nil, not, Bytes, c_str, is_space, length, ◌==◌, arith,
}
use esp32_remot_control.Scan.{pair, second, skip_spaces, word, scan_s, scan_ss}
use esp32_remot_control.Framing.{split_at_nl}
use esp32_remot_control.Framing.Lines.{segments, without_cr}
use esp32_remot_control.Command.Dispatch.{lskip}
use esp32_remot_control.Command.Renewal.{IsWord, printable}

-- A word ends here.
abbrev pub breaks : Bytes → Bool
breaks [] = true
breaks (c ∷ s) = is_space c

word-append :
    (n : ℕ) (w r : Bytes)
    → printable w ≡ true
    → length w ≤ n
    → breaks r ≡ true
    → word n (w ++ r) ≡ (w, r)
word-append zero [] r p h b = refl
word-append (suc n) [] [] p h b = refl
word-append (suc n) [] (c ∷ r) p h b = ground arith
word-append zero (c ∷ w) r p h b = absurd (omega arith)
word-append (suc n) (c ∷ w) r p h b =
    let rest = word-append n w r (ground arith) (omega arith) b in
    let inside : is_space c ≡ false = ground arith in rw (rest, inside) refl

skip_spaces-word : (w r : Bytes) → IsWord w → skip_spaces (w ++ r) ≡ w ++ r
skip_spaces-word [] r i = absurd (ground arith)
skip_spaces-word (c ∷ w) r i =
    let p = i.all_printable in let inside : is_space c ≡ false = ground arith in rw inside refl

-- `%<n>s` reads a word of at most n bytes.
pub scan_s-word :
    (n : ℕ) (w r : Bytes)
    → IsWord w
    → length w ≤ n
    → breaks r ≡ true
    → scan_s n (w ++ r) ≡ some (w, r)
unfolding scan_s
scan_s-word n [] r i h b = absurd (ground arith)
scan_s-word n (c ∷ w) r i h b =
    rw (skip_spaces-word (c ∷ w) r i, word-append n (c ∷ w) r i.all_printable h b) refl

-- A space before it changes nothing.
pub scan_s-space :
    (n : ℕ) (w r : Bytes)
    → IsWord w
    → length w ≤ n
    → breaks r ≡ true
    → scan_s n (b' ' ∷ (w ++ r)) ≡ some (w, r)
unfolding scan_s
scan_s-space n w r i h b = scan_s-word n w r i h b

-- `%<m>s %<n>s` reads two words with a space between them.
pub scan_ss-words :
    (m n : ℕ) (v w r : Bytes)
    → IsWord v
    → IsWord w
    → length v ≤ m
    → length w ≤ n
    → breaks r ≡ true
    → scan_ss m n (v ++ (b' ' ∷ (w ++ r))) ≡ some (v, w)
unfolding scan_ss second
scan_ss-words m n v w r i j h k b =
    ap (second n) (scan_s-word m v (b' ' ∷ (w ++ r)) i h refl)
    ∙ ap (pair v) (scan_s-space n w r j k b)

-- One word is not two.
pub scan_ss-word : (m n : ℕ) (v : Bytes) → IsWord v → length v ≤ m → scan_ss m (suc n) v ≡ none
unfolding scan_ss second scan_s
scan_ss-word m n v i h =
    ap (scan_ss m (suc n)) (sym (append-nil v)) ∙ ap (second (suc n)) (scan_s-word m v [] i h refl)

-- No end of a line, and no NUL.
abbrev pub one_line : Bytes → Bool
one_line [] = true
one_line (c ∷ s) = not (c == b'\n') && not (c == b'\r') && not (c == 0) && one_line s

pub one_line-append :
    (a b : Bytes) → one_line a ≡ true → one_line b ≡ true → one_line (a ++ b) ≡ true
one_line-append [] b h k = k
one_line-append (c ∷ a) b h k = ground (arith, one_line-append a b)

pub one_line-word : (w : Bytes) → printable w ≡ true → one_line w ≡ true
one_line-word [] p = refl
one_line-word (c ∷ w) p = ground (arith, one_line-word w)

-- A line with its newline is one segment.
pub segments-line : (l : Bytes) → one_line l ≡ true → segments (l ++ b'\n' ∷ []) ≡ (l ∷ [], [])
segments-line [] h = refl
segments-line (c ∷ l) h =
    let rest = segments-line l (ground arith) in
    let inside : (c == b'\n') ≡ false = ground arith in rw (rest, inside) refl

pub without_cr-line : (l : Bytes) → one_line l ≡ true → without_cr l ≡ l
without_cr-line [] h = refl
without_cr-line (c ∷ l) h =
    let rest = without_cr-line l (ground arith) in
    let inside : (c == b'\r') ≡ false = ground arith in rw (rest, inside) refl

pub c_str-line : (l : Bytes) → one_line l ≡ true → c_str l ≡ l
c_str-line [] h = refl
c_str-line (c ∷ l) h = ground (arith, c_str-line l)

pub lskip-word : (w r : Bytes) → IsWord w → lskip (w ++ r) ≡ w ++ r
lskip-word [] r i = absurd (ground arith)
lskip-word (c ∷ w) r i = let p = i.all_printable in ground arith

pub split_at_nl-line :
    (l r : Bytes) → one_line l ≡ true → split_at_nl (l ++ b'\n' ∷ r) ≡ (l, some r)
split_at_nl-line [] r h = refl
split_at_nl-line (c ∷ l) r h =
    let rest = split_at_nl-line l r (ground arith) in
    let inside : (c == b'\n') ≡ false = ground arith in rw (rest, inside) refl

pub split_at_nl-none : (l : Bytes) → one_line l ≡ true → split_at_nl l ≡ (l, none)
split_at_nl-none [] h = refl
split_at_nl-none (c ∷ l) h =
    let rest = split_at_nl-none l (ground arith) in
    let inside : (c == b'\n') ≡ false = ground arith in rw (rest, inside) refl
