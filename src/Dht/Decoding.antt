-- ===== src/Dht/Decoding.antt =====
-- What is read from the sensor is what it sent, and it is in the sensor's range.
use esp32_remot_control.Prelude.{
  ℕ, zero, suc, ◌+◌, ◌*◌, ◌/◌, ◌%◌, ◌≤◌, ◌<◌, ◌≡◌, refl, ap, ◌∙◌, Bool, true, not, ◌&&◌, ◌||◌,
  Option, none, some, List, [], ◌∷◌, ltb, ◌==◌, if◌then◌else◌, Bool-cases, inl, inr, arith,
}
use esp32_remot_control.Dht.{
  Transaction, read_bits, after_byte, read_bytes, keep_if_sums_up, dht_read_raw_bytes, Sample,
  sample_of, or_no_sample, first_read, dht_hw_read, Dht, dht_sampler_round,
}

-- The pulse of a bit, as the datasheet has it: 28 us for 0 and 70 us for 1.
abbrev pub pulse : ℕ → Option ℕ
pulse bit = if bit == 0 then some 28 else some 70

-- The pulses of a byte, most significant bit first, in front of others.
abbrev pub pulses : ℕ → List (Option ℕ) → List (Option ℕ)
pulses b l =
    pulse (b / 128 % 2)
    ∷ pulse (b / 64 % 2)
    ∷ pulse (b / 32 % 2)
    ∷ pulse (b / 16 % 2)
    ∷ pulse (b / 8 % 2)
    ∷ pulse (b / 4 % 2)
    ∷ pulse (b / 2 % 2)
    ∷ pulse (b % 2)
    ∷ l

-- A pulse behind the bits of `acc` gives those of `acc'`.
read_pulse :
    (n acc acc' bit : ℕ) (l : List (Option ℕ))
    → bit < 2
    → acc < 128
    → acc' ≡ acc * 2 + bit
    → read_bits (suc n) acc (pulse bit ∷ l) ≡ read_bits n acc' l
unfolding read_bits
read_pulse n acc acc' bit l h k e = elim (Bool-cases (bit == 0)) [
  | inl y ↦ rw y (ap (λ a. read_bits n a l) (ground (arith, e)))
  | inr m ↦ rw m (ap (λ a. read_bits n a l) (ground (arith, e)))
]

read_bits-pulses :
    (b : ℕ) (l : List (Option ℕ)) → b < 256 → read_bits 8 0 (pulses b l) ≡ some (b, l)
unfolding read_bits
read_bits-pulses b l h =
    read_pulse 7 0 (b / 128) (b / 128 % 2) _ (omega arith) (omega arith) (omega arith)
    ∙ read_pulse 6 (b / 128) (b / 64) (b / 64 % 2) _ (omega arith) (omega arith) (omega arith)
    ∙ read_pulse 5 (b / 64) (b / 32) (b / 32 % 2) _ (omega arith) (omega arith) (omega arith)
    ∙ read_pulse 4 (b / 32) (b / 16) (b / 16 % 2) _ (omega arith) (omega arith) (omega arith)
    ∙ read_pulse 3 (b / 16) (b / 8) (b / 8 % 2) _ (omega arith) (omega arith) (omega arith)
    ∙ read_pulse 2 (b / 8) (b / 4) (b / 4 % 2) _ (omega arith) (omega arith) (omega arith)
    ∙ read_pulse 1 (b / 4) (b / 2) (b / 2 % 2) _ (omega arith) (omega arith) (omega arith)
    ∙ read_pulse 0 (b / 2) b (b % 2) _ (omega arith) (omega arith) (omega arith)

read_bytes-pulses :
    (n b : ℕ) (l : List (Option ℕ)) (bs : List ℕ)
    → b < 256
    → read_bytes n l ≡ some bs
    → read_bytes (suc n) (pulses b l) ≡ some (b ∷ bs)
unfolding read_bytes after_byte
read_bytes-pulses n b l bs h e =
    ap (λ o. after_byte o (read_bytes n)) (read_bits-pulses b l h)
    ∙ ap (λ o. elim o [ none ↦ none | some v ↦ some (b ∷ v) ]) e

-- Five bytes that a sensor sends, the last one the checksum of the others, are read as they are; with
-- another checksum nothing is read.
pub dht_read_raw_bytes_lem :
    (a b c d e : ℕ)
    → a < 256
    → b < 256
    → c < 256
    → d < 256
    → e < 256
    → dht_read_raw_bytes
        (record { responds = true; bits = pulses a (pulses b (pulses c (pulses d (pulses e [])))) })
      ≡ (if (a + b + c + d) % 256 == e then some (a ∷ b ∷ c ∷ d ∷ e ∷ []) else none)
unfolding dht_read_raw_bytes keep_if_sums_up
dht_read_raw_bytes_lem a b c d e ha hb hc hd he =
    let read = read_bytes-pulses 4 a _ _ ha (
      read_bytes-pulses 3 b _ _ hb (
        read_bytes-pulses 2 c _ _ hc
          (read_bytes-pulses 1 d _ _ hd (read_bytes-pulses 0 e [] [] he refl)))) in
    ap keep_if_sums_up read

-- A sample within the range of the sensor.
abbrev pub in_range : Sample → Bool
in_range s = not (ltb 50 s.temp_c) && (s.rh == 0 || not (ltb s.rh 20) && not (ltb 90 s.rh))

sample_of-in_range : (raw : List ℕ) → in_range (sample_of raw) ≡ true
sample_of-in_range [] = refl
sample_of-in_range (a ∷ []) = refl
sample_of-in_range (a ∷ b ∷ []) = refl
sample_of-in_range (a ∷ b ∷ c ∷ rest) = ground arith

first_read-in_range :
    (o : Option (List ℕ)) (rest : Option Sample)
    → in_range (or_no_sample rest) ≡ true
    → in_range (or_no_sample (first_read o rest)) ≡ true
first_read-in_range none rest h = h
first_read-in_range (some raw) rest h = sample_of-in_range raw

hw_read-in_range :
    (n : ℕ) (ts : List Transaction) → in_range (or_no_sample (dht_hw_read n ts)) ≡ true
unfolding dht_hw_read
hw_read-in_range zero ts = refl
hw_read-in_range (suc n) [] = refl
hw_read-in_range (suc n) (t ∷ ts) =
    first_read-in_range (dht_read_raw_bytes t) (dht_hw_read n ts) (hw_read-in_range n ts)

-- Whatever the sensor does, a round of the sampler keeps a sample in its range (at most 50 degrees; a
-- humidity of 20 to 90 percent, or 0), and waits at least two seconds, or the period if that is longer.
dht_sampler_round_lem :
    (ts : List Transaction) (now : ℕ) (d : Dht)
    → let (d', ms) = dht_sampler_round ts now d in
      (in_range d'.last ≡ true) × (2000 ≤ ms) × (d.period_ms ≤ ms)
unfolding dht_sampler_round
dht_sampler_round_lem ts now d = (hw_read-in_range 3 ts, ground arith, ground arith)
