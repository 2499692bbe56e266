-- ===== src/Dht/Wire/Senses.antt =====
-- A whole transaction ends.
use esp32_remot_control.Prelude.{
  ℕ, zero, suc, ◌+◌, ◌-◌, ◌*◌, ◌≤◌, ◌<◌, ◌≡◌, refl, ap, Option, none, some, List, [], ◌∷◌, length,
  true, u32_mod, arith,
}
use esp32_remot_control.Dht.{Transaction}
use esp32_remot_control.Dht.Wire.{
  Wire, Waited, found, timed_out, wait_for_level, then_wait, prepend, responded, no_response,
  sense_bits, sense, bit_low_wait_us, bit_rise_wait_us, bit_high_end_us, initial_low_timeout_us,
  initial_high_timeout_us,
}
use esp32_remot_control.Dht.Wire.Waits.{IsTicking, wait_for_level_ends}

-- A result of which P holds.
abbrev Ends {ℓ} : {A : Type ℓ} → (A → Type 0) → Option A → Type ℓ
Ends {A = A} P o = (a : A) × (o ≡ some a) × P a

wait_then {ℓ} :
    {A : Type ℓ} (P : A → Type 0) (o : Option Waited) (r : Waited) (stop : A) (go : ℕ → Option A)
    → o ≡ some r
    → P stop
    → ((k : ℕ) → Ends P (go k))
    → Ends P (then_wait o stop go)
wait_then P o (found k) stop go e p h = rw e (h k)
wait_then P o (timed_out k) stop go e p h = rw e (stop, refl, p)

abbrev AtMost : ℕ → List (Option ℕ) → Type 0
AtMost n l = length l ≤ n

prepended :
    (b : Option ℕ) (n : ℕ) (o : Option (List (Option ℕ)))
    → Ends (AtMost n) o
    → Ends (AtMost (suc n)) (prepend b o)
prepended b n o (l, e, h) = (b ∷ l, ap (prepend b) e, omega arith)

module _ (rate gap : ℕ) (w : Wire) (fuel : ℕ) (ticks : IsTicking rate gap w)
    (short : initial_low_timeout_us + gap < u32_mod)
    (enough : suc initial_low_timeout_us * rate < fuel) where
  waits :
      (wanted timeout_us k : ℕ)
      → timeout_us ≤ initial_low_timeout_us
      → (r : Waited) × (wait_for_level fuel w wanted timeout_us k ≡ some r)
  waits wanted timeout_us k h =
      let more : suc timeout_us * rate ≤ suc initial_low_timeout_us * rate = grind arith in
      let (r, e, s) =
        wait_for_level_ends rate gap w wanted timeout_us k fuel ticks (omega arith) (omega arith) in
      (r, e)

  sense_bits_end : (n k : ℕ) → Ends (AtMost n) (sense_bits fuel w n k)
  unfolding sense_bits
  sense_bits_end zero k = ([], refl, omega arith)
  sense_bits_end (suc n) k =
      let (r1, e1) = waits 0 bit_low_wait_us k (omega arith) in
      wait_then (AtMost (suc n)) _ r1 (none ∷ []) _ e1 (omega arith) (λ k1.
        let (r2, e2) = waits 1 bit_rise_wait_us k1 (omega arith) in
        wait_then (AtMost (suc n)) _ r2 (none ∷ []) _ e2 (omega arith) (λ k2.
          let (r3, e3) = waits 0 bit_high_end_us k2 (omega arith) in
          wait_then (AtMost (suc n)) _ r3 (none ∷ []) _ e3 (omega arith) (λ k3.
            prepended (some (w.time k3 - w.time k2)) n (sense_bits fuel w n k3)
              (sense_bits_end n k3))))

  answered :
      (o : Option (List (Option ℕ)))
      → Ends (AtMost 40) o
      → Ends (λ (t : Transaction). length t.bits ≤ 40) (responded o)
  answered o (l, e, h) = (record { responds = true; bits = l }, ap responded e, h)

  -- On a wire whose clock ticks, a transaction whose waits may each poll it `rate` times for each us
  -- of the longest time-out and the one behind it, and once more, ends, whatever is on the wire, with
  -- at most 40 bits.
  pub sense_ends : (k : ℕ) → (t : Transaction) × (sense fuel w k ≡ some t) × (length t.bits ≤ 40)
  unfolding sense
  sense_ends k =
      let (r1, e1) = waits 0 initial_low_timeout_us k (omega arith) in
      let P : Transaction → Type 0 = λ t. length t.bits ≤ 40 in
      wait_then P _ r1 no_response _ e1 (omega arith) (λ k1.
        let (r2, e2) = waits 1 initial_high_timeout_us k1 (omega arith) in
        wait_then P _ r2 no_response _ e2 (omega arith)
          (λ k2. answered (sense_bits fuel w 40 k2) (sense_bits_end 40 k2)))
