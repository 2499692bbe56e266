-- ===== src/Dht/Wire/Waits.antt =====
-- A wait ends, and with what it says.
use esp32_remot_control.Prelude.{
  ℕ, zero, suc, ◌+◌, ◌-◌, ◌*◌, ◌≤◌, ◌<◌, ◌≡◌, ◌≢◌, inl, inr, refl, ap, some, ltb, ◌==◌, u32,
  u32_mod, Bool-cases, arith,
}
use esp32_remot_control.Dht.Wire.{Wire, Waited, found, timed_out, poll, wait_for_level}

-- The clock never goes back, moves on by at least 1 us in `rate` polls, and by at most `gap` us from
-- one poll to the next.
pub record IsTicking (rate gap : ℕ) (w : Wire) : Type 0 where
  pub forward : (k : ℕ) → w.time k ≤ w.time (suc k)
  pub moves : (k : ℕ) → w.time k + 1 ≤ w.time (k + rate)
  pub steady : (k : ℕ) → w.time (suc k) ≤ w.time k + gap

-- What a wait from the poll k for a level says.
abbrev pub Says : Wire → ℕ → ℕ → ℕ → Waited → Type 0
Says w wanted timeout_us k (found i) = (k ≤ i) × (w.level i ≡ wanted)
Says w wanted timeout_us k (timed_out i) =
    (k ≤ i) × (w.time k + timeout_us < w.time i) × (w.level i ≢ wanted)

moves_on :
    (rate gap : ℕ) (w : Wire) (k n : ℕ)
    → IsTicking rate gap w
    → w.time k + n ≤ w.time (k + n * rate)
moves_on rate gap w k zero t = let e : k + 0 * rate ≡ k = grind arith in rw e (omega arith)
moves_on rate gap w k (suc n) t =
    let e : k + suc n * rate ≡ (k + n * rate) + rate = grind arith in
    rw e (omega (arith, moves_on rate gap w k n t, t.moves (k + n * rate)))

-- j polls after k, before the time is over.
polls :
    (rate gap : ℕ) (w : Wire) (wanted timeout_us k j fuel : ℕ)
    → IsTicking rate gap w
    → timeout_us + gap < u32_mod
    → suc timeout_us * rate < fuel + j
    → j ≤ suc timeout_us * rate
    → w.time k ≤ w.time (k + j)
    → w.time (k + j) ≤ w.time k + timeout_us + gap
    → (r : Waited) × (poll fuel w wanted timeout_us (w.time k) (k + j) ≡ some r)
      × Says w wanted timeout_us k r
unfolding poll
polls rate gap w wanted timeout_us k j zero t g f b lo hi = absurd (omega arith)
polls rate gap w wanted timeout_us k j (suc fuel) t g f b lo hi =
    elim (Bool-cases (w.level (k + j) == wanted)) [
      | inl y ↦ (found (k + j), rw y refl, (omega arith, ground arith))
      | inr n ↦ elim (Bool-cases (ltb timeout_us (u32 (w.time (k + j) - w.time k)))) [
        | inl y ↦ (timed_out (k + j), rw (n, y) refl, (omega arith, ground arith, ground arith))
        | inr m ↦
            let early : w.time (k + j) ≤ w.time k + timeout_us = ground arith in
            let apart : j ≢ suc timeout_us * rate = λ e.
              omega (
                arith,
                moves_on rate gap w k (suc timeout_us) t,
                ap (λ (i : ℕ). w.time (k + i)) e,
              ) in
            let e : k + suc j ≡ suc (k + j) = omega arith in
            rw (n, m)
              (rw e at (
                polls rate gap w wanted timeout_us k (suc j) fuel t g (omega arith)
                  (omega (arith, apart)) (rw e (omega (arith, t.forward (k + j))))
                  (rw e (omega (arith, t.steady (k + j))))))
      ]
    ]

-- On a wire whose clock ticks, with a time-out below what 32 bits count, a wait that may poll it
-- `rate` times for each us of its time-out and the one behind it, and once more, ends: it has found
-- the level, or the time is over and the level is another one still.
pub wait_for_level_ends :
    (rate gap : ℕ) (w : Wire) (wanted timeout_us k fuel : ℕ)
    → IsTicking rate gap w
    → timeout_us + gap < u32_mod
    → suc timeout_us * rate < fuel
    → (r : Waited) × (wait_for_level fuel w wanted timeout_us k ≡ some r)
      × Says w wanted timeout_us k r
unfolding wait_for_level
wait_for_level_ends rate gap w wanted timeout_us k fuel t g f =
    let e : k + 0 ≡ k = omega arith in
    rw e at (
      polls rate gap w wanted timeout_us k 0 fuel t g (omega arith) (omega arith)
        (rw e (omega arith)) (rw e (omega arith)))
