-- ===== src/Dht/Wire.antt =====
-- `wait_for_level` of components/dht/dht.c and the waits of a transaction. The wire is polled: what the
-- k-th poll finds on it, and what the clock then shows (in us), are given. The loops take fuel for their
-- polls; `none` means that it has run out.
pub mod Waits
pub mod Senses
use esp32_remot_control.Prelude.{
  ℕ, zero, suc, ◌+◌, ◌-◌, ◌≤◌, ◌%◌, Bool, true, false, Option, none, some, List, [], ◌∷◌, ltb, ◌==◌,
  u32, u32_mod, if◌then◌else◌,
}
use esp32_remot_control.Dht.{Transaction}

pub record Wire : Type 0 where
  pub level : ℕ → ℕ
  pub time : ℕ → ℕ

-- The level has been found at a poll, or the time was over at one.
pub data Waited : Type 0 where
  found timed_out : ℕ → Waited

-- `(uint32_t)(now_us() - start)`
abbrev pub elapsed : ℕ → ℕ → ℕ
elapsed start now = u32 (now - start)

-- The loop, from the poll k on.
unfoldable pub poll : ℕ → Wire → ℕ → ℕ → ℕ → ℕ → Option Waited
poll zero w wanted timeout_us start k = none
poll (suc fuel) w wanted timeout_us start k =
    let later = poll fuel w wanted timeout_us start (suc k) in
    if w.level k == wanted
    then some (found k)
    else if ltb timeout_us (elapsed start (w.time k))
    then some (timed_out k)
    else later

unfoldable pub wait_for_level : ℕ → Wire → ℕ → ℕ → ℕ → Option Waited
unfolding poll
wait_for_level fuel w wanted timeout_us k = poll fuel w wanted timeout_us (w.time k) k

-- The time-outs, in us.
abbrev pub initial_low_timeout_us : ℕ
initial_low_timeout_us = 2000

abbrev pub initial_high_timeout_us : ℕ
initial_high_timeout_us = 400

abbrev pub bit_low_wait_us : ℕ
bit_low_wait_us = 200

abbrev pub bit_rise_wait_us : ℕ
bit_rise_wait_us = 200

abbrev pub bit_high_end_us : ℕ
bit_high_end_us = 320

-- Go on behind a wait that has found its level; one that has not ends the transaction with `stop`.
abbrev pub then_wait {ℓ} : {A : Type ℓ} → Option Waited → A → (ℕ → Option A) → Option A
then_wait none stop go = none
then_wait (some (found k)) stop go = go k
then_wait (some (timed_out k)) stop go = some stop

-- In front of the bits that follow.
abbrev pub prepend : Option ℕ → Option (List (Option ℕ)) → Option (List (Option ℕ))
prepend b none = none
prepend b (some l) = some (b ∷ l)

-- n bits: of each its HIGH, in us; a time-out ends them.
unfoldable pub sense_bits : ℕ → Wire → ℕ → ℕ → Option (List (Option ℕ))
unfolding wait_for_level
sense_bits fuel w zero k = some []
sense_bits fuel w (suc n) k =
    then_wait (wait_for_level fuel w 0 bit_low_wait_us k) (none ∷ []) (λ k1.
      then_wait (wait_for_level fuel w 1 bit_rise_wait_us k1) (none ∷ []) (λ k2.
        then_wait (wait_for_level fuel w 0 bit_high_end_us k2) (none ∷ [])
          (λ k3. prepend (some (w.time k3 - w.time k2)) (sense_bits fuel w n k3))))

abbrev pub no_response : Transaction
no_response = record { responds = false; bits = [] }

abbrev pub responded : Option (List (Option ℕ)) → Option Transaction
responded none = none
responded (some l) = some (record { responds = true; bits = l })

-- A transaction behind the start pulse.
unfoldable pub sense : ℕ → Wire → ℕ → Option Transaction
unfolding sense_bits
sense fuel w k = then_wait (wait_for_level fuel w 0 initial_low_timeout_us k) no_response (λ k1.
    then_wait (wait_for_level fuel w 1 initial_high_timeout_us k1) no_response
      (λ k2. responded (sense_bits fuel w 40 k2)))
