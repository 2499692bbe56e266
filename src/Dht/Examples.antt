-- ===== src/Dht/Examples.antt =====
-- Tests and instances of the theorems on the sensor.
use esp32_remot_control.Prelude.{◌≤◌, ◌≡◌, refl, length, true, false, some, [], ◌∷◌, arith}
use esp32_remot_control.Dht.Wire.{Wire, sense}
use esp32_remot_control.Dht.Wire.Waits.{IsTicking}
use esp32_remot_control.Dht.Wire.Senses.{sense_ends}
use esp32_remot_control.Dht.{Transaction, Dht, no_sample, dht_read_raw_bytes}
use esp32_remot_control.Dht.Decoding.{pulses, dht_read_raw_bytes_lem}

dht_read_raw_bytes_lem_example :
    dht_read_raw_bytes (record {
      responds = true;
      bits = pulses 45 (pulses 0 (pulses 23 (pulses 4 (pulses 72 []))));
    })
    ≡ some (45 ∷ 0 ∷ 23 ∷ 4 ∷ 72 ∷ [])
dht_read_raw_bytes_lem_example =
    dht_read_raw_bytes_lem 45 0 23 4 72 (omega arith) (omega arith) (omega arith) (omega arith)
      (omega arith)

abbrev streaming : Dht
streaming = record {
  inited = true;
  def_period_ms = 2000;
  stream_on = true;
  period_ms = 2500;
  last_tick = 0;
  last = no_sample;
  task = true;
  woken = false;
}

-- A wire that stays high, polled once in each us.
abbrev silent : Wire
silent = record { level = λ k. 1; time = λ k. k }

silent-IsTicking : IsTicking 1 1 silent
silent-IsTicking = record {
  forward = λ k. omega arith;
  moves = λ k. omega arith;
  steady = λ k. omega arith;
}

silent_lem : sense 2002 silent 0 ≡ some (record { responds = false; bits = [] })
unfolding sense
silent_lem = refl

sense_ends_example : (t : Transaction) × (sense 2002 silent 7 ≡ some t) × (length t.bits ≤ 40)
sense_ends_example = sense_ends 1 1 silent 2002 silent-IsTicking (omega arith) (omega arith) 7
