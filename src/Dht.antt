-- ===== src/Dht.antt =====
-- components/dht: one transaction with the sensor, the sampler, and its settings. A transaction is given
-- by what the waits find: the response, and for each bit the microseconds of its HIGH, or a timeout. The
-- temperatures and humidities of the source are floats with whole values.
pub mod Decoding
pub mod Wire
mod Examples
use esp32_remot_control.Prelude.{
  ℕ, zero, suc, ◌+◌, ◌-◌, ◌*◌, ◌/◌, ◌%◌, Bool, true, false, not, ◌&&◌, ◌||◌, Option, none, some,
  List, [], ◌∷◌, ltb, ◌==◌, u8, u32, u32_mod, if◌then◌else◌,
}
use esp32_remot_control.Esp.{EspErr, esp_ok, esp_fail, invalid_state}

-- What the waits of a transaction find.
pub record Transaction : Type 0 where
  pub responds : Bool
  pub bits : List (Option ℕ)

abbrev pub one_threshold_us : ℕ
one_threshold_us = 50

-- `out[byte] <<= 1; if (high_us > DHT_ONE_THRESHOLD_US) out[byte] |= 1;`
abbrev pub shift_in : ℕ → ℕ → ℕ
shift_in acc high_us = u8 (acc * 2) + (if ltb one_threshold_us high_us then 1 else 0)

-- n bits into a byte that has begun: the byte, and the bits that are left. A timeout ends it.
unfoldable pub read_bits : ℕ → ℕ → List (Option ℕ) → Option (ℕ × List (Option ℕ))
read_bits zero acc l = some (acc, l)
read_bits (suc n) acc [] = none
read_bits (suc n) acc (none ∷ l) = none
read_bits (suc n) acc (some high_us ∷ l) = read_bits n (shift_in acc high_us) l

-- n bytes; the first one first.
after_byte : Option (ℕ × List (Option ℕ)) → (List (Option ℕ) → Option (List ℕ)) → Option (List ℕ)
after_byte none k = none
after_byte (some (b, l)) k = elim (k l) [ none ↦ none | some bs ↦ some (b ∷ bs) ]

unfoldable pub read_bytes : ℕ → List (Option ℕ) → Option (List ℕ)
unfolding read_bits after_byte
read_bytes zero l = some []
read_bytes (suc n) l = after_byte (read_bits 8 0 l) (read_bytes n)

-- The checksum of five bytes.
abbrev pub sums_up : List ℕ → Bool
sums_up (a ∷ b ∷ c ∷ d ∷ e ∷ []) = u8 (a + b + c + d) == e
sums_up _ = false

keep_if_sums_up : Option (List ℕ) → Option (List ℕ)
keep_if_sums_up none = none
keep_if_sums_up (some bs) = if sums_up bs then some bs else none

unfoldable pub dht_read_raw_bytes : Transaction → Option (List ℕ)
unfolding read_bytes keep_if_sums_up
dht_read_raw_bytes t = if not t.responds then none else keep_if_sums_up (read_bytes 5 t.bits)

-- `dht_sample_t`, without its age.
pub record Sample : Type 0 where
  pub valid : Bool
  pub temp_c : ℕ
  pub rh : ℕ

abbrev pub no_sample : Sample
no_sample = record { valid = false; temp_c = 0; rh = 0 }

-- The values of the bytes, 0 where they are out of the sensor's range.
abbrev pub sample_of : List ℕ → Sample
sample_of (a ∷ b ∷ c ∷ rest) = record {
  valid = true;
  temp_c = if ltb 50 c then 0 else c;
  rh = if ltb a 20 || ltb 90 a then 0 else a;
}
sample_of _ = no_sample

-- The sample of a transaction that has succeeded, or that of the later attempts.
abbrev pub first_read : Option (List ℕ) → Option Sample → Option Sample
first_read none rest = rest
first_read (some raw) rest = some (sample_of raw)

-- `dht_hw_read`: up to `DHT_RETRIES` transactions.
unfoldable pub dht_hw_read : ℕ → List Transaction → Option Sample
unfolding dht_read_raw_bytes
dht_hw_read zero ts = none
dht_hw_read (suc n) [] = none
dht_hw_read (suc n) (t ∷ ts) = first_read (dht_read_raw_bytes t) (dht_hw_read n ts)

-- `dht_state_t`; `woken` says whether the task has been notified and has not taken it yet.
pub record Dht : Type 0 where
  pub inited : Bool
  pub def_period_ms : ℕ
  pub stream_on : Bool
  pub period_ms : ℕ
  pub last_tick : ℕ
  pub last : Sample
  pub task : Bool
  pub woken : Bool

abbrev pub dht_retries : ℕ
dht_retries = 3

abbrev pub min_period_ms : ℕ
min_period_ms = 2000

abbrev pub or_no_sample : Option Sample → Sample
or_no_sample none = no_sample
or_no_sample (some s) = s

-- A round of the sampler at the tick `now`, while it streams: the state, and how long it then waits (in
-- ms), unless it is woken.
unfoldable pub dht_sampler_round : List Transaction → ℕ → Dht → Dht × ℕ
dht_sampler_round ts now d =
    let ms = if d.period_ms == 0 then d.def_period_ms else d.period_ms in
    (
      record d { last = or_no_sample (dht_hw_read dht_retries ts); last_tick = now },
      if ltb ms min_period_ms then min_period_ms else ms,
    )

unfoldable pub dht_init : ℕ → ℕ → Dht → Dht
dht_init period now d =
    let def = if period == 0 then min_period_ms else period in
    record d {
      def_period_ms = def;
      period_ms = def;
      stream_on = false;
      last = no_sample;
      last_tick = now;
      inited = true;
    }

-- `created`: whether the task can be created.
unfoldable pub dht_start : Bool → Dht → EspErr × Dht
dht_start created d =
    if not d.inited
    then (invalid_state, d)
    else if d.task
    then (esp_ok, d)
    else if not created
    then (esp_fail, d)
    else (esp_ok, record d { task = true })

unfoldable pub dht_get_stream_state : Dht → Bool × ℕ
dht_get_stream_state d = (d.stream_on, d.period_ms)

-- The last sample and its age, of ticks of `tick_ms` ms, counted in 32 bits.
unfoldable pub dht_read_latest : ℕ → ℕ → Dht → Sample × ℕ
dht_read_latest tick_ms now d = (d.last, u32 (u32 (now + (u32_mod - d.last_tick)) * tick_ms))

unfoldable pub dht_set_stream : Bool → ℕ → Dht → Dht
dht_set_stream on every_ms d = record d {
  stream_on = on;
  period_ms = if every_ms == 0 then d.period_ms else every_ms;
  woken = if d.task then true else d.woken;
}
