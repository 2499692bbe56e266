-- ===== src/Monitor/Rollback.antt =====
-- The one rollback: when the monitor restarts the device, and into what.
use esp32_remot_control.Prelude.{
  not, ◌⊎◌, ◌&&◌, leb, ◌==◌, if◌then◌else◌, ◌≡◌, refl, Bool, true, false, Option, none, some, arith,
  Bool-cases, inl, inr,
}
use esp32_remot_control.Esp.{EspErr, is_ok, Partition}
use esp32_remot_control.Device.{Device, Platform, Step, runs, restarts}
use esp32_remot_control.Errsrc.{ErrCode}
use esp32_remot_control.Bootflag.{Nvs, bootflag_is_post_rollback, bootflag_set_post_rollback}
use esp32_remot_control.Monitor.Policy.{
  other_slot, factory_subtype, counted, monitor_on_wifi_error, monitor_is_rollback_eligible,
  monitor_try_rollback_now, after_official, manual_fallback, select_manual_fallback_target,
  first_failure, second_failure, differs, is_es_none,
}

-- A conditional that restarts, where one side does not.
if-runs :
    (b : Bool) (c : Device) (t : Step) (d' : Device)
    → (if b then runs c else t) ≡ restarts d'
    → (b ≡ false) × (t ≡ restarts d')
if-runs true c t d' h = absurd cc
if-runs false c t d' h = (refl, h)

if-else-runs :
    (b : Bool) (s : Step) (c d' : Device)
    → (if b then s else runs c) ≡ restarts d'
    → (b ≡ true) × (s ≡ restarts d')
if-else-runs true s c d' h = (refl, h)
if-else-runs false s c d' h = absurd cc

if-both-run :
    (b c : Bool) (s : Step) (x y d' : Device)
    → (if b then s else if c then runs x else runs y) ≡ restarts d'
    → (b ≡ true) × (s ≡ restarts d')
if-both-run true c s x y d' h = (refl, h)
if-both-run false true s x y d' h = absurd cc
if-both-run false false s x y d' h = absurd cc

choice-differs :
    (f o run : Option Partition) (t : Partition)
    → (if differs f run then f else if differs o run then o else none) ≡ some t
    → differs (some t) run ≡ true
choice-differs f o run t h = elim (Bool-cases (differs f run)) [
  | inl y ↦ let e : f ≡ some t = ground arith in rw⁻¹ e y
  | inr n ↦ elim (Bool-cases (differs o run)) [
    | inl y ↦ let e : o ≡ some t = ground arith in rw⁻¹ e y
    | inr m ↦ absurd (ground arith)
  ]
]

select-differs :
    (p : Platform) (run : Option Partition) (t : Partition)
    → select_manual_fallback_target p run ≡ some t
    → differs (some t) run ≡ true
unfolding select_manual_fallback_target
select-differs p run t h = choice-differs (p.find_first factory_subtype) (other_slot p run) run t h

-- The restart into a partition: it is the next to boot if it can be set, and the flag is found again
-- where NVS works.
pub record FallsBack (p : Platform) (t : Partition) (before : Option Partition) (nvs : Nvs)
    (d' : Device) : Type 0 where
  pub other : differs (some t) p.running_partition ≡ true
  pub boots_it : is_ok (p.set_boot t) ≡ true → d'.boot ≡ some t
  pub boots_on : is_ok (p.set_boot t) ≡ false → d'.boot ≡ before
  pub flagged : nvs.readable ≡ true → nvs.writable ≡ true → bootflag_is_post_rollback d'.nvs ≡ true

manual_fallback-restarts :
    (p : Platform) (target : Option Partition) (d d' : Device)
    → ((t : Partition) → target ≡ some t → differs (some t) p.running_partition ≡ true)
    → manual_fallback p target d ≡ restarts d'
    → (t : Partition) × FallsBack p t d.boot d.nvs d'
unfolding manual_fallback bootflag_set_post_rollback bootflag_is_post_rollback
manual_fallback-restarts p none d d' o h = absurd cc
manual_fallback-restarts p (some t) d d' o h = (
  t,
  record {
    other = o t refl;
    boots_it = λ e. ground arith;
    boots_on = λ e. ground arith;
    flagged = λ r w. ground arith;
  },
)

-- What a restart out of the monitor means.
pub record RolledBack (p : Platform) (e : ErrCode) (d d' : Device) : Type 0 where
  pub armed : d.monitor.done ≡ false
  pub error : is_es_none e ≡ false
  pub first : d.monitor.fail_streak ≡ 0
  pub eligible : monitor_is_rollback_eligible p d p.running_partition ≡ true
  pub unflagged : bootflag_is_post_rollback d.nvs ≡ false
  pub target : (p.official_rollback ≡ none) ⊎ ((t : Partition) × FallsBack p t d.boot d.nvs d')

after_official-restarts :
    (p : Platform) (o : Option EspErr) (d d' : Device)
    → after_official p o d ≡ restarts d'
    → (o ≡ none) ⊎ ((t : Partition) × FallsBack p t d.boot d.nvs d')
unfolding after_official
after_official-restarts p none d d' h = inl refl
after_official-restarts p (some e) d d' h =
    let run = p.running_partition in
    let target = select_manual_fallback_target p run in
    let (_, restarted) = if-else-runs (not (is_ok e)) (manual_fallback p target d) d d' h in
    inr (manual_fallback-restarts p target d d' (λ t s. select-differs p run t s) restarted)

-- The monitor restarts the device only on the first failure of an image that is not confirmed, and
-- not after an earlier rollback. If ESP-IDF does not do it, another partition has been chosen: it is the
-- next to boot if it can be set, and otherwise the boot partition stays as it was; and the post-rollback
-- flag is set where NVS can be read and written.
pub monitor_on_wifi_error_restarts :
    (p : Platform) (e : ErrCode) (d d' : Device)
    → monitor_on_wifi_error p e d ≡ restarts d'
    → RolledBack p e d d'
unfolding monitor_on_wifi_error first_failure second_failure monitor_try_rollback_now
    monitor_is_rollback_eligible
monitor_on_wifi_error_restarts p e d d' h =
    let (armed, h1) = if-runs d.monitor.done d _ d' h in
    let (error, h2) = if-runs (is_es_none e) _ _ d' h1 in
    let (one, h3) =
      if-both-run ((counted d).monitor.fail_streak == 1) (leb 2 (counted d).monitor.fail_streak)
        (first_failure p (counted d)) _ _ d' h2 in
    let (may, h4) =
      if-else-runs
        (monitor_is_rollback_eligible p d p.running_partition
          && not (bootflag_is_post_rollback d.nvs))
        _ _ d' h3 in
    record {
      armed = armed;
      error = error;
      first = ground arith;
      eligible = ground arith;
      unflagged = ground arith;
      target = after_official-restarts p p.official_rollback _ d' h4;
    }
