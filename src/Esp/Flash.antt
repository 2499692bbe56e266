-- ===== src/Esp/Flash.antt =====
-- The calls of `esp_ota_ops.h` and `esp_partition.h` that write to the flash.
use esp32_remot_control.Prelude.{
  ℕ, ◌+◌, ◌≤◌, ◌≡◌, ◌≢◌, true, Option, some, List, [], ◌∷◌, ◌++◌, Bytes, u32_mod, ◌==◌,
  if◌then◌else◌,
}
use esp32_remot_control.Esp.Err.{EspErr, is_ok}

-- A partition; its address tells it from the others.
pub record Partition : Type 0 where
  pub subtype : ℕ
  pub address : ℕ
  pub size : ℕ

-- `esp_ota_img_states_t`
pub data ImageState : Type 0 where
  new pending_verify valid invalid aborted undefined : ImageState

-- A call with its answer.
pub data FlashCall : Type 0 where
  begin : Partition → ℕ → ℕ → EspErr → FlashCall
  write : ℕ → Bytes → EspErr → FlashCall
  end : ℕ → EspErr → FlashCall
  abort : ℕ → FlashCall
  set_boot : Partition → EspErr → FlashCall

-- The newest call first.
abbrev pub Log : Type 0
Log = List FlashCall

-- How the library answers, given the calls before.
pub record FlashEnv : Type 0 where
  pub next_partition : Log → Option Partition
  pub begin_handle : Log → Partition → ℕ → ℕ
  pub begin_result : Log → Partition → ℕ → EspErr
  pub write_result : Log → ℕ → Bytes → EspErr
  pub end_result : Log → ℕ → EspErr
  pub set_boot_result : Log → Partition → EspErr

-- What has been written through a handle since it was handed out.
unfoldable pub image : ℕ → Log → Bytes
image h [] = []
image h (begin p n h' e ∷ l) = if h' == h then [] else image h l
image h (write h' d e ∷ l) =
    let before = image h l in if h' == h then (if is_ok e then before ++ d else before) else before
image h (end h' e ∷ l) = image h l
image h (abort h' ∷ l) = image h l
image h (set_boot p e ∷ l) = image h l

-- What ESP-IDF documents: `esp_ota_begin` hands out nonzero handles, and a partition of the flash
-- (at most 16 MiB) ends far below 4 GiB.
pub record IsDocumented (env : FlashEnv) : Type 0 where
  pub handles :
      (l : Log) (p : Partition) (n : ℕ)
      → is_ok (env.begin_result l p n) ≡ true
      → env.begin_handle l p n ≢ 0
  pub sizes : (l : Log) {p : Partition} → env.next_partition l ≡ some p → p.size + 65536 ≤ u32_mod
