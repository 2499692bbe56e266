-- ===== src/Ota/Fixtures.antt =====
-- A flash for the tests of the uploads.
use esp32_remot_control.Prelude.{refl, some, arith}
use esp32_remot_control.Esp.{esp_ok, Partition, FlashEnv, IsDocumented}
use esp32_remot_control.Ota.Handler.Complete.{IsWilling}

abbrev pub ota_0 : Partition
ota_0 = record { subtype = 16; address = 0x220000; size = 0x200000 }

-- A flash that accepts everything and hands out the handle 1.
abbrev pub willing : FlashEnv
willing = record {
  next_partition = λ l. some ota_0;
  begin_handle = λ l p n. 1;
  begin_result = λ l p n. esp_ok;
  write_result = λ l h d. esp_ok;
  end_result = λ l h. esp_ok;
  set_boot_result = λ l p. esp_ok;
}

pub willing-IsDocumented : IsDocumented willing
willing-IsDocumented = record { handles = λ l p n ok e. cc; sizes = λ l e. ground arith }

pub willing-IsWilling : IsWilling willing ota_0
willing-IsWilling = record {
  offers = λ l. refl;
  begins = λ l n. refl;
  writes = λ l h d. refl;
  ends = λ l h. refl;
  boots_from = λ l q. refl;
}
