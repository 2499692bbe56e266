-- ===== src/Command/Texts.antt =====
-- The texts that the commands format: cmd_base.c and cmd_diag.c.
use esp32_remot_control.Prelude.{
  ℕ, Bool, Option, none, some, ◌∷◌, ◌++◌, Bytes, codes, if◌then◌else◌,
}
use esp32_remot_control.Print.{print_u, print_06x}
use esp32_remot_control.Esp.{
  Partition, ImageState, new, pending_verify, valid, invalid, aborted, undefined,
}
use esp32_remot_control.Errsrc.{
  ErrCode, es_none, es_no_creds, es_ip_lost, es_auth_expire, es_auth_fail, es_no_ap,
  es_4way_timeout, es_assoc_expire, es_beacon_to, es_disconnected,
}
use esp32_remot_control.Mode.{Mode, startup, wait_control, normal, recovery}

abbrev pub mode_to_str : Mode → Bytes
mode_to_str startup = codes "STARTUP"
mode_to_str wait_control = codes "WAIT_CONTROL"
mode_to_str normal = codes "NORMAL"
mode_to_str recovery = codes "RECOVERY"

abbrev pub ota_state_str : ImageState → Bytes
ota_state_str new = codes "NEW"
ota_state_str pending_verify = codes "PENDING_VERIFY"
ota_state_str valid = codes "VALID"
ota_state_str invalid = codes "INVALID"
ota_state_str aborted = codes "ABORTED"
ota_state_str undefined = codes "UNDEFINED"

-- The value that C gives an error code.
abbrev pub err_number : ErrCode → ℕ
err_number es_none = 0
err_number es_no_creds = 1
err_number es_ip_lost = 2
err_number es_auth_expire = 3
err_number es_auth_fail = 4
err_number es_no_ap = 5
err_number es_4way_timeout = 6
err_number es_assoc_expire = 7
err_number es_beacon_to = 8
err_number es_disconnected = 9

-- "mode=%s errsrc=%u %s\n"
abbrev pub error_text : Mode → ErrCode → Bytes → Bytes
error_text m code err =
    codes "mode="
    ++ (mode_to_str m
        ++ (codes " errsrc=" ++ (print_u (err_number code) ++ (b' ' ∷ (err ++ codes "\n")))))

-- `%d` of a flag
abbrev pub print_flag : Bool → Bytes
print_flag b = if b then codes "1" else codes "0"

-- "PART=%s SUB=%d OFF=0x%06x SIZE=%u\n", where there is a running partition or not.
abbrev pub part_text : (Partition → Bytes) → Option Partition → Bytes
part_text label none = codes "PART=? SUB=-1 OFF=0x000000 SIZE=0\n"
part_text label (some run) =
    codes "PART="
    ++ (label run
        ++ (codes " SUB="
            ++ (print_u run.subtype
                ++ (codes " OFF=0x"
                    ++ (print_06x run.address
                        ++ (codes " SIZE=" ++ (print_u run.size ++ codes "\n")))))))

abbrev pub diag_text : (Partition → Bytes) → Option Partition → ImageState → Bool → Mode → Bytes
diag_text label run st post_rb mode =
    part_text label run
    ++ (codes "OTA_STATE="
        ++ (ota_state_str st
            ++ (codes "\nPOST_RB="
                ++ (print_flag post_rb ++ (codes "\nMODE=" ++ (mode_to_str mode ++ codes "\n"))))))
