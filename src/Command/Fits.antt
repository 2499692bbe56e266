-- ===== src/Command/Fits.antt =====
-- The buffers of the formatted replies are long enough.
use esp32_remot_control.Prelude.{
  ℕ, zero, suc, pred, ◌+◌, ◌/◌, ◌%◌, ◌≤◌, ◌≡◌, ap, Bool, true, false, Option, none, some, [], ◌∷◌,
  ◌++◌, Bytes, codes, length, length-append, take-all, arith,
}
use esp32_remot_control.Print.{print_u, print_06x, hex_before, nibble}
use esp32_remot_control.Esp.{
  Partition, ImageState, new, pending_verify, valid, invalid, aborted, undefined,
}
use esp32_remot_control.Errsrc.{ErrCode, errsrc_get, errsrc_get_code}
use esp32_remot_control.Bootflag.{bootflag_is_post_rollback}
use esp32_remot_control.Mode.{Mode, startup, wait_control, normal, recovery}
use esp32_remot_control.Syscoord.{syscoord_get_mode}
use esp32_remot_control.Command.{Board, Environment, reply}
use esp32_remot_control.Command.Texts.{
  mode_to_str, ota_state_str, err_number, error_text, part_text, diag_text, print_flag,
}
use esp32_remot_control.Command.Handlers.{cmd_errsrc, cmd_diag, running_state}
use esp32_remot_control.Command.Streaming.{length-print_u}

length-hex_before :
    (fuel least n : ℕ) (s : Bytes) → length (hex_before fuel least n s) ≤ fuel + length s
unfolding hex_before
length-hex_before zero least n s = omega arith
length-hex_before (suc fuel) least n s =
    let rest = length-hex_before fuel (pred least) (n / 16) (nibble (n % 16) ∷ s) in ground arith

length-print_06x : (n : ℕ) → length (print_06x n) ≤ 8
unfolding print_06x
length-print_06x n = length-hex_before 8 6 n []

length-mode_to_str : (m : Mode) → length (mode_to_str m) ≤ 12
length-mode_to_str startup = omega arith
length-mode_to_str wait_control = omega arith
length-mode_to_str normal = omega arith
length-mode_to_str recovery = omega arith

length-ota_state_str : (st : ImageState) → length (ota_state_str st) ≤ 14
length-ota_state_str new = omega arith
length-ota_state_str pending_verify = omega arith
length-ota_state_str valid = omega arith
length-ota_state_str invalid = omega arith
length-ota_state_str aborted = omega arith
length-ota_state_str undefined = omega arith

-- Two texts, one behind the other.
both : (m n : ℕ) (s t : Bytes) → length s ≤ m → length t ≤ n → length (s ++ t) ≤ m + n
both m n s t h k = omega (arith, length-append s t)

error_text-fits :
    (m : Mode) (code : ErrCode) (err : Bytes)
    → length err ≤ 63
    → length (error_text m code err) ≤ 319
error_text-fits m code err h =
    let e = both 63 1 err (codes "\n") h (omega arith) in
    let n =
      both 10 65 (print_u (err_number code)) (b' ' ∷ (err ++ codes "\n"))
        (length-print_u (err_number code)) (omega (arith, e)) in
    let t =
      both 12 83 (mode_to_str m)
        (codes " errsrc=" ++ (print_u (err_number code) ++ (b' ' ∷ (err ++ codes "\n"))))
        (length-mode_to_str m) (omega (arith, n)) in
    omega (arith, t)

part_text-fits :
    (label : Partition → Bytes) (run : Option Partition)
    → ((q : Partition) → length (label q) ≤ 16)
    → length (part_text label run) ≤ 68
part_text-fits label none h = omega arith
part_text-fits label (some run) h =
    let t4 = codes " SIZE=" ++ (print_u run.size ++ codes "\n") in
    let a4 = both 10 1 (print_u run.size) (codes "\n") (length-print_u run.size) (omega arith) in
    let a3 =
      both 8 17 (print_06x run.address) t4 (length-print_06x run.address) (omega (arith, a4)) in
    let t3 = codes " OFF=0x" ++ (print_06x run.address ++ t4) in
    let a2 = both 10 32 (print_u run.subtype) t3 (length-print_u run.subtype) (omega (arith, a3)) in
    let t2 = codes " SUB=" ++ (print_u run.subtype ++ t3) in
    let a1 = both 16 47 (label run) t2 (h run) (omega (arith, a2)) in omega (arith, a1)

diag_text-fits :
    (label : Partition → Bytes) (run : Option Partition) (st : ImageState) (post_rb : Bool)
    (m : Mode)
    → ((q : Partition) → length (label q) ≤ 16)
    → length (diag_text label run st post_rb m) ≤ 319
diag_text-fits label run st post_rb m h =
    let t3 = codes "\nMODE=" ++ (mode_to_str m ++ codes "\n") in
    let a3 = both 12 1 (mode_to_str m) (codes "\n") (length-mode_to_str m) (omega arith) in
    let a2 = both 1 19 (print_flag post_rb) t3 (flag post_rb) (omega (arith, a3)) in
    let t2 = codes "\nPOST_RB=" ++ (print_flag post_rb ++ t3) in
    let a1 = both 14 29 (ota_state_str st) t2 (length-ota_state_str st) (omega (arith, a2)) in
    let t1 = codes "OTA_STATE=" ++ (ota_state_str st ++ t2) in
    let a0 = both 68 53 (part_text label run) t1 (part_text-fits label run h) (omega (arith, a1)) in
    omega (arith, a0)
  where
    flag : (on : Bool) → length (print_flag on) ≤ 1
    flag true = omega arith
    flag false = omega arith

-- Where the labels of partitions have 16 bytes at most and the text of the error source 63, the buffer of
-- `cmd_replyf` cuts nothing of what `diag` and `errsrc` reply.
pub replies_whole :
    (env : Environment) (b : Board)
    → ((q : Partition) → length (env.label q) ≤ 16)
    → length (errsrc_get b.device.errsrc) ≤ 63
    → let run = env.platform.running_partition in
      let mode = syscoord_get_mode b.device in
      let text =
        diag_text env.label run
          (running_state env b.device run)
          (bootflag_is_post_rollback b.device.nvs)
          mode in
      let error = error_text mode (errsrc_get_code b.device.errsrc) (errsrc_get b.device.errsrc) in
      ((cmd_diag env b).out ≡ reply text ∷ b.out) × ((cmd_errsrc b).out ≡ reply error ∷ b.out)
unfolding cmd_diag cmd_errsrc
replies_whole env b h k =
    let run = env.platform.running_partition in
    let mode = syscoord_get_mode b.device in
    let st = running_state env b.device run in
    let post_rb = bootflag_is_post_rollback b.device.nvs in
    let code = errsrc_get_code b.device.errsrc in
    let err = errsrc_get b.device.errsrc in
    (
      ap (λ s. reply s ∷ b.out)
          (take-all 319 (diag_text env.label run st post_rb mode)
            (diag_text-fits env.label run st post_rb mode h)),
      ap (λ s. reply s ∷ b.out)
          (take-all 319 (error_text mode code err) (error_text-fits mode code err k)),
    )
