-- ===== src/Command/Auth.antt =====
-- The token of cmd_auth.c.
use esp32_remot_control.Prelude.{
  Bool, true, false, ◌&&◌, Option, none, some, [], ◌∷◌, Bytes, leb, length, take, if◌then◌else◌,
}
use esp32_remot_control.Esp.{EspErr, is_ok}

-- The statics, with the token in NVS.
pub record Token : Type 0 where
  pub s_auth_token : Bytes
  pub s_auth_loaded : Bool
  pub stored : Option Bytes

abbrev pub is_nil : Bytes → Bool
is_nil [] = true
is_nil (c ∷ s) = false

-- Remove the trailing bytes up to ' ' (`trim_trailing`, and `rtrim_n` of command.c).
abbrev pub trim_trailing : Bytes → Bytes
trim_trailing [] = []
trim_trailing (c ∷ s) =
    let rest = trim_trailing s in if is_nil rest && leb c 32 then [] else c ∷ rest

-- `nvs_get_str` into the buffer of 65: a text that does not fit is an error.
read_token : Option Bytes → Bytes → Bytes
read_token none tok = tok
read_token (some t) tok = if leb (length t) 64 then t else tok

-- `readable`: the namespace can be opened.
unfoldable pub auth_token_load : Bool → Token → Token
unfolding read_token
auth_token_load readable t = if t.s_auth_loaded then t else record t {
  s_auth_token = if readable then read_token t.stored t.s_auth_token else t.s_auth_token;
  s_auth_loaded = true;
}

-- `err` is what opening, writing and committing give; if it is an error, NVS is as it was.
unfoldable pub auth_token_save : EspErr → Bytes → Token → Token
auth_token_save err tok t =
    if is_ok err
    then record { s_auth_token = take 64 tok; s_auth_loaded = true; stored = some tok }
    else t
