-- ===== src/Errsrc.antt =====
-- components/errsrc: the last error source as a text and as a code. `errsrc_t` has no value outside
-- its enumeration here: every caller passes one of its names.
pub mod Sync
use esp32_remot_control.Prelude.{
  Bool, true, false, Option, none, some, List, [], ◌∷◌, take, Bytes, codes, equal, if◌then◌else◌,
}

-- `errsrc_t`
pub data ErrCode : Type 0 where
  es_none es_no_creds es_ip_lost es_auth_expire es_auth_fail es_no_ap es_4way_timeout : ErrCode
  es_assoc_expire es_beacon_to es_disconnected : ErrCode

-- The table `s_tab`.
abbrev pub errsrc_to_string : ErrCode → Bytes
errsrc_to_string es_none = codes "NONE"
errsrc_to_string es_no_creds = codes "NO_CREDS"
errsrc_to_string es_ip_lost = codes "IP_LOST"
errsrc_to_string es_auth_expire = codes "AUTH_EXPIRE"
errsrc_to_string es_auth_fail = codes "AUTH_FAIL"
errsrc_to_string es_no_ap = codes "NO_AP"
errsrc_to_string es_4way_timeout = codes "4WAY_TIMEOUT"
errsrc_to_string es_assoc_expire = codes "ASSOC_EXPIRE"
errsrc_to_string es_beacon_to = codes "BEACON_TO"
errsrc_to_string es_disconnected = codes "DISCONNECTED"

-- The statics, with what the subscriber has been given, newest first.
pub record Errsrc : Type 0 where
  pub s_err : Bytes
  pub s_last : ErrCode
  pub subscribed : Bool
  pub notified : List Bytes

abbrev pub s_tab : List ErrCode
s_tab =
    es_none ∷ es_no_creds ∷ es_ip_lost ∷ es_auth_expire ∷ es_auth_fail ∷ es_no_ap ∷ es_4way_timeout
    ∷ es_assoc_expire ∷ es_beacon_to ∷ es_disconnected ∷ []

-- The loop of `str_to_enum` over the table.
find_code : Bytes → List ErrCode → ErrCode
find_code s [] = es_none
find_code s (e ∷ es) = let rest = find_code s es in if equal s (errsrc_to_string e) then e else rest

unfoldable pub str_to_enum : Bytes → ErrCode
unfolding find_code
str_to_enum [] = es_none
str_to_enum (c ∷ s) = find_code (c ∷ s) s_tab

-- A null or empty text stands for "NONE".
abbrev pub or_none : Option Bytes → Bytes
or_none none = codes "NONE"
or_none (some []) = codes "NONE"
or_none (some (c ∷ s)) = c ∷ s

store : Bytes → Errsrc → Errsrc
store s r =
    let kept = take 63 s in
    record r {
      s_err = kept;
      s_last = str_to_enum s;
      notified = if r.subscribed then kept ∷ r.notified else r.notified;
    }

unfoldable pub errsrc_set : Option Bytes → Errsrc → Errsrc
unfolding store
errsrc_set o r = let s = or_none o in if equal (take 64 r.s_err) (take 64 s) then r else store s r

unfoldable pub errsrc_set_enum : ErrCode → Errsrc → Errsrc
errsrc_set_enum e r = errsrc_set (some (errsrc_to_string e)) (record r { s_last = e })

unfoldable pub errsrc_subscribe : Errsrc → Errsrc
errsrc_subscribe r = record r { subscribed = true; notified = r.s_err ∷ r.notified }

unfoldable pub errsrc_get : Errsrc → Bytes
errsrc_get r = r.s_err

unfoldable pub errsrc_get_code : Errsrc → ErrCode
errsrc_get_code r = r.s_last

unfoldable pub errsrc_clear : Errsrc → Errsrc
errsrc_clear r = errsrc_set (some (codes "NONE")) r
