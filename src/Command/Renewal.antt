-- ===== src/Command/Renewal.antt =====
-- Changing the token, and authenticating with it.
use esp32_remot_control.Prelude.{
  ℕ, zero, suc, ◌≤◌, ◌<◌, ◌≡◌, ◌≢◌, refl, ap, sym, ◌∙◌, Bool, true, false, not, ◌&&◌, some, [], ◌∷◌,
  ◌++◌, Bytes, codes, c_str, equal, equal_iff, length, length-take, take, take-all, leb, ltb,
  if◌then◌else◌, arith,
}
use esp32_remot_control.Esp.{esp_ok}
use esp32_remot_control.Command.{Context, Board, Environment, reply, say}
use esp32_remot_control.Command.Auth.{is_nil, trim_trailing, auth_token_load, auth_token_save}
use esp32_remot_control.Command.Handlers.{cmd_auth, cmd_settoken}
use esp32_remot_control.Command.Dispatch.{
  run_handler, run_entry, dispatch_trimmed, cmd_dispatch_line, lskip,
}

-- Every byte is above ' '.
abbrev pub printable : Bytes → Bool
printable [] = true
printable (c ∷ s) = ltb 32 c && printable s

-- A text that can be given as an argument: printable and not empty.
pub record IsWord (t : Bytes) : Type 0 where
  pub nonempty : is_nil t ≡ false
  pub all_printable : printable t ≡ true

pub printable-take : (n : ℕ) (t : Bytes) → printable t ≡ true → printable (take n t) ≡ true
printable-take zero t p = refl
printable-take (suc n) [] p = refl
printable-take (suc n) (c ∷ t) p = ground (arith, printable-take n t)

pub trim_printable : (t : Bytes) → printable t ≡ true → trim_trailing t ≡ t
trim_printable [] p = refl
trim_printable (c ∷ t) p =
    let rest = trim_printable t (ground arith) in
    let kept : leb c 32 ≡ false = ground arith in rw (rest, kept) (nil_and t)
  where
    nil_and : (t : Bytes) → (if is_nil t && false then [] else c ∷ t) ≡ c ∷ t
    nil_and [] = refl
    nil_and (d ∷ u) = refl

pub is_nil-append : (a t : Bytes) → is_nil t ≡ false → is_nil (a ++ t) ≡ false
is_nil-append [] t h = h
is_nil-append (c ∷ a) t h = refl

is_nil-take : (n : ℕ) (t : Bytes) → is_nil t ≡ false → is_nil (take (suc n) t) ≡ false
is_nil-take n [] h = h
is_nil-take n (c ∷ t) h = refl

-- Trimming behind a prefix.
pub trim-append : (a t : Bytes) → IsWord t → trim_trailing (a ++ t) ≡ a ++ t
trim-append [] t w = trim_printable t w.all_printable
trim-append (c ∷ a) t w =
    let nonempty : is_nil (a ++ t) ≡ false = is_nil-append a t w.nonempty in
    rw (trim-append a t w, nonempty) refl

lskip_printable : (t : Bytes) → IsWord t → lskip t ≡ t
lskip_printable [] w = refl
lskip_printable (c ∷ t) w = let ap = w.all_printable in ground arith

pub c_str-printable : (t : Bytes) → printable t ≡ true → c_str t ≡ t
c_str-printable [] p = refl
c_str-printable (c ∷ t) p = ground (arith, c_str-printable t)

pub auth_line :
    (env : Environment) (t : Bytes) (ctx : Context) (b : Board)
    → IsWord t
    → cmd_dispatch_line env (codes "auth " ++ t) ctx b ≡ cmd_auth env t ctx b
unfolding cmd_dispatch_line dispatch_trimmed run_entry run_handler
auth_line env t ctx b w =
    rw (trim-append (codes "auth ") t w, lskip_printable t w, c_str-printable t w.all_printable)
      refl

pub when_authed {ℓ} :
    {A : Type ℓ} (authed : Bool) (x y : A) → authed ≡ true → (if not authed then x else y) ≡ y
when_authed true x y h = refl
when_authed false x y h = absurd cc

settoken_line :
    (env : Environment) (t : Bytes) (ctx : Context) (b : Board)
    → IsWord t
    → ctx.authed ≡ true
    → cmd_dispatch_line env (codes "settoken " ++ t) ctx b ≡ (ctx, cmd_settoken env t ctx b)
unfolding cmd_dispatch_line dispatch_trimmed run_entry run_handler
settoken_line env t ctx b w a =
    rw (trim-append (codes "settoken ") t w, lskip_printable t w, c_str-printable t w.all_printable)
      (when_authed ctx.authed _ _ a)

not_too_long : (n : ℕ) → n ≤ 64 → leb 65 n ≡ false
not_too_long n h = ground arith

-- What `settoken` does with a word, when NVS takes it.
settoken_saves :
    (env : Environment) (t : Bytes) (ctx : Context) (b : Board)
    → IsWord t
    → ctx.authed ≡ true
    → env.auth_saved ≡ esp_ok
    → cmd_settoken env t ctx b
      ≡ say (codes "OK\n") (record b {
        token = record {
          s_auth_token = take 64 t;
          s_auth_loaded = true;
          stored = some (take 64 t);
        };
      })
unfolding cmd_settoken auth_token_save
settoken_saves env t ctx b w a s =
    let trimmed = trim_printable (take 64 t) (printable-take 64 t w.all_printable) in
    let nonempty : is_nil (take 64 t) ≡ false = is_nil-take 63 t w.nonempty in
    let len = length-take 64 t in
    let short : leb 65 (length (take 64 t)) ≡ false =
      not_too_long (length (take 64 t)) (omega (arith, len)) in
    let whole = take-all 64 (take 64 t) (omega (arith, len)) in
    when_authed ctx.authed _ _ a ∙ rw (w.nonempty, trimmed, nonempty, short, s, whole) refl

-- What `auth` does with a word, once the token is loaded.
auth_compares :
    (env : Environment) (u : Bytes) (ctx : Context) (b : Board)
    → IsWord u
    → b.token.s_auth_loaded ≡ true
    → (cmd_auth env u ctx b).0.authed
      ≡ (if equal (take 65 u) b.token.s_auth_token then true else ctx.authed)
unfolding cmd_auth auth_token_load
auth_compares env u ctx b w l =
    let trimmed = trim_printable (take 65 u) (printable-take 65 u w.all_printable) in
    ground (arith, trimmed)

-- The state after a token has been set.
abbrev after_settoken : Bytes → Board → Board
after_settoken t b = say (codes "OK\n") (record b {
  token = record { s_auth_token = take 64 t; s_auth_loaded = true; stored = some (take 64 t) };
})

settoken_dispatched :
    (env : Environment) (t : Bytes) (ctx : Context) (b : Board)
    → IsWord t
    → ctx.authed ≡ true
    → env.auth_saved ≡ esp_ok
    → (cmd_dispatch_line env (codes "settoken " ++ t) ctx b).1 ≡ after_settoken t b
settoken_dispatched env t ctx b w a s =
    ap (λ (r : Context × Board). r.1) (settoken_line env t ctx b w a)
    ∙ settoken_saves env t ctx b w a s

auth_after_settoken :
    (env : Environment) (t u : Bytes) (ctx : Context) (b : Board)
    → IsWord u
    → (cmd_dispatch_line env (codes "auth " ++ u) ctx (after_settoken t b)).0.authed
      ≡ (if equal (take 65 u) (take 64 t) then true else ctx.authed)
auth_after_settoken env t u ctx b w =
    ap (λ (r : Context × Board). r.0.authed) (auth_line env u ctx (after_settoken t b) w)
    ∙ auth_compares env u ctx (after_settoken t b) w refl

equal-false : (a b : Bytes) → a ≢ b → equal a b ≡ false
equal-false a b n = ground (arith, equal_iff a b)

cut-ne : (t u : Bytes) → length t ≤ 64 → u ≢ t → take 65 u ≢ t
cut-ne t u len n e =
    let short : length u ≤ 65 = omega (arith, ap length e, length-take 65 u) in
    n (sym (take-all 65 u short) ∙ e)

-- Once an authenticated client has set a word of at most 64 bytes as token (and NVS has taken it),
-- `auth` with it authenticates every connection, and `auth` with another word changes nothing in a
-- connection's rights.
pub settoken_renews :
    (env env' : Environment) (t u : Bytes) (ctx ctx' : Context) (b : Board)
    → IsWord t
    → IsWord u
    → length t ≤ 64
    → u ≢ t
    → ctx.authed ≡ true
    → env.auth_saved ≡ esp_ok
    → let b' = (cmd_dispatch_line env (codes "settoken " ++ t) ctx b).1 in
      ((cmd_dispatch_line env' (codes "auth " ++ t) ctx' b').0.authed ≡ true)
      × ((cmd_dispatch_line env' (codes "auth " ++ u) ctx' b').0.authed ≡ ctx'.authed)
settoken_renews env env' t u ctx ctx' b w v len n a s =
    let set = settoken_dispatched env t ctx b w a s in
    let same : equal (take 65 t) (take 64 t) ≡ true =
      rw (take-all 65 t (omega arith), take-all 64 t len) ((equal_iff t t).1 refl) in
    let other : equal (take 65 u) (take 64 t) ≡ false =
      rw (take-all 64 t len) (equal-false (take 65 u) t (cut-ne t u len n)) in
    (
      ap (λ b'. (cmd_dispatch_line env' (codes "auth " ++ t) ctx' b').0.authed) set
          ∙ auth_after_settoken env' t t ctx' b w
          ∙ ap (λ e. if e then true else ctx'.authed) same,
      ap (λ b'. (cmd_dispatch_line env' (codes "auth " ++ u) ctx' b').0.authed) set
          ∙ auth_after_settoken env' t u ctx' b v
          ∙ ap (λ e. if e then true else ctx'.authed) other,
    )

-- A word of more than 64 bytes that an authenticated client sets as token (and of which NVS takes
-- what it is given) is answered with OK, but only its first 64 bytes are the token: `auth` with
-- the whole word gives a connection no rights.
pub settoken_truncates :
    (env env' : Environment) (t : Bytes) (ctx ctx' : Context) (b : Board)
    → IsWord t
    → 64 < length t
    → ctx.authed ≡ true
    → env.auth_saved ≡ esp_ok
    → let b' = (cmd_dispatch_line env (codes "settoken " ++ t) ctx b).1 in
      (b'.out ≡ reply (codes "OK\n") ∷ b.out)
      × (b'.token.s_auth_token ≡ take 64 t)
      × ((cmd_dispatch_line env' (codes "auth " ++ t) ctx' b').0.authed ≡ ctx'.authed)
settoken_truncates env env' t ctx ctx' b w len a s =
    let set = settoken_dispatched env t ctx b w a s in
    let longer : take 65 t ≢ take 64 t =
      λ e. omega (arith, ap length e, length-take 65 t, length-take 64 t) in
    let other = equal-false (take 65 t) (take 64 t) longer in
    (
      ap (λ (b' : Board). b'.out) set,
      ap (λ (b' : Board). b'.token.s_auth_token) set,
      ap (λ b'. (cmd_dispatch_line env' (codes "auth " ++ t) ctx' b').0.authed) set
          ∙ auth_after_settoken env' t t ctx' b w
          ∙ ap (λ e. if e then true else ctx'.authed) other,
    )
