-- ===== src/Accounts/Api/SharedScope.antt =====
-- Two throttles with one scope: `AuthAccountRateThrottle` and `AuthUserRateThrottle`.
use be_py_eco.Prelude.{
  ℕ, zero, suc, ◌/◌, ◌%◌, ◌^◌, ◌≡◌, refl, ◌<◌, Bool, true, false, ◌&&◌, ◌||◌, not, none, some, [],
  ◌∷◌, ◌++◌, leb, ◌==◌, arith, Text, codes, is_empty, strip, strip_left, strip_right, lower,
}
use be_py_eco.Schema.{Staff}
use be_py_eco.Common.Authentication.{staff_actor}
use be_py_eco.Common.Render.{hex, hex_digit, dash, uuid_text}
use be_py_eco.Common.RequestContext.{RequestMeta}
use be_py_eco.Common.Http.{Framework, Request}
use be_py_eco.Common.Throttling.{cache_key, email_text, get_cache_key, throttle_key, throttle_keys}
use be_py_eco.Accounts.Api.Routes.{accounts_login, admin_staff_mfa_confirm}
use be_py_eco.Accounts.Api.Throttles.{throttle_classes}

-- neither white space nor upper case
abbrev is_plain : ℕ → Bool
is_plain c = not (c == 32 || (leb 9 c && leb c 13)) && not (leb 65 c && leb c 90)

abbrev IsPlain : Text → Type 0
IsPlain [] = Unit
IsPlain (c ∷ t) = (is_plain c ≡ true) × IsPlain t

append-IsPlain : (s t : Text) → IsPlain s → IsPlain t → IsPlain (s ++ t)
append-IsPlain [] t p q = q
append-IsPlain (c ∷ s) t p q = (p.0, append-IsPlain s t p.1 q)

lower-plain : (t : Text) → IsPlain t → lower t ≡ t
unfolding lower
lower-plain [] p = refl
lower-plain (c ∷ t) p = ground (arith, lower-plain t p.1)

strip_right-plain : (t : Text) → IsPlain t → strip_right t ≡ t
unfolding strip_right
strip_right-plain [] p = refl
strip_right-plain (c ∷ t) p = ground (arith, strip_right-plain t p.1)

strip-plain : (t : Text) → IsPlain t → strip t ≡ t
unfolding strip strip_left
strip-plain [] p = refl
strip-plain (c ∷ t) p = ground (arith, strip_right-plain (c ∷ t) p)

digit-plain : (d : ℕ) → d < 16 → is_plain (hex_digit d) ≡ true
digit-plain d h = ground arith

hex-IsPlain : (k n : ℕ) → IsPlain (hex k n)
unfolding hex
hex-IsPlain zero n = tt
hex-IsPlain (suc k) n =
    append-IsPlain (hex k (n / 16)) (hex_digit (n % 16) ∷ []) (hex-IsPlain k (n / 16))
      (digit-plain (n % 16) (omega arith), tt)

dashed : (k n : ℕ) (t : Text) → IsPlain t → IsPlain (hex k n ++ dash ∷ t)
dashed k n t p = append-IsPlain (hex k n) (dash ∷ t) (hex-IsPlain k n) (refl, p)

uuid_text-IsPlain : (n : ℕ) → IsPlain (uuid_text n)
unfolding uuid_text
uuid_text-IsPlain n =
    let t1 = hex 4 (n / 16 ^ 12) ++ dash ∷ hex 12 n in
    let t2 = hex 4 (n / 16 ^ 16) ++ dash ∷ t1 in
    let t3 = hex 4 (n / 16 ^ 20) ++ dash ∷ t2 in
    let p1 : IsPlain t1 = dashed 4 (n / 16 ^ 12) (hex 12 n) (hex-IsPlain 12 n) in
    let p2 : IsPlain t2 = dashed 4 (n / 16 ^ 16) t1 p1 in
    let p3 : IsPlain t3 = dashed 4 (n / 16 ^ 20) t2 p2 in dashed 8 (n / 16 ^ 24) t3 p3

uuid_text-filled : (n : ℕ) → is_empty (uuid_text n) ≡ false
unfolding uuid_text
uuid_text-filled n = refl

normal-uuid_text : (n : ℕ) → lower (strip (uuid_text n)) ≡ uuid_text n
normal-uuid_text n =
    let p = uuid_text-IsPlain n in rw (strip-plain (uuid_text n) p) (lower-plain (uuid_text n) p)

-- A sign-in without credentials whose email is the text of a staff member's id counts for what the
-- confirmation of a device by that staff member counts for, and for the visitor's address, whatever
-- the confirmation holds.
pub forged_throttle_keys :
    (fw : Framework) (get_ident : RequestMeta → Text) (s : Staff) (forged confirm : Request)
    → email_text fw forged.body ≡ uuid_text s.id
    → throttle_keys fw get_ident (throttle_classes accounts_login) forged none
      ≡ cache_key (codes "auth_ip") (get_ident forged.meta)
        ∷ throttle_keys fw get_ident
            (throttle_classes admin_staff_mfa_confirm)
            confirm
            (some (staff_actor s))
unfolding throttle_keys throttle_key throttle_classes get_cache_key
forged_throttle_keys fw get_ident s forged confirm e =
    rw (e, normal-uuid_text s.id, uuid_text-filled s.id) refl
