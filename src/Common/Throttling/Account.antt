-- ===== src/Common/Throttling/Account.antt =====
-- The account that a request counts for is the one that the services look up.
use be_py_eco.Prelude.{◌≡◌, refl, ◌↔◌, false, some, [], ◌∷◌, ◌++◌, arith, Text, codes, is_empty}
use be_py_eco.Schema.{Fields, str, obj}
use be_py_eco.Common.Http.{Framework}
use be_py_eco.Common.Problem.{get_key}
use be_py_eco.Common.Throttling.{get_cache_key, email_text, cache_key, auth_account_scope}
use be_py_eco.Accounts.Tokens.{normalize_email}

append_injective : (ps s t : Text) → ps ++ s ≡ ps ++ t → s ≡ t
append_injective [] s t h = h
append_injective (p ∷ ps) s t h = append_injective ps s t (ground arith)

cache_key_injective : (scope s t : Text) → cache_key scope s ≡ cache_key scope t → s ≡ t
cache_key_injective scope s t h = append_injective (codes "_") s t (
    append_injective scope (codes "_" ++ s) (codes "_" ++ t) (
      append_injective (codes "throttle_") (scope ++ (codes "_" ++ s)) (scope ++ (codes "_" ++ t))
        h))

get_cache_key-text :
    (fw : Framework) (f : Fields) (a : Text)
    → get_key (codes "email") f ≡ some (str a)
    → is_empty (normalize_email a) ≡ false
    → get_cache_key fw (obj f) ≡ some (cache_key auth_account_scope (normalize_email a))
unfolding get_cache_key email_text normalize_email
get_cache_key-text fw f a h filled = ground (arith, fw.str_of_text a)

-- Two requests whose emails are texts, and not blank, count for the same account exactly when the
-- emails are the same once normalised.
pub get_cache_key-same_iff :
    (fw : Framework) (f g : Fields) (a b : Text)
    → get_key (codes "email") f ≡ some (str a)
    → get_key (codes "email") g ≡ some (str b)
    → is_empty (normalize_email a) ≡ false
    → is_empty (normalize_email b) ≡ false
    → (get_cache_key fw (obj f) ≡ get_cache_key fw (obj g))
      ↔ (normalize_email a ≡ normalize_email b)
get_cache_key-same_iff fw f g a b ha hb na nb =
    rw (get_cache_key-text fw f a ha na, get_cache_key-text fw g b hb nb)
      (
        λ h.
            cache_key_injective auth_account_scope (normalize_email a) (normalize_email b)
              (ground arith),
        λ e. rw e refl,
      )
