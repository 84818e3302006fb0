-- ===== src/Localization.antt =====
-- src/modules/localization/services (validate_preference.py, suggest_locale.py),
-- management/commands/seed_supported_countries.py, the storefront's `_resolve_locale`
-- (src/modules/catalog/api/storefront/views.py), and
-- src/modules/accounts/services/update_locale_preference.py
pub mod Choices
pub mod Api
use be_py_eco.Prelude.{
  ℕ, Bool, true, false, not, Option, none, some, List, [], ◌∷◌, ◌++◌, ltb, if◌then◌else◌, Text,
  codes, eq_text, is_empty, in_texts, strip, lower, before, split, filter_rows, exists_row,
}
use be_py_eco.Errors.{
  localization, failure, index_error, supported_country_not_configured, unsupported_locale,
  unsupported_currency,
}
use be_py_eco.Schema.{Database, Customer, SupportedCountry}
use be_py_eco.World.{branch, Action, pure, reads, or_raise, raise_if, modify, next_id, ◌>>=◌, ◌>>◌}
use be_py_eco.Accounts.Tokens.{save_customer}

-- `.first()` of an unordered query is the row with the least primary key.
abbrev lesser_id : SupportedCountry → Option SupportedCountry → SupportedCountry
lesser_id c none = c
lesser_id c (some d) = if ltb d.id c.id then d else c

unfoldable pub first_by_id : List SupportedCountry → Option SupportedCountry
first_by_id [] = none
first_by_id (c ∷ cs) = some (lesser_id c (first_by_id cs))

-- `SupportedCountry.objects.filter(is_active=True).first()`
unfoldable pub active_country : Database → Option SupportedCountry
unfolding first_by_id
active_country db = first_by_id (filter_rows (λ c. c.is_active) db.countries)

unfoldable pub validate_locale_and_currency : Text → Text → Action SupportedCountry
validate_locale_and_currency locale currency = do
  active ← reads active_country
  country ← or_raise active (localization supported_country_not_configured)
  raise_if (not (in_texts locale country.allowed_locales)) (localization unsupported_locale)
  raise_if (not (in_texts currency country.allowed_currencies)) (localization unsupported_currency)
  pure country

abbrev pub with_preference : Text → Text → Customer → Customer
with_preference locale currency c = record c {
  preferred_locale = locale;
  preferred_currency = currency;
}

unfoldable pub update_locale_preference : Customer → Text → Text → Action Customer
unfolding validate_locale_and_currency
update_locale_preference customer locale currency = do
  validate_locale_and_currency locale currency
  modify (save_customer customer.id (with_preference locale currency))
  pure (with_preference locale currency customer)

abbrev comma : ℕ
comma = 44

abbrev semicolon : ℕ
semicolon = 59

abbrev dash : ℕ
dash = 45

-- `part.split(";")[0].strip().split("-")[0].lower()`
unfoldable pub language_of : Text → Text
unfolding before strip lower
language_of part = lower (before dash (strip (before semicolon part)))

unfoldable pub first_language : List Text → List Text → Option Text
unfolding language_of
first_language allowed [] = none
first_language allowed (part ∷ parts) =
    if in_texts (language_of part) allowed
    then some (language_of part)
    else first_language allowed parts

-- `_best_locale_match`
unfoldable pub best_locale_match : Text → List Text → Option Text
unfolding first_language split
best_locale_match accept_language allowed_locales =
    first_language allowed_locales (split comma accept_language)

pub record LocaleSuggestion : Type 0 where
  pub country_code : Text
  pub locale : Text
  pub currency : Text

-- `match or default`: an empty match is no match
abbrev match_or : Option Text → Text → Text
match_or none other = other
match_or (some t) other = if is_empty t then other else t

-- `allowed_currencies[0]`
abbrev first_currency : List Text → Option Text
first_currency [] = none
first_currency (c ∷ _) = some c

unfoldable pub suggest_locale : Text → Action LocaleSuggestion
unfolding best_locale_match
suggest_locale accept_language = do
  active ← reads active_country
  country ← or_raise active (localization supported_country_not_configured)
  currency ← or_raise (first_currency country.allowed_currencies) (failure index_error)
  pure (record {
    country_code = country.code;
    locale =
        match_or (best_locale_match accept_language country.allowed_locales) country.default_locale;
    currency = currency;
  })

abbrev pub default_locale : Text
default_locale = codes "vi"

abbrev pub storefront_locales : List Text
storefront_locales = codes "vi" ∷ codes "en" ∷ []

abbrev or_default : Option Text → Text
or_default none = default_locale
or_default (some t) = t

-- `_resolve_locale`
unfoldable pub resolve_locale : Text → Text
unfolding best_locale_match
resolve_locale accept_language = or_default (best_locale_match accept_language storefront_locales)

abbrev pub vietnam : ℕ → SupportedCountry
vietnam id = record {
  id = id;
  code = codes "VN";
  name = codes "Vietnam";
  default_locale = codes "vi";
  allowed_locales = codes "vi" ∷ codes "en" ∷ [];
  allowed_currencies = codes "VND" ∷ codes "USD" ∷ [];
  is_active = true;
}

abbrev add_country : SupportedCountry → Database → Database
add_country c db = record db { countries = db.countries ++ c ∷ [] }

-- the seed command: `get_or_create(code="VN")`; the result tells whether the row is new
unfoldable pub seed_supported_countries : Action Bool
seed_supported_countries = do
  seeded ← reads (λ db. exists_row (λ c. eq_text c.code (codes "VN")) db.countries)
  branch seeded (pure false) (do id ← next_id; modify (add_country (vietnam id)); pure true)
