-- ===== src/Localization/Choices.antt =====
-- What the locale services can answer.
use be_py_eco.Prelude.{
  ◌≡◌, ◌↔◌, ◌⊎◌, inl, inr, true, false, some, List, [], ◌∷◌, arith, Option-cases, Text, codes,
  eq_text, eq_text_refl, in_texts, split, exists_row,
}
use be_py_eco.Prelude.Queries.{exists-append}
use be_py_eco.Schema.{SupportedCountry}
use be_py_eco.World.{World, ok}
use be_py_eco.Localization.{
  vietnam, active_country, validate_locale_and_currency, first_language, best_locale_match,
  resolve_locale, storefront_locales, seed_supported_countries, LocaleSuggestion, suggest_locale,
}

first_language-allowed :
    (allowed parts : List Text) (t : Text)
    → first_language allowed parts ≡ some t
    → in_texts t allowed ≡ true
unfolding first_language
first_language-allowed allowed [] t h = absurd (ground arith)
first_language-allowed allowed (part ∷ parts) t h =
    ground (arith, first_language-allowed allowed parts t)

pub best_locale_match-allowed :
    (header : Text) (allowed : List Text) (t : Text)
    → best_locale_match header allowed ≡ some t
    → in_texts t allowed ≡ true
unfolding best_locale_match
best_locale_match-allowed header allowed t h = first_language-allowed allowed (split 44 header) t h

-- Whatever the header, the storefront answers in Vietnamese or in English.
pub resolve_locale-supported :
    (header : Text) → in_texts (resolve_locale header) storefront_locales ≡ true
unfolding resolve_locale in_texts eq_text
resolve_locale-supported header =
    elim (Option-cases (best_locale_match header storefront_locales)) [
      | inl e ↦ rw e
      | inr (t, e) ↦ rw e (best_locale_match-allowed header storefront_locales t e)
    ]

-- A second run of the seed command adds nothing.
seed_twice :
    (w : World)
    → let w' = (seed_supported_countries w).1 in
      ((seed_supported_countries w').0 ≡ ok false) × ((seed_supported_countries w').1 ≡ w')
unfolding seed_supported_countries exists_row eq_text
seed_twice w =
    let vn = λ (c : SupportedCountry). eq_text c.code (codes "VN") in
    ground (arith, exists-append vn w.db.countries (vietnam (w.ids 0) ∷ []))

-- A suggestion is made in a locale of the active country, or in its default, and in its first
-- currency.
pub suggest_locale-ok :
    (header : Text) (w : World) (s : LocaleSuggestion)
    → (suggest_locale header w).0 ≡ ok s
    → (country : SupportedCountry) × (active_country w.db ≡ some country)
      × (s.country_code ≡ country.code)
      × ((in_texts s.locale country.allowed_locales ≡ true) ⊎ (s.locale ≡ country.default_locale))
      × (in_texts s.currency country.allowed_currencies ≡ true)
unfolding suggest_locale in_texts
suggest_locale-ok header w s h = elim (Option-cases (active_country w.db)) [
  | inl e ↦ absurd (ground arith)
  | inr (c, e) ↦ elim (Option-cases (best_locale_match header c.allowed_locales)) [
    | inl n ↦ (c, e, ground arith, ground arith, ground (arith, eq_text_refl s.currency))
    | inr (t, m) ↦ (
      c,
      e,
      ground arith,
      ground (arith, best_locale_match-allowed header c.allowed_locales t m),
      ground (arith, eq_text_refl s.currency),
    )
  ]
]

-- A locale and a currency are accepted exactly when there is an active country that allows both.
validate-ok_iff :
    (locale currency : Text) (w : World) (c : SupportedCountry)
    → ((validate_locale_and_currency locale currency w).0 ≡ ok c) ↔ (
        (active_country w.db ≡ some c)
        × (in_texts locale c.allowed_locales ≡ true)
        × (in_texts currency c.allowed_currencies ≡ true))
unfolding validate_locale_and_currency
validate-ok_iff locale currency w c = ground arith
