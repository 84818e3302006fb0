-- ===== src/Translation/Visibility.antt =====
-- What of a translation a reader sees.
use be_py_eco.Prelude.Queries.{Found-cases}
use be_py_eco.Prelude.{
  ℕ, ◌≡◌, refl, ◌∙◌, inl, inr, Bool, true, false, not, ◌&&◌, none, some, List, [], ◌∷◌, arith,
  Bool-cases, Text, eq_text, eq_text_iff, eq_text_refl, filter_rows, exists_row, first_row,
}
use be_py_eco.Prelude.Queries.{missing, one, many, filter-one-holds}
use be_py_eco.Schema.{Database, ContentType, TranslationEntry}
use be_py_eco.World.{World, ok, eq_content_type}
use be_py_eco.Translation.{
  TranslationKey, has_key, set_translation, get_localized_field, LocalizedField, entries_for_entity,
  visible,
}

first_filter-eq_none :
    {A : Type 0} (p q : A → Bool) (rs : List A)
    → exists_row (λ r. q r && p r) rs ≡ false
    → first_row p (filter_rows q rs) ≡ none
unfolding exists_row first_row filter_rows
first_filter-eq_none p q [] h = refl
first_filter-eq_none p q (r ∷ rs) h = ground (arith, first_filter-eq_none p q rs)

first_filter-twice :
    {A : Type 0} (p q s : A → Bool) (rs : List A)
    → first_row p (filter_rows q (filter_rows s rs)) ≡ first_row (λ r. p r && q r && s r) rs
unfolding first_row filter_rows
first_filter-twice p q s [] = refl
first_filter-twice p q s (r ∷ rs) = ground (arith, first_filter-twice p q s rs)

-- an approved entry of a field in a locale
pub is_approved_in : TranslationKey → TranslationEntry → Bool
is_approved_in k e = has_key k e && e.is_approved

-- the key of a field in a locale
abbrev in_locale : ContentType → ℕ → Text → Text → TranslationKey
in_locale content_type object_id field_name locale = record {
  content_type = content_type;
  object_id = object_id;
  locale = locale;
  field_name = field_name;
}

-- the reader's view of a table of entries
pub shown : ContentType → ℕ → Text → Text → Text → List TranslationEntry → LocalizedField
shown content_type object_id field_name locale default_locale entries =
    elim (first_row (is_approved_in (in_locale content_type object_id field_name locale)) entries) [
      | some e ↦ record { value = some e.value; locale = some locale; is_fallback = false }
      | none ↦
          elim (first_row
            (is_approved_in (in_locale content_type object_id field_name default_locale)) entries) [
              | some e ↦ record {
                value = some e.value;
                locale = some default_locale;
                is_fallback = true;
              }
              | none ↦ record { value = none; locale = none; is_fallback = true }
            ]
    ]

first_congr :
    {A : Type 0} (p q : A → Bool) (rs : List A)
    → ((r : A) → p r ≡ q r)
    → first_row p rs ≡ first_row q rs
unfolding first_row
first_congr p q [] h = refl
first_congr p q (r ∷ rs) h = ground (arith, h r, first_congr p q rs h)

first-entries :
    (content_type : ContentType) (object_id : ℕ) (field_name locale : Text) (db : Database)
    → first_row
        (λ e. eq_text e.locale locale)
        (filter_rows (visible field_name) (entries_for_entity content_type object_id db))
      ≡ first_row
          (is_approved_in (in_locale content_type object_id field_name locale))
          db.translations
unfolding entries_for_entity is_approved_in
first-entries content_type object_id field_name locale db =
    first_filter-twice _ _ _ db.translations ∙ first_congr _ _ db.translations (λ e. ground arith)

-- A reader of a field gets the first approved entry of the locale, then that of the default
-- locale, marked as a fallback, and otherwise nothing; the drafts are not looked at.
pub get_localized_field_lem :
    (content_type : ContentType) (object_id : ℕ) (field_name locale default_locale : Text)
    (db : Database)
    → get_localized_field content_type object_id field_name locale default_locale db
      ≡ shown content_type object_id field_name locale default_locale db.translations
unfolding get_localized_field shown
get_localized_field_lem content_type object_id field_name locale default_locale db =
    let mine = first-entries content_type object_id field_name locale db in
    let theirs = first-entries content_type object_id field_name default_locale db in
    elim (Bool-cases (eq_text locale default_locale)) [
      | inl same ↦
          let one : locale ≡ default_locale = (eq_text_iff locale default_locale).0 same in
          rw (← one) (ground (arith, mine, eq_text_refl locale))
      | inr other ↦ ground (arith, mine, theirs)
    ]

first-approved :
    (k : TranslationKey) (rs : List TranslationEntry)
    → first_row (is_approved_in k) (filter_rows (λ e. e.is_approved) rs)
      ≡ first_row (is_approved_in k) rs
unfolding first_row filter_rows is_approved_in
first-approved k [] = refl
first-approved k (r ∷ rs) = ground (arith, first-approved k rs)

-- A database without its drafts shows readers the same as with them.
drafts_not_shown :
    (content_type : ContentType) (object_id : ℕ) (field_name locale default_locale : Text)
    (db : Database)
    → get_localized_field content_type object_id field_name locale default_locale
        (record db { translations = filter_rows (λ e. e.is_approved) db.translations })
      ≡ get_localized_field content_type object_id field_name locale default_locale db
unfolding shown
drafts_not_shown content_type object_id field_name locale default_locale db =
    let mine =
      first-approved (in_locale content_type object_id field_name locale) db.translations in
    let theirs =
      first-approved (in_locale content_type object_id field_name default_locale) db.translations in
    rw (get_localized_field_lem, get_localized_field_lem) (ground (arith, mine, theirs))

pub eq_content_type_refl : (c : ContentType) → eq_content_type c c ≡ true
eq_content_type_refl c = ground arith

-- A machine translation is not approved and a person's is, with the given value; the entry
-- returned is under the given key.
set_translation-ok :
    (key : TranslationKey) (value : Text) (is_ai : Bool) (w : World) (e : TranslationEntry)
    → (set_translation key value is_ai w).0 ≡ ok e
    → (has_key key e ≡ true)
      × (e.value ≡ value)
      × (e.is_ai_generated ≡ is_ai)
      × (e.is_approved ≡ not is_ai)
unfolding set_translation
set_translation-ok key value is_ai w e h =
    elim (Found-cases (filter_rows (has_key key) w.db.translations)) [
      | missing m ↦ ground (
        arith,
        eq_text_refl key.locale,
        eq_text_refl key.field_name,
        eq_content_type_refl key.content_type,
      )
      | one a p ↦ ground (arith, filter-one-holds (has_key key) w.db.translations a p)
      | many a b rest p ↦ absurd (ground arith)
    ]
