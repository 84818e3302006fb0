-- ===== src/Translation.antt =====
-- src/modules/translation: services/set_translation.py and approve_translation.py, and the
-- selectors.
pub mod Visibility
pub mod RoundTrip
use be_py_eco.Prelude.{
  ℕ, Bool, true, false, not, ◌&&◌, Option, none, some, List, ◌==◌, if◌then◌else◌, Text, eq_text,
  filter_rows, first_row, update_rows,
}
use be_py_eco.Errors.{translation, entry_not_found}
use be_py_eco.Schema.{Database, ContentType, TranslationEntry}
use be_py_eco.World.{
  Action, pure, reads, the_row, maybe_row, modify, next_id, eq_content_type, insert_translation,
  ◌>>=◌, ◌>>◌,
}

-- A field of an entity in a locale.
pub record TranslationKey : Type 0 where
  pub content_type : ContentType
  pub object_id : ℕ
  pub locale : Text
  pub field_name : Text

abbrev pub has_key : TranslationKey → TranslationEntry → Bool
has_key k e =
    eq_content_type e.content_type k.content_type
    && e.object_id == k.object_id
    && eq_text e.locale k.locale
    && eq_text e.field_name k.field_name

abbrev pub with_content : Text → Bool → TranslationEntry → TranslationEntry
with_content value is_ai_generated e = record e {
  value = value;
  is_ai_generated = is_ai_generated;
  is_approved = not is_ai_generated;
}

abbrev pub save_translation : ℕ → (TranslationEntry → TranslationEntry) → Database → Database
save_translation id f db = record db {
  translations = update_rows (λ e. e.id == id) f db.translations;
}

-- the two halves of `update_or_create`
unfoldable pub write_entry :
    TranslationKey → Text → Bool → Option TranslationEntry → Action TranslationEntry
unfolding insert_translation
write_entry key value is_ai_generated (some e) = do
  modify (save_translation e.id (with_content value is_ai_generated))
  pure (with_content value is_ai_generated e)
write_entry key value is_ai_generated none = do
  id ← next_id
  insert_translation (record {
    id = id;
    content_type = key.content_type;
    object_id = key.object_id;
    locale = key.locale;
    field_name = key.field_name;
    value = value;
    is_ai_generated = is_ai_generated;
    is_approved = not is_ai_generated;
  })

unfoldable pub set_translation : TranslationKey → Text → Bool → Action TranslationEntry
unfolding write_entry
set_translation key value is_ai_generated = do
  rows ← reads (λ db. filter_rows (has_key key) db.translations)
  existing ← maybe_row rows
  write_entry key value is_ai_generated existing

abbrev pub approve : TranslationEntry → TranslationEntry
approve e = record e { is_approved = true }

unfoldable pub approve_translation : ℕ → Action TranslationEntry
approve_translation entry_id = do
  rows ← reads (λ db. filter_rows (λ e. e.id == entry_id) db.translations)
  entry ← the_row rows (translation entry_not_found)
  modify (save_translation entry.id approve)
  pure (approve entry)

unfoldable pub entries_for_entity : ContentType → ℕ → Database → List TranslationEntry
entries_for_entity content_type object_id db =
    filter_rows (λ e. eq_content_type e.content_type content_type && e.object_id == object_id)
      db.translations

pub record LocalizedField : Type 0 where
  pub value : Option Text
  pub locale : Option Text
  pub is_fallback : Bool

abbrev nothing_localized : LocalizedField
nothing_localized = record { value = none; locale = none; is_fallback = true }

abbrev fallback_field : Text → Option TranslationEntry → LocalizedField
fallback_field default_locale none = nothing_localized
fallback_field default_locale (some e) = record {
  value = some e.value;
  locale = some default_locale;
  is_fallback = true;
}

abbrev requested_or : Text → LocalizedField → Option TranslationEntry → LocalizedField
requested_or locale other none = other
requested_or locale other (some e) = record {
  value = some e.value;
  locale = some locale;
  is_fallback = false;
}

-- the approved entries of the field, and the first one in a locale
abbrev pub visible : Text → TranslationEntry → Bool
visible field_name e = eq_text e.field_name field_name && e.is_approved

unfoldable pub get_localized_field :
    ContentType → ℕ → Text → Text → Text → Database → LocalizedField
get_localized_field content_type object_id field_name locale default_locale db =
    let entries = filter_rows (visible field_name) (entries_for_entity content_type object_id db) in
    let fallback =
      fallback_field default_locale (first_row (λ e. eq_text e.locale default_locale) entries) in
    requested_or locale
      (if not (eq_text locale default_locale) then fallback else nothing_localized)
      (first_row (λ e. eq_text e.locale locale) entries)
