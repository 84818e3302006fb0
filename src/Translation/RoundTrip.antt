-- ===== src/Translation/RoundTrip.antt =====
-- What a person writes is what a reader gets.
use be_py_eco.Prelude.{
  ◌≡◌, refl, ap, ◌∙◌, true, false, ◌&&◌, Option, none, some, List, [], ◌∷◌, ◌++◌, arith, ◌==◌,
  ==_refl, Text, eq_text, eq_text_refl, filter_rows, first_row, update_rows,
}
use be_py_eco.Schema.{TranslationEntry}
use be_py_eco.World.{World, ok, eq_content_type, insert_translation}
use be_py_eco.Prelude.Queries.{
  filter-append, filter-update, update_one, missing, one, many, Found-cases,
}
use be_py_eco.Translation.Visibility.{eq_content_type_refl}
use be_py_eco.Translation.{
  TranslationKey, has_key, with_content, write_entry, set_translation, entries_for_entity, visible,
  get_localized_field,
}

module _ (key : TranslationKey) where
  -- the first approved entry of the key
  shown_entry : List TranslationEntry → Option TranslationEntry
  shown_entry rows =
      first_row (λ e. eq_text e.locale key.locale)
        (filter_rows (visible key.field_name) (
          filter_rows
            (λ e. eq_content_type e.content_type key.content_type && e.object_id == key.object_id)
            rows))

  shown-none :
      (rows : List TranslationEntry) → filter_rows (has_key key) rows ≡ [] → shown_entry rows ≡ none
  unfolding shown_entry first_row filter_rows
  shown-none [] h = refl
  shown-none (r ∷ rows) h = ground (arith, shown-none rows)

  shown-one :
      (rows : List TranslationEntry) (e : TranslationEntry)
      → filter_rows (has_key key) rows ≡ e ∷ []
      → e.is_approved ≡ true
      → shown_entry rows ≡ some e
  unfolding shown_entry first_row filter_rows
  shown-one [] e h a = absurd (ground arith)
  shown-one (r ∷ rows) e h a = ground (arith, shown-one rows e, shown-none rows)

  inserted :
      (value : Text) (w : World) (e : TranslationEntry)
      → (set_translation key value false w).0 ≡ ok e
      → filter_rows (has_key key) w.db.translations ≡ []
      → ((set_translation key value false w).1.db.translations ≡ w.db.translations ++ e ∷ [])
        × (has_key key e ≡ true)
        × (e.value ≡ value)
        × (e.is_approved ≡ true)
  unfolding set_translation write_entry insert_translation
  inserted value w e h m = (
    ground arith,
    ground (
      arith,
      eq_text_refl key.locale,
      eq_text_refl key.field_name,
      eq_content_type_refl key.content_type,
    ),
    ground arith,
    ground arith,
  )

  overwritten :
      (value : Text) (w : World) (e a : TranslationEntry)
      → (set_translation key value false w).0 ≡ ok e
      → filter_rows (has_key key) w.db.translations ≡ a ∷ []
      → ((set_translation key value false w).1.db.translations
          ≡ update_rows (λ r. r.id == a.id) (with_content value false) w.db.translations)
        × (e ≡ with_content value false a)
  unfolding set_translation write_entry
  overwritten value w e a h p = (ground arith, ground arith)

  -- the only entry of the key, after a person has written it
  set_translation-only :
      (value : Text) (w : World) (e : TranslationEntry)
      → (set_translation key value false w).0 ≡ ok e
      → (filter_rows (has_key key) (set_translation key value false w).1.db.translations ≡ e ∷ [])
        × (e.value ≡ value)
        × (e.is_approved ≡ true)
  set_translation-only value w e h =
      elim (Found-cases (filter_rows (has_key key) w.db.translations)) [
        | missing m ↦
            let (rows, own, same, approved) = inserted value w e h m in
            (rw (rows, filter-append, m) (unfold filter_rows in rw own refl), same, approved)
        | one a p ↦
            let (rows, made) = overwritten value w e a h p in
            let set = with_content value false in
            (
              rw (rows, made)
                  (filter-update (has_key key) (λ r. r.id == a.id) set w.db.translations (λ r. refl)
                    ∙ ap (update_rows (λ r. r.id == a.id) set) p
                    ∙ update_one (λ r. r.id == a.id) set a (==_refl a.id)),
              rw made refl,
              rw made refl,
            )
        | many a b rest p ↦ absurd (unfold set_translation in ground arith)
      ]

  -- A text that a person writes is what a reader of the field gets in its locale, whatever the
  -- default locale is.
  pub set-then-get :
      (value default_locale : Text) (w : World) (e : TranslationEntry)
      → (set_translation key value false w).0 ≡ ok e
      → get_localized_field key.content_type key.object_id key.field_name key.locale default_locale
          (set_translation key value false w).1.db
        ≡ record { value = some value; locale = some key.locale; is_fallback = false }
  unfolding get_localized_field entries_for_entity shown_entry
  set-then-get value default_locale w e h =
      let (only, same, approved) = set_translation-only value w e h in
      let found = shown-one (set_translation key value false w).1.db.translations e only approved in
      rw (found, same) refl
