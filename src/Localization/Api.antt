-- ===== src/Localization/Api.antt =====
-- src/modules/localization/api/storefront/views.py
use be_py_eco.Prelude.{Text, codes}
use be_py_eco.Schema.{Json, str, obj, end, field}
use be_py_eco.World.{Action, pure, ◌>>=◌}
use be_py_eco.Common.Idempotency.{Response}
use be_py_eco.Common.Http.{Request, data_response}
use be_py_eco.Localization.{LocaleSuggestion, suggest_locale}

abbrev pub suggestion_representation : LocaleSuggestion → Json
suggestion_representation s = obj (
    field (codes "country_code") (str s.country_code)
      (field (codes "locale") (str s.locale) (field (codes "currency") (str s.currency) end)))

-- `LocaleSuggestionView.get`, with the header `Accept-Language`
unfoldable pub locale_suggestion_view : Text → Request → Action Response
locale_suggestion_view accept_language request = do
  suggestion ← suggest_locale accept_language
  pure (data_response 200 (suggestion_representation suggestion) request)
