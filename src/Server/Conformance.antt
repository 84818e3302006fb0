-- ===== src/Server/Conformance.antt =====
-- What the views put under `data` is of the kind that the documentation says.
use be_py_eco.Prelude.{ℕ, refl, inl, inr, Option, none, some, List, [], ◌∷◌, Text}
use be_py_eco.Schema.{arr, Customer, Session, Category}
use be_py_eco.Common.Openapi.{object, many, nullable, chars, uuid, integer, Conforms}
use be_py_eco.Common.Openapi.Rules.{kind_rules}
use be_py_eco.Accounts.Api.Storefront.{
  customer_representation, token_pair, session_representation, session_items,
}
use be_py_eco.Translation.{LocalizedField}
use be_py_eco.Catalog.Storefront.{StorefrontProduct}
use be_py_eco.Catalog.Api.{
  product_representation, product_items, category_representation, text_or_null, num_or_null,
  id_or_null,
}
use be_py_eco.Localization.{LocaleSuggestion}
use be_py_eco.Localization.Api.{suggestion_representation}
use be_py_eco.Media.Upload.{UploadCredential}
use be_py_eco.Media.Api.{credential_representation}
use be_py_eco.Server.Documentation.{
  customer_members, token_members, session_members, category_detail_members,
  product_storefront_members, locale_suggestion_members, upload_credential_members,
}

text-Conforms : (o : Option Text) → Conforms (nullable chars) (text_or_null o)
unfolding Conforms
text-Conforms none = inl refl
text-Conforms (some t) = inr (t, refl)

number-Conforms : (o : Option ℕ) → Conforms (nullable integer) (num_or_null o)
unfolding Conforms
number-Conforms none = inl refl
number-Conforms (some n) = inr (n, refl)

id-Conforms : (o : Option ℕ) → Conforms (nullable uuid) (id_or_null o)
unfolding Conforms
id-Conforms none = inl refl
id-Conforms (some n) = inr (n, refl)

ruleset value_rules = (kind_rules, text-Conforms, number-Conforms, id-Conforms)

pub customer-Conforms :
    (c : Customer) → Conforms (object customer_members) (customer_representation c)
customer-Conforms c = search value_rules depth 30

pub tokens-Conforms :
    (access refresh : Text) → Conforms (object token_members) (token_pair access refresh)
tokens-Conforms access refresh = search value_rules depth 30

session-Conforms : (s : Session) → Conforms (object session_members) (session_representation s)
session-Conforms s = search value_rules depth 30

pub sessions-Conforms :
    (rows : List Session) → Conforms (many session_members) (arr (session_items rows))
unfolding session_items Conforms
sessions-Conforms [] = tt
sessions-Conforms (s ∷ rows) = (session-Conforms s, sessions-Conforms rows)

pub product-Conforms :
    (p : StorefrontProduct)
    → Conforms (object product_storefront_members) (product_representation p)
product-Conforms p = search value_rules depth 30

pub products-Conforms :
    (ps : List StorefrontProduct)
    → Conforms (many product_storefront_members) (arr (product_items ps))
unfolding product_items Conforms
products-Conforms [] = tt
products-Conforms (p ∷ ps) = (product-Conforms p, products-Conforms ps)

pub category-Conforms :
    (c : Category) (name : LocalizedField)
    → Conforms (object category_detail_members) (category_representation c name)
category-Conforms c name = search value_rules depth 30

pub suggestion-Conforms :
    (s : LocaleSuggestion)
    → Conforms (object locale_suggestion_members) (suggestion_representation s)
suggestion-Conforms s = search value_rules depth 30

pub credential-Conforms :
    (c : UploadCredential)
    → Conforms (object upload_credential_members) (credential_representation c)
credential-Conforms c = search value_rules depth 30

pub ruleset conform_rules = (
  kind_rules, customer-Conforms, tokens-Conforms, sessions-Conforms, product-Conforms,
  products-Conforms, category-Conforms, suggestion-Conforms, credential-Conforms,
)
