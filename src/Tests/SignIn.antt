-- ===== src/Tests/SignIn.antt =====
-- Signing in, sessions, uploads and the storefront.
use be_py_eco.Common.Problem.{get_key}
use be_py_eco.Accounts.Mfa.{has_confirmed_mfa}
use be_py_eco.Common.Permissions.{has_permission, check_policy}
use be_py_eco.Accounts.Tokens.{find_token}
use be_py_eco.Accounts.Tokens.{normalize_email}
use be_py_eco.Prelude.{
  ℕ, ◌≤◌, ◌≡◌, refl, ◌↔◌, Bool, true, ◌&&◌, none, some, List, [], ◌∷◌, ◌++◌, map, arith, ◌==◌,
  if◌then◌else◌, Text, codes, eq_text, in_texts, strip, filter_rows, exists_row, first_row,
  update_rows, All,
}
use be_py_eco.Schema.{end, Session, password_reset, num, null, str, obj, field}
use be_py_eco.World.{World, GoogleProfile, ok, err}
use be_py_eco.Common.Http.{anonymous, empty_response}
use be_py_eco.Common.Idempotency.{store_response, get_cached_response, run_once, Response}
use be_py_eco.Integrations.GoogleOauth.{accepted, verify_id_token}
use be_py_eco.Integrations.GoogleOauth.Judged.{verify_id_token-accepted_iff, IssuedFor}
use be_py_eco.Accounts.Register.{new_customer, register_customer}
use be_py_eco.Accounts.Password.{confirm_password_reset}
use be_py_eco.Accounts.Login.{login_customer}
use be_py_eco.Accounts.Login.Passwords.{SignedIn, register-then-login}
use be_py_eco.Accounts.Login.Reset.{reset-then-login}
use be_py_eco.Accounts.StaffActions.{disable_customer, disable_customer_view}
use be_py_eco.Accounts.StaffActions.Replay.{disable_customer_replayed}
use be_py_eco.Accounts.Sessions.Rotation.{issued_session}
use be_py_eco.Accounts.Sessions.Race.{
  rotate_at_once, rotate_at_once-both, first_closing, second_closing, next_tokens,
}
use be_py_eco.Catalog.Api.{product_list_get, product_detail_get}
use be_py_eco.Catalog.Api.Access.{storefront_credentials, is_stale}
use be_py_eco.Catalog.Storefront.{StorefrontProduct, product_list_view}
use be_py_eco.Catalog.Storefront.Listing.{
  product_list_view_lem, SortedByTime, count, is_published, ShownOnItsPage,
}
use be_py_eco.Media.Api.{upload_form, request_upload_view}
use be_py_eco.Media.Api.Bounds.{request_upload_view-ok}
use be_py_eco.Schema.{ProductStatus, active, draft, Staff, Product, MediaUpload, pending, Json}
use be_py_eco.World.{Result}
use be_py_eco.Errors.{token_not_valid}
use be_py_eco.Common.Http.{Request, data_response}
use be_py_eco.Common.Http.Guards.{actor_of}
use be_py_eco.Common.Render.{uuid_text}
use be_py_eco.Common.Authentication.{get_user, staff_actor}
use be_py_eco.Media.Upload.{request_upload, ObjectStorage, new_upload, quarantine_prefix}
use be_py_eco.Media.Api.{credential_representation}
use be_py_eco.Media.Api.Bounds.{credential_for}
use be_py_eco.Accounts.Sessions.{session_of_token, revoke}
use be_py_eco.Tests.Samples.{
  shifted, unshifted, decode, services, empty, world, ann, carol, signed_in, staffed, with_token,
  ann_claims, encode,
}
use be_py_eco.Tests.Framework.{integer, text_field, framework, request_of, as_carol}

abbrev registered : World
registered = (register_customer services (97 ∷ []) (7 ∷ []) (world empty)).1

register-then-login_example :
    SignedIn services
      (new_customer 100 (97 ∷ []) none)
      registered
      (login_customer services (97 ∷ []) (7 ∷ []) registered).0
unfolding register_customer exists_row normalize_email
register-then-login_example =
    register-then-login services (97 ∷ []) (7 ∷ []) (501 ∷ []) (world empty) registered
      (new_customer 100 (97 ∷ []) none) refl refl refl

abbrev reset : World
reset = (confirm_password_reset services (42 ∷ []) (7 ∷ []) (world (with_token password_reset))).1

reset-then-login_example :
    SignedIn services ann reset (login_customer services (97 ∷ []) (7 ∷ []) reset).0
unfolding confirm_password_reset find_token filter_rows eq_text exists_row normalize_email
reset-then-login_example =
    reset-then-login services (42 ∷ []) (97 ∷ []) (7 ∷ []) (world (with_token password_reset)) reset
      ann refl refl refl refl

disable_customer_replayed_example :
    let w' =
      (disable_customer_view services
        (λ body. some (65 ∷ []))
        carol
        1
        (request_of as_carol null)
        (world staffed)).1 in
    ((disable_customer_view services
        (λ body. some (65 ∷ []))
        carol
        2
        (request_of as_carol null)
        w').0
      ≡ ok (empty_response 204))
    × ((disable_customer_view services
          (λ body. some (65 ∷ []))
          carol
          2
          (request_of as_carol null)
          w').1.db
        ≡ w'.db)
unfolding disable_customer_view exists_row check_policy has_permission in_texts eq_text
    has_confirmed_mfa run_once get_cached_response filter_rows disable_customer strip store_response
disable_customer_replayed_example =
    disable_customer_replayed services (1 ∷ []) carol (request_of as_carol null) refl
      (λ body. some (65 ∷ [])) 1 2 (world staffed)
      (disable_customer_view services (λ body. some (65 ∷ [])) carol 1 (request_of as_carol null)
        (world staffed)).1
      (empty_response 204) refl refl refl (omega arith)

abbrev the_session : Session
the_session = record {
  id = 4;
  created_at = 1;
  customer = 1;
  refresh_token_hash = 9 ∷ [];
  expires_at = 2000;
  revoked_at = none;
}

abbrev first_world : World
first_world = first_closing services the_session (world signed_in)

abbrev second_world : World
second_world = second_closing services the_session ann (world signed_in)

rotate_at_once-both_example :
    ((rotate_at_once services (encode ann_claims) (world signed_in)).0
      ≡ (ok (next_tokens services ann first_world), ok (next_tokens services ann second_world)))
    × ((rotate_at_once services (encode ann_claims) (world signed_in)).1.db.sessions
        ≡ update_rows
            (λ r. r.id == 4)
            (revoke 18)
            (update_rows (λ r. r.id == 4) (revoke 14) (the_session ∷ [])
              ++ issued_session services ann first_world ∷ [])
          ++ issued_session services ann second_world ∷ [])
unfolding session_of_token decode eq_text unshifted shifted filter_rows exists_row update_rows
    issued_session
rotate_at_once-both_example =
    rotate_at_once-both services (encode ann_claims) (world signed_in) the_session ann refl refl
      refl refl

abbrev ann_profile : GoogleProfile
ann_profile = record { subject_id = 7 ∷ []; email = 97 ∷ []; email_verified = true }

verify_id_token-accepted_iff_example :
    (verify_id_token services (2 ∷ []) ≡ accepted ann_profile) ↔ (
      (payload : List (Text × Text)) × (services.tokeninfo (2 ∷ []) ≡ some (200, payload))
      × IssuedFor services.google_client_id payload ann_profile)
verify_id_token-accepted_iff_example = verify_id_token-accepted_iff services (2 ∷ []) ann_profile

abbrev pub storage : ObjectStorage
storage = record { bucket_name = 8 ∷ []; generate_presigned_post = λ p. (p.key, end) }

abbrev upload_body : Json
upload_body = obj (
    field (codes "content_type") (str (codes "image/png"))
      (field (codes "size_bytes") (num 1000) end))

abbrev upload_request : Request
upload_request = request_of as_carol upload_body

abbrev upload_response : Response
upload_response =
    data_response 200
      (credential_representation (
        credential_for framework storage upload_request (world staffed)
          (new_upload 101 100 (codes "image/png") 1000)))
      upload_request

request_upload_view-ok_example :
    (s : Staff) × (m : MediaUpload) × (actor_of as_carol staffed ≡ some (staff_actor s))
    × (m.status ≡ pending)
    × (m.storage_key ≡ quarantine_prefix ++ uuid_text 100)
    × (1 ≤ m.declared_size_bytes)
    × (m.declared_size_bytes ≤ 26214400)
    × ((request_upload_view framework storage upload_request (world staffed)).1.db
        ≡ record staffed { media_uploads = m ∷ [] })
    × (upload_response
        ≡ data_response 200
            (credential_representation
              (credential_for framework storage upload_request (world staffed) m))
            upload_request)
unfolding request_upload_view get_user eq_text first_row upload_form get_key text_field integer
    request_upload exists_row credential_for
request_upload_view-ok_example =
    request_upload_view-ok framework storage upload_request (world staffed) upload_response refl

storefront_credentials_example :
    let refused = λ (answer : Result (Response × Text) × World).
      if is_stale as_carol (world signed_in)
      then (err token_not_valid, world signed_in)
      else answer in
    (product_list_get [] (request_of as_carol null) (world signed_in)
      ≡ refused (product_list_get [] (request_of anonymous null) (world signed_in)))
    × (product_detail_get 9 [] (request_of as_carol null) (world signed_in)
        ≡ refused (product_detail_get 9 [] (request_of anonymous null) (world signed_in)))
storefront_credentials_example =
    storefront_credentials 9 [] (request_of as_carol null) (world signed_in)

abbrev product_at : ℕ → ℕ → ProductStatus → Product
product_at id created_at status = record {
  id = id;
  created_at = created_at;
  status = status;
  brand = none;
  primary_category = 1;
}

-- two products that are published, the newer one first in the table, and one that is not
abbrev stocked : World
stocked = world (record empty {
  products = product_at 2 5 active ∷ product_at 3 4 draft ∷ product_at 1 3 active ∷ [];
})

product_list_view_lem_example :
    (items : List StorefrontProduct) × (last : Text) × (listed : List Product) × (product_list_view
        (codes "vi")
        stocked
      ≡ (ok (items, last), stocked))
    × (map (λ i. i.id) items ≡ map (λ p. p.id) listed)
    × SortedByTime listed
    × ((b : Product → Bool)
        → count b listed ≡ count (λ p. is_published p.status && b p) stocked.db.products)
    × All (ShownOnItsPage (codes "vi") stocked) items
unfolding exists_row
product_list_view_lem_example =
    product_list_view_lem (codes "vi") stocked (refl, (refl, (refl, tt)))
