-- ===== src/Tests/Content.antt =====
-- Runs of the translation, media, localization and common services.
use be_py_eco.Common.Render.{dumps, uuid_text}
use be_py_eco.Media.Ready.{validate_upload-ready}
use be_py_eco.Localization.Choices.{resolve_locale-supported}
use be_py_eco.Translation.Visibility.{get_localized_field_lem, shown}
use be_py_eco.Localization.{storefront_locales}
use be_py_eco.Localization.{resolve_locale}
use be_py_eco.Audit.{write_audit_log}
use be_py_eco.Audit.Redaction.{write_audit_log-redacted, KeepsOthers, NoSecrets}
use be_py_eco.Config.Settings.{Environ, Settings}
use be_py_eco.Schema.{str, AuditLogEntry}
use be_py_eco.Common.Uuid7.Order.{uuid7_time_order, earlier_bytes}
use be_py_eco.Common.Uuid7.{uuid7_bytes}
use be_py_eco.Common.Uuid7.{RandomBytes}
use be_py_eco.Media.{clean, generate_derivatives, scan_bytes, valid, read_file, validate_bytes}
use be_py_eco.Media.{validate_upload}
use be_py_eco.Media.{Bytes}
use be_py_eco.Media.{MediaServices}
use be_py_eco.Translation.RoundTrip.{set-then-get}
use be_py_eco.Translation.{TranslationKey, set_translation}
use be_py_eco.Translation.{get_localized_field}
use be_py_eco.Prelude.{
  ◌≡◌, refl, true, false, none, some, [], ◌∷◌, arith, if◌then◌else◌, codes, eq_text, in_texts,
  lower, filter_rows, exists_row, update_rows,
}
use be_py_eco.Errors.{idempotency, idempotency_key_conflict}
use be_py_eco.Schema.{
  end, num, field, MediaUploadStatus, product_type, Fields, MediaUpload, TranslationEntry, bool,
  null,
}
use be_py_eco.World.{World, ok, err, pure}
use be_py_eco.Tests.Samples.{world, empty, services}
use be_py_eco.Tests.Catalog.{shop}
use be_py_eco.Common.Idempotency.RunOnce.{run_once_replays, run_once_conflict}
use be_py_eco.Common.Idempotency.{
  hash_request, store_response, get_cached_response, KeyScope, Response, run_once,
}

abbrev scope : KeyScope
scope = record { actor_type = 1 ∷ []; actor_id = 2 ∷ []; action = 3 ∷ []; idempotency_key = 4 ∷ [] }

abbrev answer : Response
answer = record { status = 201; body = null }

abbrev other_answer : Response
other_answer = record { status = 500; body = null }

abbrev after_first : World
after_first = (run_once services scope null (pure answer) (world empty)).1

run_once_replays_example :
    ((run_once services scope null (pure other_answer) after_first).0 ≡ ok answer)
    × ((run_once services scope null (pure other_answer) after_first).1.db ≡ after_first.db)
unfolding exists_row run_once get_cached_response filter_rows store_response
run_once_replays_example =
    run_once_replays services scope null (pure answer) (pure other_answer) (world empty) after_first
      answer refl refl refl refl (unfold run_once in omega arith)

run_once_conflict_example :
    (run_once services scope (bool true) (pure other_answer) after_first).0
    ≡ err (idempotency idempotency_key_conflict)
unfolding exists_row run_once get_cached_response filter_rows store_response eq_text hash_request
    dumps
run_once_conflict_example =
    run_once_conflict services scope null (bool true) (pure answer) (pure other_answer)
      (world empty) after_first answer refl refl refl refl (unfold run_once in omega arith) refl

get_localized_field_lem_example :
    get_localized_field product_type 1 (codes "name") (codes "en") (codes "vi") shop
    ≡ shown product_type 1 (codes "name") (codes "en") (codes "vi") shop.translations
get_localized_field_lem_example =
    get_localized_field_lem product_type 1 (codes "name") (codes "en") (codes "vi") shop

abbrev name_key : TranslationKey
name_key = record {
  content_type = product_type;
  object_id = 1;
  locale = codes "en";
  field_name = codes "name";
}

abbrev pub media_services : MediaServices
media_services = record {
  guess_mime = λ b. some (codes "image/png");
  decodes = λ b. true;
  instream = λ b. some (codes "OK", none);
  convert_rgb = λ b. some (record { width = 1; height = 1; pixels = b });
  save_as = λ format image. some image.pixels;
  thumbnail = λ size image. image;
  available_name = λ files name. name;
}

abbrev upload : MediaUpload
upload = record {
  id = 1;
  status = MediaUploadStatus.pending;
  storage_key = 5 ∷ [];
  declared_content_type = codes "image/png";
  declared_size_bytes = 2;
  rejection_reason = [];
  webp_key = [];
  avif_key = [];
  thumbnail_key = [];
  product = none;
}

abbrev uploaded : World
uploaded = record (world (record empty { media_uploads = upload ∷ [] })) {
  files = (5 ∷ [], 1 ∷ 2 ∷ []) ∷ [];
}

abbrev ready_upload : MediaUpload
ready_upload = record upload {
  status = MediaUploadStatus.ready;
  webp_key = codes "products/00000000-0000-0000-0000-000000000001.webp";
  avif_key = codes "products/00000000-0000-0000-0000-000000000001.avif";
  thumbnail_key = codes "products/00000000-0000-0000-0000-000000000001-thumb.webp";
}

validate_upload-ready_example :
    (bytes : Bytes) × ((read_file (5 ∷ []) uploaded.files ≡ some bytes)
      × (validate_bytes media_services bytes 2 (codes "image/png") ≡ valid)
      × (scan_bytes media_services bytes ≡ clean))
unfolding filter_rows validate_upload read_file eq_text validate_bytes in_texts scan_bytes
    update_rows uuid_text generate_derivatives
validate_upload-ready_example =
    validate_upload-ready media_services 1 uploaded upload ready_upload refl refl refl refl

abbrev random : RandomBytes
random = record { r0 = 255; r1 = 0; r2 = 255; tail = 1 ∷ 2 ∷ 3 ∷ 4 ∷ 5 ∷ 6 ∷ 7 ∷ [] }

uuid7_time_order_example :
    earlier_bytes
      (0 ∷ 0 ∷ 0 ∷ 0 ∷ 0 ∷ 5 ∷ 127 ∷ 0 ∷ 191 ∷ 1 ∷ 2 ∷ 3 ∷ 4 ∷ 5 ∷ 6 ∷ 7 ∷ [])
      (0 ∷ 0 ∷ 0 ∷ 0 ∷ 1 ∷ 0 ∷ 127 ∷ 0 ∷ 191 ∷ 1 ∷ 2 ∷ 3 ∷ 4 ∷ 5 ∷ 6 ∷ 7 ∷ [])
    ≡ true
unfolding uuid7_bytes
uuid7_time_order_example =
    uuid7_time_order 5 256 random random
      (0 ∷ 0 ∷ 0 ∷ 0 ∷ 0 ∷ 5 ∷ 127 ∷ 0 ∷ 191 ∷ 1 ∷ 2 ∷ 3 ∷ 4 ∷ 5 ∷ 6 ∷ 7 ∷ [])
      (0 ∷ 0 ∷ 0 ∷ 0 ∷ 1 ∷ 0 ∷ 127 ∷ 0 ∷ 191 ∷ 1 ∷ 2 ∷ 3 ∷ 4 ∷ 5 ∷ 6 ∷ 7 ∷ []) (omega arith) refl
      refl

abbrev secret_fields : Fields
secret_fields = field (codes "Password") (num 1) (field (codes "email") (num 2) end)

abbrev logged : AuditLogEntry
logged = record {
  id = 100;
  actor_type = codes "staff";
  actor_id = uuid_text 5;
  action = codes "reset";
  resource_type = codes "staff";
  resource_id = uuid_text 6;
  before = end;
  after = field (codes "Password") (str (codes "<redacted>")) (field (codes "email") (num 2) end);
  reason = codes "lost";
  ip_address = none;
  request_id = [];
}

write_audit_log-redacted_example :
    ((write_audit_log
        (codes "staff")
        (uuid_text 5)
        (codes "reset")
        (codes "staff")
        (uuid_text 6)
        end
        secret_fields
        (codes "lost")
        none
        []
        (world empty)).1.db
      ≡ record empty { audit_log = logged ∷ [] })
    × (NoSecrets end × KeepsOthers end end)
    × (NoSecrets logged.after × KeepsOthers secret_fields logged.after)
unfolding write_audit_log exists_row in_texts eq_text lower
write_audit_log-redacted_example =
    write_audit_log-redacted (codes "staff") (uuid_text 5) (codes "reset") (codes "staff")
      (uuid_text 6) end secret_fields (codes "lost") none [] (world empty) logged refl

abbrev environ : Environ
environ = record {
  variable = λ name. if eq_text name (codes "DEBUG") then none else some name;
  as_bool = λ t. none;
  as_list = λ t. t ∷ [];
  as_db_url = λ t. some ((codes "NAME", t) ∷ []);
}

resolve_locale-supported_example :
    in_texts (resolve_locale (codes "en-US,en;q=0.9")) storefront_locales ≡ true
resolve_locale-supported_example = resolve_locale-supported (codes "en-US,en;q=0.9")

abbrev written : TranslationEntry
written = record {
  id = 100;
  content_type = name_key.content_type;
  object_id = name_key.object_id;
  locale = name_key.locale;
  field_name = name_key.field_name;
  value = 65 ∷ [];
  is_ai_generated = false;
  is_approved = true;
}

set-then-get_example :
    get_localized_field name_key.content_type name_key.object_id name_key.field_name name_key.locale
      (codes "en")
      (set_translation name_key (65 ∷ []) false (world empty)).1.db
    ≡ record { value = some (65 ∷ []); locale = some name_key.locale; is_fallback = false }
unfolding set_translation filter_rows exists_row
set-then-get_example = set-then-get name_key (65 ∷ []) (codes "en") (world empty) written refl
