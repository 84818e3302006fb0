-- ===== src/Tests/Framework.antt =====
-- A concrete framework, and requests of the sample accounts.
use be_py_eco.Prelude.{
  ℕ, ◌≤◌, ◌≡◌, refl, true, false, ◌&&◌, Option, none, some, List, [], ◌∷◌, arith, leb,
  if◌then◌else◌, Text, codes, is_empty, in_texts,
}
use be_py_eco.Schema.{Json, null, num, str, obj, end, field}
use be_py_eco.Common.Http.{Credentials, bearer, Framework, Request}

unfoldable pub text_field : Json → Option Text
text_field (str s) = if is_empty s then none else some s
text_field _ = none

unfoldable pub choice : List Text → Json → Option Text
choice choices (str s) = if in_texts s choices then some s else none
choice choices _ = none

unfoldable pub integer : ℕ → ℕ → Json → Option ℕ
integer low high (num n) = if leb low n && leb n high then some n else none
integer low high _ = none

unfoldable pub string_of : Json → Text
string_of (str s) = s
string_of _ = []

pub text_field_filled : (j : Json) (s : Text) → text_field j ≡ some s → is_empty s ≡ false
unfolding text_field
text_field_filled (str t) s h = ground arith
text_field_filled null s h = absurd (ground arith)
text_field_filled (Json.bool b) s h = absurd (ground arith)
text_field_filled (num n) s h = absurd (ground arith)
text_field_filled (Json.arr xs) s h = absurd (ground arith)
text_field_filled (obj fs) s h = absurd (ground arith)

pub choice_chosen :
    (choices : List Text) (j : Json) (s : Text)
    → choice choices j ≡ some s
    → in_texts s choices ≡ true
unfolding choice
choice_chosen choices (str t) s h = ground arith
choice_chosen choices null s h = absurd (ground arith)
choice_chosen choices (Json.bool b) s h = absurd (ground arith)
choice_chosen choices (num n) s h = absurd (ground arith)
choice_chosen choices (Json.arr xs) s h = absurd (ground arith)
choice_chosen choices (obj fs) s h = absurd (ground arith)

pub integer_bounds :
    (low high : ℕ) (j : Json) (n : ℕ) → integer low high j ≡ some n → (low ≤ n) × (n ≤ high)
unfolding integer
integer_bounds low high (num m) n h = ground arith
integer_bounds low high null n h = absurd (ground arith)
integer_bounds low high (Json.bool b) n h = absurd (ground arith)
integer_bounds low high (str s) n h = absurd (ground arith)
integer_bounds low high (Json.arr xs) n h = absurd (ground arith)
integer_bounds low high (obj fs) n h = absurd (ground arith)

pub string_of_text : (s : Text) → string_of (str s) ≡ s
unfolding string_of
string_of_text s = refl

abbrev pub framework : Framework
framework = record {
  char_field = λ trim. text_field;
  char_field_filled = λ trim. text_field_filled;
  email_field = text_field;
  choice_field = choice;
  choice_field_chosen = choice_chosen;
  integer_field = integer;
  integer_field_bounds = integer_bounds;
  password_is_valid = λ p. true;
  str_of = string_of;
  str_of_text = string_of_text;
  b32encode_hex = λ key. key;
}

abbrev pub request_of : Credentials → Json → Request
request_of credentials body = record {
  meta = record { remote_addr = none; x_forwarded_for = none; id = none };
  credentials = credentials;
  idempotency_key = some (1 ∷ []);
  body = body;
}

abbrev pub as_ann : Credentials
as_ann = bearer (some (codes "customer")) 1

abbrev pub as_carol : Credentials
as_carol = bearer (some (codes "staff")) 5

abbrev pub register_body : Json
register_body =
    obj (field (codes "email") (str (97 ∷ [])) (field (codes "password") (str (7 ∷ [])) end))
