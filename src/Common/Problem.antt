-- ===== src/Common/Problem.antt =====
-- src/common/api/exceptions.py: the `errors` list of a Problem Details body, from the tree of an
-- exception's details.
pub mod Handler
use be_py_eco.Prelude.{
  ℕ, suc, Bool, true, false, ◌&&◌, ◌||◌, Option, none, some, List, [], ◌∷◌, ◌++◌, if◌then◌else◌,
  Text, codes, eq_text, is_empty,
}
use be_py_eco.Schema.{Json, null, bool, num, str, arr, obj, Items, nil, cons, Fields, end, field}
use be_py_eco.Common.Render.{dumps, decimal}

pub record FieldError : Type 0 where
  pub path : Text
  pub code : Text
  pub message : Text

abbrev message_key : Text
message_key = codes "message"

abbrev code_key : Text
code_key = codes "code"

-- `key in node`
unfoldable pub has_key : Text → Fields → Bool
has_key key end = false
has_key key (field k j fs) = eq_text k key || has_key key fs

-- `node[key]`, `node.get(key)`
unfoldable pub get_key : Text → Fields → Option Json
get_key key end = none
get_key key (field k j fs) = if eq_text k key then some j else get_key key fs

-- `set(node) <= {"message", "code"}`
unfoldable pub only_leaf_keys : Fields → Bool
only_leaf_keys end = true
only_leaf_keys (field k j fs) = (eq_text k message_key || eq_text k code_key) && only_leaf_keys fs

unfoldable pub is_leaf : Json → Bool
unfolding has_key only_leaf_keys
is_leaf (obj fs) = has_key message_key fs && only_leaf_keys fs
is_leaf _ = false

-- `str(j)`: a text is itself; the details hold texts at the leaves
abbrev text_of : Json → Text
text_of (str s) = s
text_of j = dumps j

abbrev text_or : Text → Option Json → Text
text_or other none = other
text_or other (some j) = text_of j

-- `f"{prefix}.{field}" if prefix and field else (field or prefix)`
unfoldable pub join_path : Text → Text → Text
join_path prefix name =
    if is_empty prefix then name else if is_empty name then prefix else prefix ++ (46 ∷ name)

-- `"" if key == NON_FIELD_ERRORS_KEY else key`
unfoldable pub field_name_of : Text → Text
field_name_of key = if eq_text key (codes "non_field_errors") then [] else key

unfoldable pub leaf_error : Text → Fields → FieldError
leaf_error prefix fs = record {
  path = prefix;
  code = text_or (codes "invalid") (get_key code_key fs);
  message = text_or [] (get_key message_key fs);
}

unfoldable mutual
  unfolding is_leaf leaf_error join_path field_name_of

  -- `_flatten_full_details(node, prefix)`
  pub flatten_full_details : Json → Text → List FieldError
  flatten_full_details (obj fs) prefix =
      let below = flatten_fields fs prefix in
      if is_leaf (obj fs) then leaf_error prefix fs ∷ [] else below
  flatten_full_details (arr xs) prefix = flatten_items xs prefix 0
  flatten_full_details null prefix =
      record { path = prefix; code = codes "invalid"; message = codes "None" } ∷ []
  flatten_full_details (bool b) prefix =
      record {
        path = prefix;
        code = codes "invalid";
        message = if b then codes "True" else codes "False";
      }
      ∷ []
  flatten_full_details (num n) prefix =
      record { path = prefix; code = codes "invalid"; message = decimal n } ∷ []
  flatten_full_details (str s) prefix =
      record { path = prefix; code = codes "invalid"; message = s } ∷ []

  pub flatten_fields : Fields → Text → List FieldError
  flatten_fields end prefix = []
  flatten_fields (field k j fs) prefix =
      flatten_full_details j (join_path prefix (field_name_of k)) ++ flatten_fields fs prefix

  pub flatten_items : Items → Text → ℕ → List FieldError
  flatten_items nil prefix index = []
  flatten_items (cons j xs) prefix index =
      flatten_full_details j (join_path prefix (decimal index))
      ++ flatten_items xs prefix (suc index)

-- the parts of the body that depend on the details
pub record Problem : Type 0 where
  pub code : Text
  pub errors : List FieldError

abbrev problem_of : Text → List FieldError → Problem
problem_of default_code (e ∷ []) =
    if is_empty e.path
    then record { code = e.code; errors = [] }
    else record { code = default_code; errors = e ∷ [] }
problem_of default_code errors = record { code = default_code; errors = errors }

-- `exception_handler`, for an `APIException` with this default code and these full details
unfoldable pub problem : Text → Json → Problem
problem default_code details = problem_of default_code (flatten_full_details details [])
