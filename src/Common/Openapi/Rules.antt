-- ===== src/Common/Openapi/Rules.antt =====
-- How a value is of a kind, from its parts.
use be_py_eco.Prelude.{ℕ, refl, Bool, Text}
use be_py_eco.Schema.{Json, bool, num, str, obj, Fields, end, field}
use be_py_eco.Common.Render.{uuid_text}
use be_py_eco.Common.Openapi.{
  Kind, uuid, chars, boolean, date_time, dictionary, object, Members, done, member, Conforms,
  FieldsConform,
}

pub Conforms-uuid : (n : ℕ) → Conforms uuid (str (uuid_text n))
unfolding Conforms
Conforms-uuid n = (n, refl)

pub Conforms-chars : (s : Text) → Conforms chars (str s)
unfolding Conforms
Conforms-chars s = (s, refl)

pub Conforms-boolean : (b : Bool) → Conforms boolean (bool b)
unfolding Conforms
Conforms-boolean b = (b, refl)

pub Conforms-date_time : (n : ℕ) → Conforms date_time (num n)
unfolding Conforms
Conforms-date_time n = (n, refl)

pub Conforms-dictionary : (fs : Fields) → Conforms dictionary (obj fs)
unfolding Conforms
Conforms-dictionary fs = (fs, refl)

pub Conforms-object :
    (ms : Members) (fs : Fields) → FieldsConform ms fs → Conforms (object ms) (obj fs)
unfolding Conforms
Conforms-object ms fs c = c

pub FieldsConform-done : FieldsConform done end
unfolding FieldsConform
FieldsConform-done = tt

pub FieldsConform-member :
    (name : Text) (k : Kind) (ms : Members) (j : Json) (fs : Fields)
    → Conforms k j
    → FieldsConform ms fs
    → FieldsConform (member name k ms) (field name j fs)
unfolding FieldsConform
FieldsConform-member name k ms j fs c cs = (refl, c, cs)

pub ruleset kind_rules = (
  Conforms-uuid, Conforms-chars, Conforms-boolean, Conforms-date_time, Conforms-dictionary,
  Conforms-object, FieldsConform-done, FieldsConform-member,
)
