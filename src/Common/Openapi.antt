-- ===== src/Common/Openapi.antt =====
-- The response serializers that the documentation of the API names, as drf-spectacular reads them:
-- the members of an object in their order, each with its kind.
pub mod Rules
use be_py_eco.Prelude.{ℕ, ◌≡◌, ◌⊎◌, Bool, Text}
use be_py_eco.Schema.{Json, null, bool, num, str, arr, obj, Items, nil, cons, Fields, end, field}
use be_py_eco.Common.Render.{uuid_text}

mutual
  -- `UUIDField`, `CharField` and its like, `BooleanField`, `IntegerField`, `DateTimeField` (a number
  -- of microseconds here), `DictField`, `allow_null=True`, and a serializer, of one object or
  -- `many=True`
  pub data Kind : Type 0 where
    uuid chars boolean integer date_time dictionary : Kind
    nullable : Kind → Kind
    object : Members → Kind
    many : Members → Kind

  pub data Members : Type 0 where
    done : Members
    member : Text → Kind → Members → Members

-- what an object holds, by its fields
abbrev pub InObject : (Fields → Type 0) → Json → Type 0
InObject P (obj fs) = P fs
InObject P _ = ⊥

abbrev pub EachItem : (Fields → Type 0) → Items → Type 0
EachItem P nil = Unit
EachItem P (cons j xs) = InObject P j × EachItem P xs

abbrev pub InItems : (Fields → Type 0) → Json → Type 0
InItems P (arr xs) = EachItem P xs
InItems P _ = ⊥

unfoldable mutual
  -- the value is of the kind
  pub Conforms : Kind → Json → Type 0
  Conforms uuid j = (n : ℕ) × (j ≡ str (uuid_text n))
  Conforms chars j = (s : Text) × (j ≡ str s)
  Conforms boolean j = (b : Bool) × (j ≡ bool b)
  Conforms integer j = (n : ℕ) × (j ≡ num n)
  Conforms date_time j = (n : ℕ) × (j ≡ num n)
  Conforms dictionary j = (fs : Fields) × (j ≡ obj fs)
  Conforms (nullable k) j = (j ≡ null) ⊎ Conforms k j
  Conforms (object ms) j = InObject (FieldsConform ms) j
  Conforms (many ms) j = InItems (FieldsConform ms) j

  -- exactly these members
  pub FieldsConform : Members → Fields → Type 0
  FieldsConform done end = Unit
  FieldsConform (member name k ms) (field key j fs) =
      (key ≡ name) × Conforms k j × FieldsConform ms fs
  FieldsConform _ _ = ⊥
