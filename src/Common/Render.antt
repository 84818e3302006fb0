-- ===== src/Common/Render.antt =====
-- Renderings of Python's standard library that the sources store or hash: `str(uuid)` and
-- `json.dumps(…, sort_keys=True)`.
use be_py_eco.Prelude.{
  ℕ, zero, suc, ◌+◌, ◌-◌, ◌/◌, ◌%◌, ◌^◌, Bool, true, false, ◌&&◌, ◌||◌, List, [], ◌∷◌, ◌++◌, ltb,
  leb, ◌==◌, if◌then◌else◌, Text, codes,
}
use be_py_eco.Schema.{Json, null, bool, num, str, arr, obj, Items, nil, cons, Fields, end, field}

abbrev pub hex_digit : ℕ → ℕ
hex_digit d = if ltb d 10 then 48 + d else 87 + d

-- the last `k` hexadecimal digits of `n`
unfoldable pub hex : ℕ → ℕ → Text
hex zero n = []
hex (suc k) n = hex k (n / 16) ++ hex_digit (n % 16) ∷ []

abbrev pub dash : ℕ
dash = 45

-- `str(uuid.UUID(int=n))`
unfoldable pub uuid_text : ℕ → Text
unfolding hex
uuid_text n =
    hex 8 (n / 16 ^ 24)
    ++ (dash ∷ hex 4 (n / 16 ^ 20))
    ++ (dash ∷ hex 4 (n / 16 ^ 16))
    ++ (dash ∷ hex 4 (n / 16 ^ 12))
    ++ (dash ∷ hex 12 n)

-- `str(n)`, with fuel for the number of digits
decimal_from : ℕ → ℕ → Text → Text
decimal_from zero n acc = acc
decimal_from (suc fuel) n acc =
    let more = decimal_from fuel (n / 10) ((48 + n % 10) ∷ acc) in if n == 0 then acc else more

unfoldable pub decimal : ℕ → Text
unfolding decimal_from
decimal n = if n == 0 then 48 ∷ [] else decimal_from n n []

abbrev unicode_escape : ℕ → Text
unicode_escape c = 92 ∷ 117 ∷ hex 4 c

-- `ensure_ascii` writes what lies beyond the Basic Multilingual Plane as a surrogate pair.
abbrev wide_escape : ℕ → Text
wide_escape c =
    if ltb c 65536
    then unicode_escape c
    else unicode_escape (55296 + (c - 65536) / 1024) ++ unicode_escape (56320 + (c - 65536) % 1024)

unfoldable pub escape_char : ℕ → Text
unfolding hex
escape_char c =
    if c == 34 || c == 92
    then 92 ∷ c ∷ []
    else if c == 10
    then codes "\\n"
    else if c == 13
    then codes "\\r"
    else if c == 9
    then codes "\\t"
    else if c == 8
    then codes "\\b"
    else if c == 12
    then codes "\\f"
    else if leb 32 c && leb c 126
    then c ∷ []
    else wide_escape c

unfoldable pub escape_text : Text → Text
unfolding escape_char
escape_text [] = []
escape_text (c ∷ s) = escape_char c ++ escape_text s

abbrev quoted : Text → Text
quoted s = 34 ∷ (escape_text s ++ 34 ∷ [])

-- the order of Python's `sorted` on texts: by code points
unfoldable pub leb_text : Text → Text → Bool
leb_text [] t = true
leb_text (x ∷ s) [] = false
leb_text (x ∷ s) (y ∷ t) = ltb x y || (x == y && leb_text s t)

-- a rendered member goes before the first one with a greater key
unfoldable pub insert_member : Text × Text → List (Text × Text) → List (Text × Text)
insert_member m [] = m ∷ []
insert_member m (n ∷ ms) = if leb_text m.0 n.0 then m ∷ n ∷ ms else n ∷ insert_member m ms

unfoldable pub join_members : List (Text × Text) → Text
join_members [] = []
join_members ((k, v) ∷ []) = quoted k ++ (codes ": " ++ v)
join_members ((k, v) ∷ m ∷ ms) =
    quoted k ++ (codes ": " ++ (v ++ (codes ", " ++ join_members (m ∷ ms))))

unfoldable mutual
  -- `json.dumps(j, sort_keys=True)`
  pub dumps : Json → Text
  dumps null = codes "null"
  dumps (bool true) = codes "true"
  dumps (bool false) = codes "false"
  dumps (num n) = decimal n
  dumps (str s) = quoted s
  dumps (arr xs) = 91 ∷ (dumps_items xs ++ 93 ∷ [])
  dumps (obj fs) = 123 ∷ (join_members (dumps_fields fs) ++ 125 ∷ [])

  pub dumps_items : Items → Text
  dumps_items nil = []
  dumps_items (cons j nil) = dumps j
  dumps_items (cons j (cons k xs)) = dumps j ++ (codes ", " ++ dumps_items (cons k xs))

  -- the members in the order of their keys
  pub dumps_fields : Fields → List (Text × Text)
  dumps_fields end = []
  dumps_fields (field k j fs) = insert_member (k, dumps j) (dumps_fields fs)
