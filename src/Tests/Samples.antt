-- ===== src/Tests/Samples.antt =====
-- Concrete services, rows and worlds.
use be_py_eco.Prelude.{
  ◌*◌, ℕ, suc, ◌+◌, ◌-◌, ◌<◌, ◌≡◌, refl, inl, inr, true, false, Option, none, some, List, [], ◌∷◌,
  arith, ltb, ◌==◌, if◌then◌else◌, Option-cases, Text, codes, eq_text, eq_text_refl,
}
use be_py_eco.Schema.{VerificationToken, Staff, Purpose, Customer, Database}
use be_py_eco.World.{World, Services, Claims}

unfoldable pub shifted : Text → Text → Text
shifted [] rest = 0 ∷ rest
shifted (c ∷ t) rest = suc c ∷ shifted t rest

-- the text up to the first 0, and the rest
unfoldable pub unshifted : Text → Text × Text
unshifted [] = ([], [])
unshifted (c ∷ s) = let (t, rest) = unshifted s in if c == 0 then ([], s) else ((c - 1) ∷ t, rest)

unshifted-shifted : (t rest : Text) → unshifted (shifted t rest) ≡ (t, rest)
unfolding unshifted shifted
unshifted-shifted [] rest = refl
unshifted-shifted (c ∷ t) rest = ground (arith, unshifted-shifted t rest)

abbrev pub encode : Claims → Text
encode k = k.exp ∷ k.user_id ∷ elim k.actor_type [ none ↦ 0 ∷ k.jti | some t ↦ 1 ∷ shifted t k.jti ]

abbrev decode_rest : ℕ → ℕ → ℕ → Text → Claims
decode_rest exp user tag s =
    if tag == 0 then record { jti = s; user_id = user; actor_type = none; exp = exp } else record {
      jti = (unshifted s).1;
      user_id = user;
      actor_type = some (unshifted s).0;
      exp = exp;
    }

unfoldable pub decode : ℕ → Text → Option Claims
decode now [] = none
decode now (exp ∷ []) = none
decode now (exp ∷ user ∷ []) = none
decode now (exp ∷ user ∷ tag ∷ s) =
    if ltb now (exp * 1000000) then some (decode_rest exp user tag s) else none

pub decode-encode : (t : ℕ) (k : Claims) → t < k.exp * 1000000 → decode t (encode k) ≡ some k
unfolding decode
decode-encode t k live = elim (Option-cases k.actor_type) [
  | inl e ↦ ground arith
  | inr (a, e) ↦ ground (arith, unshifted-shifted a k.jti)
]

pub decode_fixed :
    (t t' : ℕ) (raw : Text) (k k' : Claims)
    → decode t raw ≡ some k
    → decode t' raw ≡ some k'
    → k ≡ k'
unfolding decode
decode_fixed t t' [] k k' e e' = absurd (ground arith)
decode_fixed t t' (exp ∷ []) k k' e e' = absurd (ground arith)
decode_fixed t t' (exp ∷ user ∷ []) k k' e e' = absurd (ground arith)
decode_fixed t t' (exp ∷ user ∷ tag ∷ s) k k' e e' = ground arith

-- what tokeninfo answers for the account 7 with the email `a`
abbrev pub claims_of : Text → List (Text × Text)
claims_of email_verified =
    (codes "aud", codes "app")
    ∷ (codes "sub", 7 ∷ [])
    ∷ (codes "email", 97 ∷ [])
    ∷ (codes "email_verified", email_verified)
    ∷ []

-- services that hash by the identity and sign nothing; two ID tokens are known
abbrev pub services : Services
services = record {
  sha256_hex = λ s. s;
  make_password = λ salt p. p;
  check_password = λ p h. eq_text p h;
  check_password-make_password = λ salt p. eq_text_refl p;
  encode_refresh = encode;
  encode_access = encode;
  decode_refresh = decode;
  decode_refresh-encode_refresh = decode-encode;
  decode_refresh_fixed = decode_fixed;
  totp = λ key at. at;
  totp_previous = λ key at. at - 1;
  google_client_id = codes "app";
  tokeninfo = λ token.
      if eq_text token (1 ∷ [])
      then some (200, claims_of (codes "false"))
      else if eq_text token (2 ∷ [])
      then some (200, claims_of (codes "true"))
      else none;
}

abbrev pub empty : Database
empty = record {
  customers = [];
  login_methods = [];
  sessions = [];
  verification_tokens = [];
  staff = [];
  totp_devices = [];
  audit_log = [];
  idempotency_records = [];
  outbox = [];
  categories = [];
  products = [];
  product_categories = [];
  variants = [];
  variant_attribute_values = [];
  media_uploads = [];
  translations = [];
  countries = [];
}

abbrev pub world : Database → World
world db = record {
  db = db;
  clock = λ n. 10 + n;
  ids = λ n. 100 + n;
  tokens = λ n. (500 + n) ∷ [];
  mails = [];
  mail_refused = λ n. false;
  files = [];
}

abbrev pub ann : Customer
ann = record {
  id = 1;
  email = 97 ∷ [];
  email_verified_at = none;
  is_active = true;
  preferred_locale = [];
  preferred_currency = [];
}

abbrev pub bob : Customer
bob = record ann { id = 2; email = 98 ∷ [] }

abbrev pub token_of : Purpose → VerificationToken
token_of purpose = record {
  id = 3;
  customer = 1;
  purpose = purpose;
  token_hash = 42 ∷ [];
  new_email = 98 ∷ [];
  expires_at = 5000;
  consumed_at = none;
}

abbrev pub with_token : Purpose → Database
with_token purpose = record empty {
  customers = ann ∷ [];
  verification_tokens = token_of purpose ∷ [];
}

-- a refresh token of ann, and its session
abbrev pub ann_claims : Claims
ann_claims = record { jti = 9 ∷ []; user_id = 1; actor_type = some (codes "customer"); exp = 2000 }

abbrev pub signed_in : Database
signed_in = record empty {
  customers = ann ∷ [];
  sessions =
      record {
        id = 4;
        created_at = 1;
        customer = 1;
        refresh_token_hash = 9 ∷ [];
        expires_at = 2000;
        revoked_at = none;
      }
      ∷ [];
}

abbrev pub carol : Staff
carol = record {
  id = 5;
  email = 99 ∷ [];
  password_hash = 1 ∷ [];
  role = codes "master_admin";
  is_active = true;
}

abbrev pub staffed : Database
staffed = record signed_in {
  staff = carol ∷ [];
  totp_devices = record { id = 6; staff = 5; key = []; confirmed_at = some 1 } ∷ [];
}
