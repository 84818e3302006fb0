-- ===== src/World/External.antt =====
-- What the sources call and do not implement: hashing, password hashing, signed tokens, one-time
-- passwords and Google's verdict on an ID token, with the documented behaviour that is relied on.
use be_py_eco.Prelude.{ℕ, ◌*◌, ◌<◌, ◌≡◌, Bool, true, Option, some, List, Text}

-- The claims of a refresh token that the sources set or read; `exp` is in whole seconds.
pub record Claims : Type 0 where
  pub jti : Text
  pub user_id : ℕ
  pub actor_type : Option Text
  pub exp : ℕ

-- integrations/google_oauth/client.py
pub record GoogleProfile : Type 0 where
  pub subject_id : Text
  pub email : Text
  pub email_verified : Bool

pub record Services : Type 0 where
  -- `hashlib.sha256(s.encode()).hexdigest()`
  pub sha256_hex : Text → Text
  -- `make_password` with its random salt, and `check_password`
  pub make_password : Text → Text → Text
  pub check_password : Text → Text → Bool
  pub check_password-make_password :
      (salt p : Text) → check_password p (make_password salt p) ≡ true
  -- `str(refresh)`, `str(refresh.access_token)` (its own random `jti`, which nothing reads, is left
  -- out), and `RefreshToken(raw)` at a time: `none` is
  -- `TokenError`
  pub encode_refresh : Claims → Text
  pub encode_access : Claims → Text
  pub decode_refresh : ℕ → Text → Option Claims
  pub decode_refresh-encode_refresh :
      (t : ℕ) (c : Claims) → t < c.exp * 1000000 → decode_refresh t (encode_refresh c) ≡ some c
  -- the claims of a token do not change; only whether it is still accepted does
  pub decode_refresh_fixed :
      (t t' : ℕ) (raw : Text) (c c' : Claims)
      → decode_refresh t raw ≡ some c
      → decode_refresh t' raw ≡ some c'
      → c ≡ c'
  -- django-otp's `totp(key, drift)` at a time, for the drifts 0 and -1
  pub totp : Text → ℕ → ℕ
  pub totp_previous : Text → ℕ → ℕ
  -- `settings.GOOGLE_OAUTH_CLIENT_ID`, and `httpx.get` of Google's tokeninfo: `none` is an
  -- `HTTPError`, otherwise the status and the claims, which Google answers as texts
  pub google_client_id : Text
  pub tokeninfo : Text → Option (ℕ × List (Text × Text))
