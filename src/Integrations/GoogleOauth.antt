-- ===== src/Integrations/GoogleOauth.antt =====
-- src/integrations/google_oauth/client.py: the verdict on an ID token from Google's tokeninfo.
pub mod Judged
use be_py_eco.Prelude.{
  ℕ, Bool, false, not, Option, none, some, List, [], ◌∷◌, ◌==◌, if◌then◌else◌, Text, codes, eq_text,
  strip, lower,
}
use be_py_eco.World.{Services, GoogleProfile}

-- `payload[key]`, `payload.get(key)`
unfoldable pub claim : Text → List (Text × Text) → Option Text
claim key [] = none
claim key ((k, v) ∷ payload) = if eq_text k key then some v else claim key payload

-- the profile, a `GoogleOAuthError`, or a `KeyError` for a claim that is not there
pub data Verdict : Type 0 where
  accepted : GoogleProfile → Verdict
  rejected missing_claim : Verdict

abbrev is_text : Text → Option Text → Bool
is_text t none = false
is_text t (some s) = eq_text s t

abbrev profile_of : List (Text × Text) → Option Text → Option Text → Verdict
profile_of payload (some sub) (some email) = accepted (record {
  subject_id = sub;
  email = lower (strip email);
  email_verified = is_text (codes "true") (claim (codes "email_verified") payload);
})
profile_of payload none _ = missing_claim
profile_of payload (some sub) none = missing_claim

module _ (sv : Services) where
  -- the answer of tokeninfo, judged
  abbrev judge : Option (ℕ × List (Text × Text)) → Verdict
  judge none = rejected
  judge (some (status, payload)) =
      if not (status == 200)
      then rejected
      else if not (is_text sv.google_client_id (claim (codes "aud") payload))
      then rejected
      else profile_of payload (claim (codes "sub") payload) (claim (codes "email") payload)

  -- `HttpGoogleOAuthClient.verify_id_token`
  unfoldable pub verify_id_token : Text → Verdict
  verify_id_token id_token = judge (sv.tokeninfo id_token)
