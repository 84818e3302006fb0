-- ===== src/Integrations/GoogleOauth/Judged.antt =====
-- When Google's answer makes an ID token good.
use be_py_eco.Prelude.{
  ℕ, ◌≡◌, refl, sym, ap, ◌↔◌, inl, inr, true, Option, none, some, List, arith, Option-cases, Text,
  codes, eq_text_iff, eq_text_refl, strip, lower,
}
use be_py_eco.World.{Services, GoogleProfile}
use be_py_eco.Integrations.GoogleOauth.{claim, accepted, is_text, verify_id_token}

-- the claims of the payload that make this profile, issued for this client
pub record IssuedFor (client_id : Text) (payload : List (Text × Text)) (profile : GoogleProfile)
    : Type 0 where
  pub email_claim : Text
  pub audience : claim (codes "aud") payload ≡ some client_id
  pub subject : claim (codes "sub") payload ≡ some profile.subject_id
  pub email : claim (codes "email") payload ≡ some email_claim
  pub normalized : profile.email ≡ lower (strip email_claim)
  pub verified :
      profile.email_verified ≡ is_text (codes "true") (claim (codes "email_verified") payload)

accepted_injective : (p q : GoogleProfile) → accepted p ≡ accepted q → p ≡ q
accepted_injective p q h = ground arith

module _ (sv : Services) (id_token : Text) (profile : GoogleProfile) where
  audience_of :
      (o : Option Text) → is_text sv.google_client_id o ≡ true → o ≡ some sv.google_client_id
  audience_of none h = absurd (ground arith)
  audience_of (some s) h = ap some ((eq_text_iff s sv.google_client_id).0 h)

  judged :
      (status : ℕ) (payload : List (Text × Text))
      → sv.tokeninfo id_token ≡ some (status, payload)
      → verify_id_token sv id_token ≡ accepted profile
      → (status ≡ 200) × IssuedFor sv.google_client_id payload profile
  unfolding verify_id_token
  judged status payload e h =
      let aud = claim (codes "aud") payload in
      elim (Option-cases (claim (codes "sub") payload)) [
        | inl no_sub ↦ absurd (ground arith)
        | inr (sub, s) ↦ elim (Option-cases (claim (codes "email") payload)) [
          | inl no_email ↦ absurd (ground arith)
          | inr (email, m) ↦ (
            ground arith,
            record {
              email_claim = email;
              audience = audience_of aud (ground arith);
              subject = ground arith;
              email = m;
              normalized = ground arith;
              verified = ground arith;
            },
          )
        ]
      ]

  -- An ID token stands for a profile exactly when Google answers with 200 and with claims issued
  -- for the configured client, and the subject, the normalised email and the verified flag are
  -- those of the claims.
  pub verify_id_token-accepted_iff : (verify_id_token sv id_token ≡ accepted profile) ↔ (
      (payload : List (Text × Text)) × (sv.tokeninfo id_token ≡ some (200, payload))
      × IssuedFor sv.google_client_id payload profile)
  unfolding verify_id_token
  verify_id_token-accepted_iff = (
    λ h. elim (Option-cases (sv.tokeninfo id_token)) [
      | inl e ↦ absurd (ground arith)
      | inr ((status, payload), e) ↦
          let (good, issued) = judged status payload e h in (payload, rw (sym good) e, issued)
    ],
    λ (payload, e, i).
        rw (e, i.audience, eq_text_refl sv.google_client_id, i.subject, i.email)
          (rw (sym i.normalized, sym i.verified) refl),
  )
