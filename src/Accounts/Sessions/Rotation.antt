-- ===== src/Accounts/Sessions/Rotation.antt =====
-- Issuing, rotating and revoking refresh sessions.
use be_py_eco.Prelude.Queries.{
  filter-append, filter-one-holds, exists-filter, update_one, filter-update,
}
use be_py_eco.Prelude.{
  ◌/◌, suc, ◌+◌, ◌<◌, ◌≡◌, refl, ap, ◌∙◌, inl, inr, Bool, true, false, none, some, [], ◌∷◌, ◌++◌,
  arith, ◌==◌, ==_refl, Option-cases, Text, eq_text, eq_text_iff, filter_rows, exists_row,
  update_rows,
}
use be_py_eco.Errors.{Error, accounts, invalid_refresh_token}
use be_py_eco.Schema.{Customer, Session, session_is_active, is_null}
use be_py_eco.Config.Settings.{refresh_token_lifetime}
use be_py_eco.World.{Result-cases, clash_session, World, ok, err, Services, Claims}
use be_py_eco.Accounts.Tokens.{customer_by_id}
use be_py_eco.Accounts.Sessions.{
  customer_actor_type, rotate_refresh_token, revoke, issue_session, is_customer_token, hash_jti,
  session_of_token,
}

not_same_hash :
    (new s : Session) (hash : Text)
    → exists_row (clash_session new) (s ∷ []) ≡ false
    → s.refresh_token_hash ≡ hash
    → eq_text new.refresh_token_hash hash ≡ false
unfolding exists_row
not_same_hash new s hash clear own = rw (← own) (ground arith)

module _ (sv : Services) where
  -- what a usable refresh token stands for
  pub record UsableToken (raw : Text) (w : World) (s : Session) (c : Customer) : Type 0 where
    pub claims : Claims
    pub decoded : sv.decode_refresh (w.clock 0) raw ≡ some claims
    pub for_customer : is_customer_token claims ≡ true
    pub only_session :
        filter_rows (λ s. eq_text s.refresh_token_hash (hash_jti sv claims.jti)) w.db.sessions
        ≡ s ∷ []
    pub only_customer : customer_by_id s.customer w.db ≡ c ∷ []
    pub open_session : s.revoked_at ≡ none
    pub in_time : w.clock 1 < s.expires_at

  pub session_of_token-UsableToken :
      (raw : Text) (w : World) (s : Session) (c : Customer)
      → (session_of_token sv raw w).0 ≡ ok (s, c)
      → UsableToken raw w s c
  unfolding session_of_token session_is_active
  session_of_token-UsableToken raw w s c h =
      elim (Option-cases (sv.decode_refresh (w.clock 0) raw)) [
        | inl n ↦ absurd (ground arith)
        | inr (k, e) ↦ record {
          claims = k;
          decoded = e;
          for_customer = ground arith;
          only_session = ground arith;
          only_customer = ground arith;
          open_session = ground arith;
          in_time = ground arith;
        }
      ]

  -- A session that is revoked is no longer accepted.
  pub session_of_token-revoked :
      (raw : Text) (w : World) (k : Claims) (s : Session)
      → sv.decode_refresh (w.clock 0) raw ≡ some k
      → filter_rows (λ s. eq_text s.refresh_token_hash (hash_jti sv k.jti)) w.db.sessions ≡ s ∷ []
      → is_null s.revoked_at ≡ false
      → (c : Customer) → customer_by_id s.customer w.db ≡ c ∷ []
      → (session_of_token sv raw w).0 ≡ err (accounts invalid_refresh_token)
  unfolding session_of_token session_is_active
  session_of_token-revoked raw w k s e one closed c ec = ground arith

  -- the row of a session that is issued
  unfoldable pub issued_session : Customer → World → Session
  issued_session c w = record {
    id = w.ids 0;
    created_at = w.clock 2;
    customer = c.id;
    refresh_token_hash = hash_jti sv (w.tokens 0);
    expires_at = w.clock 1 + refresh_token_lifetime;
    revoked_at = none;
  }

  -- the claims of the tokens that the next session gets
  abbrev pub next_claims : Customer → World → Claims
  next_claims c w = record {
    jti = w.tokens 0;
    user_id = c.id;
    actor_type = some customer_actor_type;
    exp = (w.clock 0 + refresh_token_lifetime) / 1000000;
  }

  pub issue_session-ok :
      (c : Customer) (w : World) (t : Text × Text)
      → (issue_session sv c w).0 ≡ ok t
      → (exists_row (clash_session (issued_session c w)) w.db.sessions ≡ false)
        × ((issue_session sv c w).1.db
            ≡ record w.db { sessions = w.db.sessions ++ issued_session c w ∷ [] })
  unfolding issue_session issued_session
  issue_session-ok c w t h = ground arith

  -- the world in which a rotation issues the new session
  unfoldable pub rotated : Session → World → World
  rotated s w = record w {
    db = record w.db {
      sessions = update_rows (λ r. r.id == s.id) (revoke (w.clock 2)) w.db.sessions;
    };
    clock = λ n. w.clock (suc (suc (suc n)));
  }

  rotate-issue :
      (raw : Text) (w : World) (s : Session) (c : Customer)
      → (session_of_token sv raw w).0 ≡ ok (s, c)
      → rotate_refresh_token sv raw w ≡ issue_session sv c (rotated s w)
  unfolding rotate_refresh_token session_of_token rotated
  rotate-issue raw w s c h = ground arith

  rotate-rejected :
      (raw : Text) (w : World)
      → (session_of_token sv raw w).0 ≡ err (accounts invalid_refresh_token)
      → (rotate_refresh_token sv raw w).0 ≡ err (accounts invalid_refresh_token)
  unfolding rotate_refresh_token
  rotate-rejected raw w h = ground arith

  -- what the rows under the old token's hash are after a rotation: the old session, revoked
  rotated-session :
      (raw : Text) (w : World) (s : Session) (c : Customer) (u : UsableToken raw w s c)
      (t : Text × Text)
      → (issue_session sv c (rotated s w)).0 ≡ ok t
      → filter_rows
          (λ r. eq_text r.refresh_token_hash (hash_jti sv u.claims.jti))
          (issue_session sv c (rotated s w)).1.db.sessions
        ≡ revoke (w.clock 2) s ∷ []
  unfolding rotated
  rotated-session raw w s c u t h =
      let hash = hash_jti sv u.claims.jti in
      let p : Session → Bool = λ r. eq_text r.refresh_token_hash hash in
      let q : Session → Bool = λ r. r.id == s.id in
      let new = issued_session c (rotated s w) in
      let issued = issue_session-ok c (rotated s w) t h in
      let old : filter_rows p (update_rows q (revoke (w.clock 2)) w.db.sessions)
          ≡ revoke (w.clock 2) s ∷ [] =
        filter-update p q (revoke (w.clock 2)) w.db.sessions (λ r. refl)
        ∙ ap (update_rows q (revoke (w.clock 2))) u.only_session
        ∙ update_one q (revoke (w.clock 2)) s (==_refl s.id) in
      let apart = exists-filter (clash_session new) p _ issued.0 in
      let own =
        (eq_text_iff s.refresh_token_hash hash).0
          (filter-one-holds p w.db.sessions s u.only_session) in
      let clear : exists_row (clash_session new) (revoke (w.clock 2) s ∷ []) ≡ false =
        rw old at apart in
      let other : p new ≡ false = not_same_hash new (revoke (w.clock 2) s) hash clear own in
      rw (issued.1, filter-append, old) (unfold filter_rows in rw other)

  rotate-failed :
      (raw : Text) (w : World) (e : Error)
      → (session_of_token sv raw w).0 ≡ err e
      → (rotate_refresh_token sv raw w).0 ≡ err e
  unfolding rotate_refresh_token
  rotate-failed raw w e h = ground arith

  session_of_token-undecoded :
      (raw : Text) (w : World)
      → sv.decode_refresh (w.clock 0) raw ≡ none
      → (session_of_token sv raw w).0 ≡ err (accounts invalid_refresh_token)
  unfolding session_of_token
  session_of_token-undecoded raw w h = ground arith

  same_customers :
      (raw : Text) (w : World) (s : Session) (c : Customer) (u : UsableToken raw w s c)
      (t : Text × Text)
      → (issue_session sv c (rotated s w)).0 ≡ ok t
      → customer_by_id s.customer (issue_session sv c (rotated s w)).1.db ≡ c ∷ []
  unfolding rotated
  same_customers raw w s c u t h = rw ((issue_session-ok c (rotated s w) t h).1) u.only_customer

  -- A refresh token is used once: after a rotation the same token is refused.
  pub rotate_single_use :
      (raw : Text) (w : World) (tokens : Text × Text)
      → (rotate_refresh_token sv raw w).0 ≡ ok tokens
      → (rotate_refresh_token sv raw (rotate_refresh_token sv raw w).1).0
        ≡ err (accounts invalid_refresh_token)
  rotate_single_use raw w tokens h = elim (Result-cases (session_of_token sv raw w).0) [
    | inr (e, bad) ↦ let no = rotate-failed raw w e bad in absurd (ground arith)
    | inl ((s, c), found) ↦
        let u = session_of_token-UsableToken raw w s c found in
        let step = rotate-issue raw w s c found in
        let w2 = (issue_session sv c (rotated s w)).1 in
        let issued : (issue_session sv c (rotated s w)).0 ≡ ok tokens = rw (← step) h in
        let again : (rotate_refresh_token sv raw w2).0 ≡ err (accounts invalid_refresh_token) =
          rotate-rejected raw w2 (elim (Option-cases (sv.decode_refresh (w2.clock 0) raw)) [
            | inl n ↦ session_of_token-undecoded raw w2 n
            | inr (k, e) ↦
                let same = sv.decode_refresh_fixed _ _ raw k u.claims e u.decoded in
                session_of_token-revoked raw w2 k (revoke (w.clock 2) s) e
                  (rw same (rotated-session raw w s c u tokens issued)) refl c
                  (same_customers raw w s c u tokens issued)
          ]) in
        rw step again
  ]
