-- ===== src/Accounts/Sessions/Race.antt =====
-- Two rotations of one refresh token at once: `rotate_refresh_token` reads the session without a
-- lock and outside a transaction, and writes it later.
use be_py_eco.Accounts.Sessions.Rotation.{next_claims, issued_session}
use be_py_eco.Prelude.{
  suc, ◌≡◌, refl, false, [], ◌∷◌, ◌++◌, arith, ◌==◌, Text, exists_row, update_rows,
}
use be_py_eco.Schema.{Customer, Session}
use be_py_eco.World.{
  clash_session, ok, World, Result, continue, Action, ◌>>=◌, modify, now, Services, ◌>>◌,
}
use be_py_eco.Accounts.Sessions.{
  revoke, update_sessions, issue_session, session_of_token, rotate_refresh_token,
}

module _ (sv : Services) where
  -- what a rotation does once its checks have passed
  unfoldable pub close_and_issue : Session × Customer → Action (Text × Text)
  close_and_issue found = do
    at ← now
    modify (update_sessions (λ r. r.id == found.0.id) at)
    issue_session sv found.1

  rotate-split :
      (raw : Text) (w : World)
      → rotate_refresh_token sv raw w ≡ (session_of_token sv raw >>= close_and_issue) w
  unfolding rotate_refresh_token close_and_issue
  rotate-split raw w = refl

  -- two requests check the same token before either writes; then each of them goes on
  unfoldable pub rotate_at_once :
      Text → World → (Result (Text × Text) × Result (Text × Text)) × World
  rotate_at_once raw w =
      let (found, w1) = session_of_token sv raw w in
      let (found', w2) = session_of_token sv raw w1 in
      let (tokens, w3) = continue found close_and_issue w2 in
      let (tokens', w4) = continue found' close_and_issue w3 in ((tokens, tokens'), w4)

  -- a reading of the clock
  abbrev pub tick : World → World
  tick w = record w { clock = λ n. w.clock (suc n) }

  session_of_token-world :
      (raw : Text) (w : World) (found : Session × Customer)
      → (session_of_token sv raw w).0 ≡ ok found
      → (session_of_token sv raw w).1 ≡ tick (tick w)
  unfolding session_of_token
  session_of_token-world raw w found h = ground arith

  -- the world in which the token's session is closed, and the one after the next session
  abbrev pub closing : Session → World → World
  closing s w = record (tick w) { db = update_sessions (λ r. r.id == s.id) (w.clock 0) w.db }

  abbrev pub issuing : Customer → World → World
  issuing c w = record (tick (tick (tick w))) {
    db = record w.db { sessions = w.db.sessions ++ issued_session sv c w ∷ [] };
    ids = λ n. w.ids (suc n);
    tokens = λ n. w.tokens (suc n);
  }

  abbrev pub next_tokens : Customer → World → Text × Text
  next_tokens c w = (sv.encode_access (next_claims sv c w), sv.encode_refresh (next_claims sv c w))

  -- the worlds in which the first request, and then the second one, closes the session
  abbrev pub first_closing : Session → World → World
  first_closing s w = closing s (tick (tick (tick (tick w))))

  abbrev pub second_closing : Session → Customer → World → World
  second_closing s c w = closing s (issuing c (first_closing s w))

  close_and_issue-world :
      (s : Session) (c : Customer) (w : World)
      → exists_row (clash_session (issued_session sv c (closing s w))) (closing s w).db.sessions
        ≡ false
      → close_and_issue (s, c) w ≡ (ok (next_tokens c (closing s w)), issuing c (closing s w))
  unfolding close_and_issue issue_session issued_session
  close_and_issue-world s c w fresh = ground arith

  -- Two requests that check the same refresh token before either writes both get new tokens, and
  -- two new sessions are open where there was one, if both checks pass and the ids and the hashes
  -- that are drawn are fresh.
  pub rotate_at_once-both :
      (raw : Text) (w : World) (s : Session) (c : Customer)
      → (session_of_token sv raw w).0 ≡ ok (s, c)
      → (session_of_token sv raw (tick (tick w))).0 ≡ ok (s, c)
      → exists_row
          (clash_session (issued_session sv c (first_closing s w)))
          (first_closing s w).db.sessions
        ≡ false
      → exists_row
          (clash_session (issued_session sv c (second_closing s c w)))
          (second_closing s c w).db.sessions
        ≡ false
      → (rotate_at_once raw w).0
          ≡ (ok (next_tokens c (first_closing s w)), ok (next_tokens c (second_closing s c w)))
        × ((rotate_at_once raw w).1.db.sessions
            ≡ update_rows
                (λ r. r.id == s.id)
                (revoke (w.clock 8))
                (update_rows (λ r. r.id == s.id) (revoke (w.clock 4)) w.db.sessions
                  ++ issued_session sv c (first_closing s w) ∷ [])
              ++ issued_session sv c (second_closing s c w) ∷ [])
  unfolding rotate_at_once
  rotate_at_once-both raw w s c h h' fresh fresh' =
      rw
        (
          session_of_token-world raw w (s, c) h,
          h,
          session_of_token-world raw (tick (tick w)) (s, c) h',
          h',
          close_and_issue-world s c (tick (tick (tick (tick w)))) fresh,
          close_and_issue-world s c (issuing c (first_closing s w)) fresh',
        )
        (refl, refl)
