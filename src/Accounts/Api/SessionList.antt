-- ===== src/Accounts/Api/SessionList.antt =====
-- What the session endpoints answer after one another.
use be_py_eco.Prelude.{
  ℕ, ◌≡◌, refl, ◌∙◌, none, some, List, [], ◌∷◌, arith, filter_rows, update_rows,
}
use be_py_eco.Schema.{Customer, Session, arr, nil}
use be_py_eco.World.{World, ok, Services}
use be_py_eco.Common.Authentication.{customer_actor, get_user}
use be_py_eco.Common.Http.{
  Credentials, anonymous, bad_token, bearer, Framework, Request, empty_response, data_response,
}
use be_py_eco.Common.Http.Guards.{actor_of}
use be_py_eco.Accounts.Sessions.{is_open_session, revoke, revoke_all_sessions}
use be_py_eco.Accounts.Api.Storefront.{
  newest_first, active_sessions, session_items, session_list, session_revoke_all,
}
use be_py_eco.Accounts.Api.Routes.{handle, view_of, accounts_sessions, accounts_sessions_revoke_all}
use be_py_eco.Accounts.Api.Access.{dispatch_user}

none_open :
    (id at : ℕ) (rows : List Session)
    → filter_rows (is_open_session id) (update_rows (is_open_session id) (revoke at) rows) ≡ []
unfolding filter_rows update_rows
none_open id at [] = refl
none_open id at (s ∷ rows) = ground (arith, none_open id at rows)

list_after_revoke_all :
    (revoking listing : Request) (c : Customer) (w : World)
    → (session_list listing
        (customer_actor c)
        (session_revoke_all revoking (customer_actor c) w).1).0
      ≡ ok (data_response 200 (arr nil) listing)
unfolding session_list session_revoke_all revoke_all_sessions newest_first active_sessions
    session_items
list_after_revoke_all revoking listing c w = rw (none_open c.id (w.clock 0) w.db.sessions) refl

same_actor :
    (credentials : Credentials) (revoking : Request) (c : Customer) (w : World)
    → actor_of credentials (session_revoke_all revoking (customer_actor c) w).1.db
      ≡ actor_of credentials w.db
unfolding session_revoke_all revoke_all_sessions
same_actor anonymous revoking c w = refl
same_actor bad_token revoking c w = refl
same_actor (bearer none id) revoking c w = unfold get_user in refl
same_actor (bearer (some t) id) revoking c w = unfold get_user in refl

module _ (sv : Services) (fw : Framework) (revoking listing : Request) (c : Customer)
    (w : World) where
  -- A customer who revokes all sessions gets 204, and then an empty list of sessions, as
  -- long as the credentials of both requests stand for the customer.
  revoke_all-then-list :
      actor_of revoking.credentials w.db ≡ some (customer_actor c)
      → actor_of listing.credentials w.db ≡ some (customer_actor c)
      → let (r, w') = handle sv fw accounts_sessions_revoke_all revoking w in
        (r ≡ ok (empty_response 204))
        × ((handle sv fw accounts_sessions listing w').0 ≡ ok (data_response 200 (arr nil) listing))
  unfolding handle view_of
  revoke_all-then-list first second =
      rw
        (
          dispatch_user session_revoke_all revoking w (customer_actor c) first,
          dispatch_user session_list listing (session_revoke_all revoking (customer_actor c) w).1
              (customer_actor c) (same_actor listing.credentials revoking c w ∙ second),
        )
        (
          unfold session_revoke_all revoke_all_sessions in refl,
          list_after_revoke_all revoking listing c w,
        )
