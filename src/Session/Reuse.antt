-- ===== src/Session/Reuse.antt =====
-- What becomes of a session whose refresh token is presented a second time.
use xyzzy.Prelude.{Option, String, lookup, lookup-insert_all, refl, some, str, subst, sym, ℕ, ◌≡◌}
use xyzzy.Session.{
  SessionRefreshToken, SessionRows, UserSession, supersede_access_tokens_in_transaction,
}
use xyzzy.Session.Refresh.{SessionSettings, issued, refresh_in_transaction, spent}
use xyzzy.Session.Revoked.{Filed, IsDead, replay-IsDead}
use xyzzy.Session.Rotation.{claimed_rows, issued-ok, new_session, refresh-IsRotated, rotate-ok}

module _ (db : SessionRows) (settings : SessionSettings)
    (presented access_hash refresh_hash : String) (provider_token : Option String) (moment : ℕ)
    (token : SessionRefreshToken) (session : UserSession) where
  refresh-Filed :
      (db' : SessionRows) (s : UserSession)
      → Filed db
      → lookup str presented db.refresh_tokens ≡ some token
      → lookup str token.refresh_session db.user_sessions ≡ some session
      → refresh_in_transaction db settings presented access_hash refresh_hash provider_token moment
        ≡ (db', issued s)
      → Filed db'
  unfolding supersede_access_tokens_in_transaction
  refresh-Filed db' s filed hit there h =
      let (unspent, live, unexpired, r) =
        issued-ok db settings presented access_hash refresh_hash provider_token moment token session
          db' s hit there h in
      let db₁ = claimed_rows db presented token refresh_hash moment in
      let (fresh, new, same_id, e) =
        rotate-ok db₁ settings session access_hash refresh_hash provider_token moment db' s r in
      subst Filed (sym e) (
        lookup-insert_all str (λ id s. s.session_id ≡ id) session.session_id
          (new_session db₁ settings session access_hash refresh_hash provider_token moment)
          db.user_sessions filed refl)

  -- A refresh token buys one rotation: whoever presents it again after it was spent, with whatever
  -- new credentials, provider's answer and moment, is told so, and the session that the first
  -- rotation continued is dead, its new credentials included.
  pub presented_twice :
      (db' : SessionRows) (s : UserSession) (access_hash' refresh_hash' : String)
      (provider_token' : Option String) (moment' : ℕ)
      → Filed db
      → lookup str presented db.refresh_tokens ≡ some token
      → lookup str token.refresh_session db.user_sessions ≡ some session
      → refresh_in_transaction db settings presented access_hash refresh_hash provider_token moment
        ≡ (db', issued s)
      → (let (db'', answer) =
            refresh_in_transaction db' settings presented access_hash' refresh_hash' provider_token'
              moment' in
          (answer ≡ spent) × IsDead db'' session.session_id)
  presented_twice db' s access_hash' refresh_hash' provider_token' moment' filed hit there h =
      let filed' = refresh-Filed db' s filed hit there h in
      let rotated =
        (refresh-IsRotated db settings presented access_hash refresh_hash provider_token moment
          token session db' s filed hit there h).1 in
      let (r, found, used, same_id) = rotated.consumed in
      let (s', there', _, _) = rotated.clocks in
      let (a, dead) =
        replay-IsDead db' settings presented access_hash' refresh_hash' provider_token' moment' r s'
          filed' found used
          (subst (λ i. lookup str i db'.user_sessions ≡ some s') (sym same_id) there') in
      (
        a,
        subst
            (λ i.
              IsDead
                (refresh_in_transaction db' settings presented access_hash' refresh_hash'
                  provider_token' moment').0
                i)
            same_id dead,
      )
