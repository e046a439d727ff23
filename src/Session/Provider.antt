-- ===== src/Session/Provider.antt =====
-- A whole refresh, with what the provider of the sign-in says to it.
use xyzzy.Prelude.{Bool, String, arith, false, lookup, refl, some, str, true, ℕ, ◌≡◌}
use xyzzy.Session.{SessionRefreshToken, SessionRows, UserSession, revoke_in_transaction}
use xyzzy.Session.Refresh.{
  ProviderAnswer, SessionSettings, ended, is_asked, refresh, revalidate, vouched, withdrawn,
}
use xyzzy.Session.Revoked.{Filed, IsDead, revoke-IsDead}

abbrev pub is_withdrawn : ProviderAnswer → Bool
is_withdrawn withdrawn = true
is_withdrawn (vouched _) = false

module _ (before db : SessionRows) (settings : SessionSettings)
    (presented access_hash refresh_hash : String) (moment : ℕ) (prior : SessionRefreshToken)
    (prior_session : UserSession) where
  -- On tables whose sessions stand under their own ids, where the first reads find the token and its
  -- session, and the provider is asked and no longer vouches for the person, a refresh answers that
  -- the session has ended, and the session is dead afterwards, with each of its credentials.
  pub refresh-withdrawn :
      Filed db
      → lookup str presented before.refresh_tokens ≡ some prior
      → lookup str prior.refresh_session before.user_sessions ≡ some prior_session
      → is_asked prior prior_session ≡ true
      → (let (db', answer) =
            refresh before db settings presented access_hash refresh_hash withdrawn moment in
          (answer ≡ ended) × IsDead db' prior_session.session_id)
  unfolding refresh revalidate
  refresh-withdrawn filed known known_session asked =
      let done : refresh before db settings presented access_hash refresh_hash withdrawn moment ≡ (
        revoke_in_transaction db prior_session.session_id "the provider withdrew this session"
            moment,
        ended,
      ) =
        ground arith in
      rw done (
        refl,
        revoke-IsDead db prior_session.session_id "the provider withdrew this session" moment filed,
      )
