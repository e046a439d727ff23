-- ===== src/Session/Rotation.antt =====
-- What a rotation that goes through leaves in the tables.
use xyzzy.Session.Revoked.{Filed}
use xyzzy.Prelude.{
  Option, String, arith, false, insert, lookup, lookup-insert_ne, lookup-insert_self,
  lookup-update_all, ltb, min, none, not, ok, refl, some, str, subst, sym, true, ℕ, ◌&&◌, ◌+◌, ◌∙◌,
  ◌≡◌, ◌≢◌, ◌≤◌,
}
use xyzzy.Session.{
  AccessToken, SessionRefreshToken, SessionRows, UserSession, alive_at,
  claim_refresh_in_transaction, equals, insert_access, is_null, issue_refresh_in_transaction, same,
  supersede_access_tokens_in_transaction,
}
use xyzzy.Session.Refresh.{
  SessionSettings, issued, kept_provider_token, refresh_in_transaction, rotate,
}

module _ (db : SessionRows) (settings : SessionSettings) (session : UserSession)
    (access_hash refresh_hash : String) (provider_token : Option String) (moment : ℕ) where
  -- The rows that a rotation adds and changes.
  abbrev pub new_access : AccessToken
  new_access = record {
    token_user = session.user_id;
    token_session = some session.session_id;
    token_created_at = moment;
    token_expires_at = some (min (moment + settings.access_seconds) session.absolute_expires_at);
    token_revoked_at = none;
  }

  abbrev pub new_refresh : SessionRefreshToken
  new_refresh = record {
    refresh_session = session.session_id;
    issued_at = moment;
    expires_at = session.absolute_expires_at;
    consumed_at = none;
    replaced_by_hash = none;
  }

  abbrev pub new_session : UserSession
  new_session = record session {
    idle_expires_at = min (moment + settings.idle_seconds) session.absolute_expires_at;
    idp_refresh_token = kept_provider_token provider_token session.idp_refresh_token;
  }

  abbrev pub rotated_rows : SessionRows
  rotated_rows =
      supersede_access_tokens_in_transaction
        (record db {
          user_tokens = insert str access_hash new_access db.user_tokens;
          refresh_tokens = insert str refresh_hash new_refresh db.refresh_tokens;
          user_sessions = insert str session.session_id new_session db.user_sessions;
        })
        session.session_id moment access_hash

  -- The session as the caller is told of it.
  abbrev pub told_session : UserSession
  told_session = record session {
    idle_expires_at = min (moment + settings.idle_seconds) session.absolute_expires_at;
    revoked_at = none;
    revoked_reason = "";
    idp_id_token = "";
    idp_refresh_token = "";
  }

  pub rotate-ok :
      (db' : SessionRows) (s : UserSession)
      → rotate db settings session access_hash refresh_hash provider_token moment ≡ ok (db', s)
      → (lookup str access_hash db.user_tokens ≡ none)
        × (lookup str refresh_hash db.refresh_tokens ≡ none)
        × (s.session_id ≡ session.session_id)
        × (db' ≡ rotated_rows)
  unfolding rotate insert_access issue_refresh_in_transaction
  rotate-ok db' s h = (ground arith, ground arith, ground arith, ground arith)

-- The refresh token as the claim leaves it.
abbrev pub spent_token : SessionRefreshToken → String → ℕ → SessionRefreshToken
spent_token token new moment = record token {
  consumed_at = some moment;
  replaced_by_hash = some new;
}

abbrev pub claimed_rows : SessionRows → String → SessionRefreshToken → String → ℕ → SessionRows
claimed_rows db presented token new moment = record db {
  refresh_tokens = insert str presented (spent_token token new moment) db.refresh_tokens;
}

-- The session's only credential in force is the new one, which ends with the session at the latest;
-- the session's own end has not moved, and its idle clock ends no later; the token presented is
-- consumed, and the new refresh token is stored, unspent, with the session's end as its own.
pub record IsRotated (db : SessionRows) (before : UserSession)
    (presented access_hash refresh_hash : String) : Type 0 where
  pub retired :
      (h : String) (t : AccessToken)
      → lookup str h db.user_tokens ≡ some t
      → equals t.token_session before.session_id ≡ true
      → h ≢ access_hash
      → is_null t.token_revoked_at ≡ false
  pub minted :
      (t : AccessToken) × (lookup str access_hash db.user_tokens ≡ some t)
      × (t.token_revoked_at ≡ none)
      × (t.token_session ≡ some before.session_id)
      × ((e : ℕ) × (t.token_expires_at ≡ some e) × (e ≤ before.absolute_expires_at))
  pub clocks :
      (s : UserSession) × (lookup str before.session_id db.user_sessions ≡ some s)
      × (s.absolute_expires_at ≡ before.absolute_expires_at)
      × (s.idle_expires_at ≤ before.absolute_expires_at)
  pub consumed :
      (r : SessionRefreshToken) × (lookup str presented db.refresh_tokens ≡ some r)
      × (is_null r.consumed_at ≡ false)
      × (r.refresh_session ≡ before.session_id)
  pub renewed :
      (r : SessionRefreshToken) × (lookup str refresh_hash db.refresh_tokens ≡ some r)
      × (r.consumed_at ≡ none)
      × (r.refresh_session ≡ before.session_id)
      × (r.expires_at ≡ before.absolute_expires_at)

module _ (db : SessionRows) (settings : SessionSettings)
    (presented access_hash refresh_hash : String) (provider_token : Option String) (moment : ℕ)
    (token : SessionRefreshToken) (session : UserSession) where
  pub issued-ok :
      (db' : SessionRows) (s : UserSession)
      → lookup str presented db.refresh_tokens ≡ some token
      → lookup str token.refresh_session db.user_sessions ≡ some session
      → refresh_in_transaction db settings presented access_hash refresh_hash provider_token moment
        ≡ (db', issued s)
      → (token.consumed_at ≡ none)
        × (alive_at session moment ≡ true)
        × (ltb token.expires_at moment ≡ false)
        × (rotate
              (claimed_rows db presented token refresh_hash moment)
              settings
              session
              access_hash
              refresh_hash
              provider_token
              moment
            ≡ ok (db', s))
  unfolding refresh_in_transaction claim_refresh_in_transaction
  issued-ok db' s hit there h = (ground arith, ground arith, ground arith, ground arith)

  -- Where the transaction of a refresh issues, on tables whose sessions stand under their own ids, it
  -- has issued one new credential pair: the session was alive, and afterwards its only credential in
  -- force is the new one, which ends with the session at the latest, its own end has not moved, the
  -- token presented is consumed, and the new refresh token is stored, unspent, for the same session
  -- and up to the session's end.
  pub refresh-IsRotated :
      (db' : SessionRows) (s : UserSession)
      → Filed db
      → lookup str presented db.refresh_tokens ≡ some token
      → lookup str token.refresh_session db.user_sessions ≡ some session
      → refresh_in_transaction db settings presented access_hash refresh_hash provider_token moment
        ≡ (db', issued s)
      → (alive_at session moment ≡ true) × IsRotated db' session presented access_hash refresh_hash
  unfolding supersede_access_tokens_in_transaction
  refresh-IsRotated db' s filed hit there h =
      let own = filed token.refresh_session session there in
      let (unspent, live, unexpired, r) = issued-ok db' s hit there h in
      let db₁ = claimed_rows db presented token refresh_hash moment in
      let (fresh, new, same_id, e) =
        rotate-ok db₁ settings session access_hash refresh_hash provider_token moment db' s r in
      let minted_token =
        new_access db₁ settings session access_hash refresh_hash provider_token moment in
      let held =
        lookup-insert_self str presented (spent_token token refresh_hash moment)
          db.refresh_tokens in
      let other : presented ≢ refresh_hash = λ q. cc in
      (
        live,
        subst (λ d. IsRotated d session presented access_hash refresh_hash) (sym e)
            (record {
              retired = λ k t found mine ne.
                  let row =
                    lookup-update_all str
                      (λ (token_hash : String) (t : AccessToken).
                        equals t.token_session session.session_id
                        && not (same token_hash access_hash)
                        && is_null t.token_revoked_at)
                      (λ (t : AccessToken). record t { token_revoked_at = some moment }) k
                      (insert str access_hash minted_token db.user_tokens) in
                  ground arith;
              minted = (
                minted_token,
                lookup-update_all str
                      (λ (token_hash : String) (t : AccessToken).
                        equals t.token_session session.session_id
                        && not (same token_hash access_hash)
                        && is_null t.token_revoked_at)
                      (λ (t : AccessToken). record t { token_revoked_at = some moment }) access_hash
                      (insert str access_hash minted_token db.user_tokens)
                    ∙ (let row = lookup-insert_self str access_hash minted_token db.user_tokens in
                        ground arith),
                refl,
                refl,
                (
                  min (moment + settings.access_seconds) session.absolute_expires_at,
                  refl,
                  omega arith,
                ),
              );
              clocks = (
                new_session db₁ settings session access_hash refresh_hash provider_token moment,
                lookup-insert_self str session.session_id
                    (new_session db₁ settings session access_hash refresh_hash provider_token
                      moment)
                    db.user_sessions,
                refl,
                omega arith,
              );
              consumed = (
                spent_token token refresh_hash moment,
                lookup-insert_ne str refresh_hash presented
                      (new_refresh db₁ settings session access_hash refresh_hash provider_token
                        moment)
                      db₁.refresh_tokens other
                    ∙ held,
                refl,
                sym own,
              );
              renewed = (
                new_refresh db₁ settings session access_hash refresh_hash provider_token moment,
                lookup-insert_self str refresh_hash
                    (new_refresh db₁ settings session access_hash refresh_hash provider_token
                      moment)
                    db₁.refresh_tokens,
                refl,
                refl,
                refl,
              );
            }),
      )

  pub issues_in_transaction :
      lookup str presented db.refresh_tokens ≡ some token
      → lookup str token.refresh_session db.user_sessions ≡ some session
      → token.consumed_at ≡ none
      → alive_at session moment ≡ true
      → moment ≤ token.expires_at
      → lookup str access_hash db.user_tokens ≡ none
      → lookup str refresh_hash db.refresh_tokens ≡ none
      → presented ≢ refresh_hash
      → (db' : SessionRows) × (s : UserSession) × (refresh_in_transaction db settings presented
            access_hash refresh_hash provider_token moment
          ≡ (db', issued s))
  unfolding refresh_in_transaction claim_refresh_in_transaction rotate insert_access
      issue_refresh_in_transaction
  issues_in_transaction hit there unspent live in_time fresh new ne =
      let kept =
        lookup-insert_ne str presented refresh_hash (spent_token token refresh_hash moment)
          db.refresh_tokens (λ q. ne (sym q)) in
      let db₁ = claimed_rows db presented token refresh_hash moment in
      (
        rotated_rows db₁ settings session access_hash refresh_hash provider_token moment,
        told_session db₁ settings session access_hash refresh_hash provider_token moment,
        ground arith,
      )
