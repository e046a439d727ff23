-- ===== src/Session/Revoked.antt =====
-- What a revocation, and the replay of a refresh token, leave of a session.
use xyzzy.Session.Refresh.{SessionSettings, refresh_in_transaction, spent}
use xyzzy.Prelude.{
  Option, String, arith, false, lookup, lookup-insert_self, lookup-update_all, none, refl, some,
  str, subst, sym, true, ℕ, ◌&&◌, ◌≡◌,
}
use xyzzy.Session.{
  AccessToken, SessionRefreshToken, SessionRows, UserSession, claim_refresh_in_transaction, equals,
  is_null, revoke_in_transaction, same,
}

-- Nothing of the session is of use any more: it is revoked, and so is each of its credentials, and
-- each of its refresh tokens is consumed.
pub record IsDead (db : SessionRows) (id : String) : Type 0 where
  pub session :
      (s : UserSession) → lookup str id db.user_sessions ≡ some s → is_null s.revoked_at ≡ false
  pub access :
      (h : String) (t : AccessToken)
      → lookup str h db.user_tokens ≡ some t
      → equals t.token_session id ≡ true
      → is_null t.token_revoked_at ≡ false
  pub refreshes :
      (h : String) (r : SessionRefreshToken)
      → lookup str h db.refresh_tokens ≡ some r
      → same r.refresh_session id ≡ true
      → is_null r.consumed_at ≡ false

-- A session's row stands under its own id.
abbrev pub Filed : SessionRows → Type 0
Filed db =
    (id : String) (s : UserSession) → lookup str id db.user_sessions ≡ some s → s.session_id ≡ id

-- A revocation leaves a session dead, whatever its rows were.
pub revoke-IsDead :
    (db : SessionRows) (id reason : String) (moment : ℕ)
    → Filed db
    → IsDead (revoke_in_transaction db id reason moment) id
unfolding revoke_in_transaction
revoke-IsDead db id reason moment filed = record {
  session = by_row (lookup str id db.user_sessions) refl;
  access = λ k t h e.
      let found =
        lookup-update_all str
          (λ (_ : String) (t : AccessToken).
            equals t.token_session id && is_null t.token_revoked_at)
          (λ (t : AccessToken). record t { token_revoked_at = some moment }) k db.user_tokens in
      ground arith;
  refreshes = λ k r h e.
      let found =
        lookup-update_all str
          (λ (_ : String) (r : SessionRefreshToken).
            same r.refresh_session id && is_null r.consumed_at)
          (λ (r : SessionRefreshToken). record r { consumed_at = some moment }) k
          db.refresh_tokens in
      ground arith;
}
  where
    by_row :
        (o : Option UserSession)
        → lookup str id db.user_sessions ≡ o
        → (s : UserSession)
        → lookup str id (revoke_in_transaction db id reason moment).user_sessions ≡ some s
        → is_null s.revoked_at ≡ false
    by_row o q s h =
        let found =
          lookup-update_all str
            (λ (_ : String) (s : UserSession). same s.session_id id && is_null s.revoked_at)
            (λ (s : UserSession). record s { revoked_at = some moment; revoked_reason = reason }) id
            db.user_sessions in
        elim o as (λ o'. lookup str id db.user_sessions ≡ o' → is_null s.revoked_at ≡ false) [
          | none ↦ λ q'. ground arith
          | some s₀ ↦ λ q'. (let own = filed id s₀ q' in ground arith)
        ]
          q

claimed-consumed :
    (db : SessionRows) (presented new : String) (moment : ℕ) (r : SessionRefreshToken)
    → lookup str presented (claim_refresh_in_transaction db presented new moment).0.refresh_tokens
      ≡ some r
    → is_null r.consumed_at ≡ false
unfolding claim_refresh_in_transaction
claimed-consumed db presented new moment r h =
    by_token (lookup str presented db.refresh_tokens) refl h
  where
    by_token :
        (o : Option SessionRefreshToken)
        → lookup str presented db.refresh_tokens ≡ o
        → lookup str presented
            (claim_refresh_in_transaction db presented new moment).0.refresh_tokens
          ≡ some r
        → is_null r.consumed_at ≡ false
    by_token none q h' = ground arith
    by_token (some t) q h' =
        let found =
          lookup-insert_self str presented
            (record t { consumed_at = some moment; replaced_by_hash = some new })
            db.refresh_tokens in
        ground arith

-- A refresh token that was consumed before buys nothing: the answer is that it was spent, and the
-- session it belongs to is dead afterwards.
pub replay-IsDead :
    (db : SessionRows) (settings : SessionSettings) (presented access_hash refresh_hash : String)
    (provider_token : Option String) (moment : ℕ) (token : SessionRefreshToken) (s : UserSession)
    → Filed db
    → lookup str presented db.refresh_tokens ≡ some token
    → is_null token.consumed_at ≡ false
    → lookup str token.refresh_session db.user_sessions ≡ some s
    → (let (db', answer) =
          refresh_in_transaction db settings presented access_hash refresh_hash provider_token
            moment in
        (answer ≡ spent) × IsDead db' token.refresh_session)
unfolding refresh_in_transaction claim_refresh_in_transaction
replay-IsDead db settings presented access_hash refresh_hash provider_token moment token s filed hit
      used there =
    let own = filed token.refresh_session s there in
    let done : refresh_in_transaction db settings presented access_hash refresh_hash provider_token
          moment
        ≡ (revoke_in_transaction db s.session_id "refresh token replayed" moment, spent) =
      ground arith in
    rw done (
      refl,
      subst
          (λ i.
            IsDead (revoke_in_transaction db i "refresh token replayed" moment)
              token.refresh_session)
          (sym own) (revoke-IsDead db token.refresh_session "refresh token replayed" moment filed),
    )
