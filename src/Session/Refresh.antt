-- ===== src/Session/Refresh.antt =====
-- The rotation of a refresh token (`SessionService.refresh`, src/multiplayer/security/sessions.py).
-- Its first reads, the question to the provider and its transaction are steps of their own: other
-- requests may run between them, so the first reads have rows of their own.
use xyzzy.Prelude.{
  Bool, Option, Result, String, err, false, if◌then◌else◌, insert, ite, lookup, ltb, min, none, not,
  ok, some, str, true, ℕ, ◌+◌, ◌>>=◌, ◌||◌,
}
use xyzzy.Session.{
  SessionError, SessionRefreshToken, SessionRows, UserSession, alive_at,
  claim_refresh_in_transaction, insert_access, is_null, issue_refresh_in_transaction,
  revoke_in_transaction, same, supersede_access_tokens_in_transaction,
}

pub record SessionSettings : Type 0 where
  pub idle_seconds : ℕ
  pub access_seconds : ℕ

-- What a call answers: a session, or one of its refusals.
pub data Answer : Type 0 where
  issued : UserSession → Answer
  unrecognised spent ended storage_failed : Answer

-- `provider_tokens.get("refresh_token")`, kept where it is there and not empty.
abbrev pub kept_provider_token : Option String → String → String
kept_provider_token none old = old
kept_provider_token (some t) old = ite (str t "") old t

-- The writes of a rotation that is not doomed.
unfoldable pub rotate :
    SessionRows
    → SessionSettings
    → UserSession
    → String
    → String
    → Option String
    → ℕ
    → Result SessionError (SessionRows × UserSession)
rotate db settings session access_hash refresh_hash provider_token moment = do
  let idle = min (moment + settings.idle_seconds) session.absolute_expires_at
  let rotated : UserSession = record session {
    idle_expires_at = idle;
    revoked_at = none;
    revoked_reason = "";
    idp_id_token = "";
    idp_refresh_token = "";
  }
  db₁ ←
      insert_access db access_hash session moment
        (min (moment + settings.access_seconds) session.absolute_expires_at)
  db₂ ← issue_refresh_in_transaction db₁ refresh_hash (record {
    refresh_session = session.session_id;
    issued_at = moment;
    expires_at = session.absolute_expires_at;
    consumed_at = none;
    replaced_by_hash = none;
  })
  let stored = record session {
    idle_expires_at = idle;
    idp_refresh_token = kept_provider_token provider_token session.idp_refresh_token;
  }
  let db₃ = record db₂ { user_sessions = insert str session.session_id stored db₂.user_sessions }
  ok (supersede_access_tokens_in_transaction db₃ session.session_id moment access_hash, rotated)

-- A failed write rolls the transaction back.
abbrev pub or_before :
    SessionRows → Result SessionError (SessionRows × UserSession) → SessionRows × Answer
or_before db (ok (db', s)) = (db', issued s)
or_before db (err _) = (db, storage_failed)

-- The transaction, and the second one that revokes a doomed session.
unfoldable pub refresh_in_transaction :
    SessionRows
    → SessionSettings
    → String
    → String
    → String
    → Option String
    → ℕ
    → SessionRows × Answer
unfolding rotate
refresh_in_transaction db settings presented_hash access_hash refresh_hash provider_token moment =
    elim (lookup str presented_hash db.refresh_tokens) [
      | none ↦ (db, unrecognised)
      | some token ↦ elim (lookup str token.refresh_session db.user_sessions) [
        | none ↦ (db, unrecognised)
        | some session ↦
            let (db₁, claimed) =
              claim_refresh_in_transaction db presented_hash refresh_hash moment in
            if not claimed
            then (
              revoke_in_transaction db₁ session.session_id "refresh token replayed" moment,
              spent,
            )
            else if not (alive_at session moment) || ltb token.expires_at moment
            then (revoke_in_transaction db₁ session.session_id "expired" moment, ended)
            else or_before db
                (rotate db₁ settings session access_hash refresh_hash provider_token moment)
      ]
    ]

-- What the provider answers: it no longer vouches for the person (`OidcError`), or it does, with a
-- new token of its own or without.
pub data ProviderAnswer : Type 0 where
  withdrawn : ProviderAnswer
  vouched : Option String → ProviderAnswer

-- The provider is asked for an unspent token of a session that holds a token of the provider.
unfoldable pub is_asked : SessionRefreshToken → UserSession → Bool
is_asked prior session =
    if not (is_null prior.consumed_at) || same session.idp_refresh_token "" then false else true

-- `_revalidate`: the rows of a session that ended, or the provider's new token.
unfoldable pub revalidate :
    SessionRows
    → UserSession
    → SessionRefreshToken
    → ProviderAnswer
    → ℕ
    → Result SessionRows (Option String)
unfolding is_asked
revalidate db session prior provider moment =
    if not (is_asked prior session) then ok none else elim provider [
      | vouched token ↦ ok token
      | withdrawn ↦
          err (
            revoke_in_transaction db session.session_id "the provider withdrew this session" moment)
    ]

-- The whole call: `before` are the rows of its first reads, `db` those that it finds afterwards.
unfoldable pub refresh :
    SessionRows
    → SessionRows
    → SessionSettings
    → String
    → String
    → String
    → ProviderAnswer
    → ℕ
    → SessionRows × Answer
unfolding revalidate refresh_in_transaction
refresh before db settings presented_hash access_hash refresh_hash provider moment =
    elim (lookup str presented_hash before.refresh_tokens) [
      | none ↦ (db, unrecognised)
      | some prior ↦ elim (lookup str prior.refresh_session before.user_sessions) [
        | none ↦ (db, unrecognised)
        | some session ↦ elim (revalidate db session prior provider moment) [
          | err db' ↦ (db', ended)
          | ok provider_token ↦
              refresh_in_transaction db settings presented_hash access_hash refresh_hash
                provider_token moment
        ]
      ]
    ]
