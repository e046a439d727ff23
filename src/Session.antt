-- ===== src/Session.antt =====
-- Sign-in sessions and the credentials minted for them (`UserSession`, `SessionRefreshToken` of
-- src/multiplayer/domain/models.py, `UserSessionRepo` of src/multiplayer/db/repositories.py). A
-- moment is a number; hashes of tokens are texts.
pub mod Refresh
pub mod Revoked
pub mod Rotation
pub mod Reuse
pub mod Provider
pub mod Idle
use xyzzy.Prelude.{
  Bool, List, Option, Result, String, [], err, false, if◌then◌else◌, insert, ite, lookup, ltb, none,
  not, ok, some, str, true, update_all, ℕ, ◌&&◌, ◌>>=◌, ◌>>◌, ◌||◌, ◌∷◌,
}

pub record UserSession : Type 0 where
  pub session_id : String
  pub user_id : String
  pub issuer : String
  pub subject : String
  pub idp_session_id : Option String
  pub created_at : ℕ
  pub idle_expires_at : ℕ
  pub absolute_expires_at : ℕ
  pub revoked_at : Option ℕ
  pub revoked_reason : String
  pub idp_id_token : String
  pub idp_refresh_token : String

pub record SessionRefreshToken : Type 0 where
  pub refresh_session : String
  pub issued_at : ℕ
  pub expires_at : ℕ
  pub consumed_at : Option ℕ
  pub replaced_by_hash : Option String

-- A row of `user_tokens`: the credential that a request presents.
pub record AccessToken : Type 0 where
  pub token_user : String
  pub token_session : Option String
  pub token_created_at : ℕ
  pub token_expires_at : Option ℕ
  pub token_revoked_at : Option ℕ

-- The tables, by primary key.
pub record SessionRows : Type 0 where
  pub user_sessions : List (String × UserSession)
  pub refresh_tokens : List (String × SessionRefreshToken)
  pub user_tokens : List (String × AccessToken)
  pub logout_tokens : List (String × String)  -- by token id and issuer

pub data SessionError : Type 0 where
  integrity_error value_error : SessionError

-- `column IS NULL` and `column = ?`
abbrev pub is_null {ℓ} : {A : Type ℓ} → Option A → Bool
is_null none = true
is_null (some _) = false

abbrev pub same : String → String → Bool
same a b = ite (str a b) true false

abbrev pub equals : Option String → String → Bool
equals none b = false
equals (some a) b = same a b

unfoldable pub alive_at : UserSession → ℕ → Bool
alive_at s moment =
    if not (is_null s.revoked_at)
    then false
    else (ltb moment s.idle_expires_at && ltb moment s.absolute_expires_at)

-- `INSERT`, under a primary key.
abbrev pub insert_new :
    {V : Type 0} → String → V → List (String × V) → Result SessionError (List (String × V))
insert_new k v d = elim (lookup str k d) [
  | none ↦ ok (insert str k v d)
  | some _ ↦ err integrity_error
]

unfoldable pub issue_refresh_in_transaction :
    SessionRows → String → SessionRefreshToken → Result SessionError SessionRows
issue_refresh_in_transaction db token_hash refresh = do
  rows ←
      insert_new token_hash (record refresh { consumed_at = none; replaced_by_hash = none })
        db.refresh_tokens
  ok (record db { refresh_tokens = rows })

-- `INSERT INTO user_tokens`, of a session's credential.
unfoldable pub insert_access :
    SessionRows → String → UserSession → ℕ → ℕ → Result SessionError SessionRows
insert_access db token_hash session created_at expires_at = do
  let token : AccessToken = record {
    token_user = session.user_id;
    token_session = some session.session_id;
    token_created_at = created_at;
    token_expires_at = some expires_at;
    token_revoked_at = none;
  }
  rows ← insert_new token_hash token db.user_tokens
  ok (record db { user_tokens = rows })

unfoldable pub create_in_transaction :
    SessionRows
    → UserSession
    → String
    → String
    → SessionRefreshToken
    → ℕ
    → Result SessionError (SessionRows × UserSession)
unfolding insert_access issue_refresh_in_transaction
create_in_transaction db session access_hash refresh_hash refresh access_expires_at = do
  rows ←
      insert_new session.session_id (record session { revoked_at = none; revoked_reason = "" })
        db.user_sessions
  db₁ ←
      insert_access (record db { user_sessions = rows }) access_hash session session.created_at
        access_expires_at
  db₂ ← issue_refresh_in_transaction db₁ refresh_hash refresh
  ok (db₂, session)

unfoldable pub touch_idle : SessionRows → String → ℕ → SessionRows
touch_idle db id idle_expires_at = record db {
  user_sessions =
      update_all
        (λ (_ : String) (s : UserSession).
          same s.session_id id && ltb s.idle_expires_at idle_expires_at && is_null s.revoked_at)
        (λ (s : UserSession). record s { idle_expires_at = idle_expires_at }) db.user_sessions;
}

-- The rows after the claim, and whether it changed one.
unfoldable pub claim_refresh_in_transaction : SessionRows → String → String → ℕ → SessionRows × Bool
claim_refresh_in_transaction db token_hash replaced_by_hash moment =
    elim (lookup str token_hash db.refresh_tokens) [
      | none ↦ (db, false)
      | some r ↦
          if is_null r.consumed_at
          then (
            record db {
              refresh_tokens =
                  insert str token_hash
                    (record r {
                      consumed_at = some moment;
                      replaced_by_hash = some replaced_by_hash;
                    })
                    db.refresh_tokens;
            },
            true,
          )
          else (db, false)
    ]

unfoldable pub revoke_in_transaction : SessionRows → String → String → ℕ → SessionRows
revoke_in_transaction db id reason moment = record db {
  user_sessions =
      update_all (λ (_ : String) (s : UserSession). same s.session_id id && is_null s.revoked_at)
        (λ (s : UserSession). record s { revoked_at = some moment; revoked_reason = reason })
        db.user_sessions;
  user_tokens =
      update_all
        (λ (_ : String) (t : AccessToken). equals t.token_session id && is_null t.token_revoked_at)
        (λ (t : AccessToken). record t { token_revoked_at = some moment }) db.user_tokens;
  refresh_tokens =
      update_all
        (λ (_ : String) (r : SessionRefreshToken).
          same r.refresh_session id && is_null r.consumed_at)
        (λ (r : SessionRefreshToken). record r { consumed_at = some moment }) db.refresh_tokens;
}

-- Its result: whether the session was unrevoked before.
unfoldable pub was_live : SessionRows → String → Bool
was_live db id = elim (lookup str id db.user_sessions) [
  | none ↦ false
  | some s ↦ is_null s.revoked_at
]

unfoldable pub supersede_access_tokens_in_transaction :
    SessionRows → String → ℕ → String → SessionRows
supersede_access_tokens_in_transaction db id moment keep_hash = record db {
  user_tokens =
      update_all
        (λ (token_hash : String) (t : AccessToken).
          equals t.token_session id
          && not (same token_hash keep_hash)
          && is_null t.token_revoked_at)
        (λ (t : AccessToken). record t { token_revoked_at = some moment }) db.user_tokens;
}

unfoldable pub remember_logout_token_in_transaction :
    SessionRows → String → String → SessionRows × Bool
remember_logout_token_in_transaction db jti issuer =
    if seen db.logout_tokens
    then (db, false)
    else (record db { logout_tokens = (jti, issuer) ∷ db.logout_tokens }, true)
  where
    seen : List (String × String) → Bool
    seen [] = false
    seen ((j, i) ∷ rest) = (same j jti && same i issuer) || seen rest
