-- ===== src/Tests/SignIn.antt =====
-- The sessions' theorems on one session with one pair of credentials.
use xyzzy.Session.Reuse.{presented_twice}
use xyzzy.Prelude.{
  [], arith, false, insert, lookup, none, refl, some, str, true, ℕ, ◌∷◌, ◌≡◌, ◌≢◌, ◌≤◌, ◌⊎◌,
}
use xyzzy.Session.{
  SessionRefreshToken, SessionRows, UserSession, alive_at, claim_refresh_in_transaction,
  insert_access, is_null, issue_refresh_in_transaction,
}
use xyzzy.Session.Refresh.{
  SessionSettings, ended, is_asked, issued, refresh, refresh_in_transaction, rotate, spent,
  withdrawn,
}
use xyzzy.Session.Revoked.{Filed, IsDead, replay-IsDead}
use xyzzy.Session.Provider.{refresh-withdrawn}
use xyzzy.Session.Rotation.{IsRotated, refresh-IsRotated}
use xyzzy.Session.Idle.{note_used, note_used_lem}

abbrev one_session : UserSession
one_session = record {
  session_id = "x";
  user_id = "u1";
  issuer = "i";
  subject = "s";
  idp_session_id = none;
  created_at = 0;
  idle_expires_at = 30;
  absolute_expires_at = 100;
  revoked_at = none;
  revoked_reason = "";
  idp_id_token = "";
  idp_refresh_token = "";
}

abbrev one_refresh : SessionRefreshToken
one_refresh = record {
  refresh_session = "x";
  issued_at = 0;
  expires_at = 100;
  consumed_at = none;
  replaced_by_hash = none;
}

abbrev used_refresh : SessionRefreshToken
used_refresh = record one_refresh { consumed_at = some 5; replaced_by_hash = some "h2" }

abbrev rows_of_one : SessionRefreshToken → SessionRows
rows_of_one r = record {
  user_sessions = ("x", one_session) ∷ [];
  refresh_tokens = ("h1", r) ∷ [];
  user_tokens =
      (
        "a1",
        record {
          token_user = "u1";
          token_session = some "x";
          token_created_at = 0;
          token_expires_at = some 5;
          token_revoked_at = none;
        },
      )
      ∷ [];
  logout_tokens = [];
}

abbrev ten_settings : SessionSettings
ten_settings = record { idle_seconds = 30; access_seconds = 5 }

one_Filed : (r : SessionRefreshToken) → Filed (rows_of_one r)
unfolding lookup
one_Filed r id s h = ground arith

abbrev after_one : SessionRows
after_one = (refresh_in_transaction (rows_of_one one_refresh) ten_settings "h1" "a2" "h2" none 10).0

abbrev issued_session : UserSession
issued_session = record one_session { idle_expires_at = 40 }

one_issued :
    refresh_in_transaction (rows_of_one one_refresh) ten_settings "h1" "a2" "h2" none 10
    ≡ (after_one, issued issued_session)
unfolding refresh_in_transaction claim_refresh_in_transaction rotate insert_access
    issue_refresh_in_transaction alive_at lookup str insert
one_issued = refl

replay-IsDead_example :
    (let (db', answer) =
        refresh_in_transaction (rows_of_one used_refresh) ten_settings "h1" "a2" "h2" none 10 in
      (answer ≡ spent) × IsDead db' "x")
unfolding lookup str
replay-IsDead_example =
    replay-IsDead (rows_of_one used_refresh) ten_settings "h1" "a2" "h2" none 10 used_refresh
      one_session (one_Filed used_refresh) refl refl refl

refresh-IsRotated_example :
    (alive_at one_session 10 ≡ true) × IsRotated after_one one_session "h1" "a2" "h2"
unfolding lookup str
refresh-IsRotated_example =
    refresh-IsRotated (rows_of_one one_refresh) ten_settings "h1" "a2" "h2" none 10 one_refresh
      one_session after_one issued_session (one_Filed one_refresh) refl refl one_issued

presented_twice_example :
    (let (db'', answer) = refresh_in_transaction after_one ten_settings "h1" "a3" "h3" none 11 in
      (answer ≡ spent) × IsDead db'' "x")
unfolding lookup str
presented_twice_example =
    presented_twice (rows_of_one one_refresh) ten_settings "h1" "a2" "h2" none 10 one_refresh
      one_session after_one issued_session "a3" "h3" none 11 (one_Filed one_refresh) refl refl
      one_issued

note_used_lem_example :
    (s' : UserSession) × (lookup str "x"
        (note_used (rows_of_one one_refresh) ten_settings 6 one_session 20).user_sessions
      ≡ some s')
    × (30 ≤ s'.idle_expires_at)
    × (30 ≤ 100 → s'.idle_expires_at ≤ 100)
    × (s'.absolute_expires_at ≡ 100)
    × (s'.revoked_at ≡ none)
    × ((is_null {A = ℕ} none ≡ false) ⊎ (one_session.session_id ≢ one_session.session_id)
        → s' ≡ one_session)
unfolding lookup str
note_used_lem_example =
    note_used_lem (rows_of_one one_refresh) ten_settings 6 one_session 20 "x" one_session refl
      (λ e. refl)

abbrev provided_session : UserSession
provided_session = record one_session { idp_refresh_token = "p" }

abbrev provided_rows : SessionRows
provided_rows = record (rows_of_one one_refresh) { user_sessions = ("x", provided_session) ∷ [] }

provided_Filed : Filed provided_rows
unfolding lookup
provided_Filed id s h = ground arith

refresh-withdrawn_example :
    (let (db', answer) =
        refresh provided_rows provided_rows ten_settings "h1" "a2" "h2" withdrawn 10 in
      (answer ≡ ended) × IsDead db' "x")
unfolding lookup str is_asked
refresh-withdrawn_example =
    refresh-withdrawn provided_rows provided_rows ten_settings "h1" "a2" "h2" 10 one_refresh
      provided_session provided_Filed refl refl refl
