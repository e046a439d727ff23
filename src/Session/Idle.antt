-- ===== src/Session/Idle.antt =====
-- The idle clock of a session in use (`SessionService.note_used`,
-- src/multiplayer/security/sessions.py). Intervals are in the unit of moments.
use xyzzy.Prelude.{
  Bool, String, arith, false, if◌then◌else◌, lookup, lookup-update_all, ltb, min, refl, some, str,
  true, ℕ, ◌&&◌, ◌+◌, ◌≡◌, ◌≢◌, ◌≤◌, ◌⊎◌,
}
use xyzzy.Session.{SessionRows, UserSession, is_null, same, touch_idle}
use xyzzy.Session.Refresh.{SessionSettings}

unfoldable pub note_used : SessionRows → SessionSettings → ℕ → UserSession → ℕ → SessionRows
note_used db settings idle_bump_seconds session moment =
    let target = moment + settings.idle_seconds in
    if ltb target (session.idle_expires_at + idle_bump_seconds)
    then db
    else touch_idle db session.session_id (min target session.absolute_expires_at)

touched :
    (db : SessionRows) (id j : String) (t : ℕ) (s : UserSession)
    → lookup str j db.user_sessions ≡ some s
    → lookup str j (touch_idle db id t).user_sessions
      ≡ some (
          if same s.session_id id && ltb s.idle_expires_at t && is_null s.revoked_at
          then record s { idle_expires_at = t }
          else s)
unfolding touch_idle
touched db id j t s h =
    let row =
      lookup-update_all str
        (λ (_ : String) (s : UserSession).
          same s.session_id id && ltb s.idle_expires_at t && is_null s.revoked_at)
        (λ (s : UserSession). record s { idle_expires_at = t }) j db.user_sessions in
    ground arith

-- Noting the use of a session that a request read moves no stored session's idle clock backward,
-- whatever was written since the read, and no idle clock past its session's end; a revoked session,
-- a session under another id, and every end and revocation stay as they were.
pub note_used_lem :
    (db : SessionRows) (settings : SessionSettings) (bump : ℕ) (session : UserSession) (moment : ℕ)
    (j : String) (s : UserSession)
    → lookup str j db.user_sessions ≡ some s
    → (s.session_id ≡ session.session_id → s.absolute_expires_at ≡ session.absolute_expires_at)
    → (s' : UserSession) × (lookup str j (note_used db settings bump session moment).user_sessions
        ≡ some s')
      × (s.idle_expires_at ≤ s'.idle_expires_at)
      × (s.idle_expires_at ≤ s.absolute_expires_at → s'.idle_expires_at ≤ s.absolute_expires_at)
      × (s'.absolute_expires_at ≡ s.absolute_expires_at)
      × (s'.revoked_at ≡ s.revoked_at)
      × ((is_null s.revoked_at ≡ false) ⊎ (s.session_id ≢ session.session_id) → s' ≡ s)
unfolding note_used
note_used_lem db settings bump session moment j s h fixed =
    by_test (ltb (moment + settings.idle_seconds) (session.idle_expires_at + bump))
  where
    by_test :
        (b : Bool)
        → (let db' =
              if b
              then db
              else touch_idle db session.session_id
                  (min (moment + settings.idle_seconds) session.absolute_expires_at) in
            (s' : UserSession) × (lookup str j db'.user_sessions ≡ some s')
            × (s.idle_expires_at ≤ s'.idle_expires_at)
            × (s.idle_expires_at ≤ s.absolute_expires_at
                → s'.idle_expires_at ≤ s.absolute_expires_at)
            × (s'.absolute_expires_at ≡ s.absolute_expires_at)
            × (s'.revoked_at ≡ s.revoked_at)
            × ((is_null s.revoked_at ≡ false) ⊎ (s.session_id ≢ session.session_id) → s' ≡ s))
    by_test true = (s, h, omega arith, λ l. l, refl, refl, λ _. refl)
    by_test false =
        let t = min (moment + settings.idle_seconds) session.absolute_expires_at in
        (
          _,
          touched db session.session_id j t s h,
          ground arith,
          λ l. ground arith,
          ground arith,
          ground arith,
          λ c. ground arith,
        )
