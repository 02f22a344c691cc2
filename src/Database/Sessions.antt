-- ===== src/Database/Sessions.antt =====
-- internal/database/db.go: the operations on sessions and on the audit log.
use ai_self_service.Prelude.{
  ℕ, ◌&&◌, ◌||◌, Bool, String, List, ◌==◌, str_eq, ltb, leb, if◌then◌else◌, find?, any, take,
  sort_by,
}
use ai_self_service.Database.Models.{Session, User, Time, AuditEvent}
use ai_self_service.Database.Errors.{ok}
use ai_self_service.Database.Tables.{Db, insert_session, delete_sessions, insert_event}
use ai_self_service.Database.Profiles.Reads.{or_no_rows}
use ai_self_service.Exec.{Exec, pure, query, statement, change, now, ◌>>=◌}

-- `CreateSession`
unfoldable pub create_session : ℕ → String → String → Time → Exec (Unit {0})
create_session user_id token id_token expires_at = do
  at ← now
  statement (
      insert_session (record {
        id = 0;
        user_id = user_id;
        token = token;
        id_token = id_token;
        expires_at = expires_at;
        created_at = at;
      }))

-- `GetSessionByToken`
unfoldable pub get_session_by_token : String → Exec Session
get_session_by_token token =
    query (λ d. or_no_rows (find? (λ (s : Session). str_eq s.token token) d.sessions))

-- `DeleteSession`
unfoldable pub delete_session : ℕ → Exec (Unit {0})
delete_session id = change (delete_sessions (λ s. s.id == id))

-- The users that the subquery of `DeleteSessionsByOIDCSub` names.
unfoldable pub owned_by_sub : String → Db → Session → Bool
owned_by_sub sub d s = any (λ (u : User). u.id == s.user_id && str_eq u.oidc_sub sub) d.users

-- `DeleteSessionsByOIDCSub`
unfoldable pub delete_sessions_by_sub : String → Exec (Unit {0})
unfolding owned_by_sub
delete_sessions_by_sub sub = change (λ d. delete_sessions (owned_by_sub sub d) d)

-- `DeleteExpiredSessions`
unfoldable pub delete_expired_sessions : Exec (Unit {0})
delete_expired_sessions = do at ← now; change (delete_sessions (λ s. ltb s.expires_at at))

-- `GetSessionIDToken`
unfoldable pub get_session_id_token : ℕ → Exec String
get_session_id_token id = do
  s ← query (λ d. or_no_rows (find? (λ (s : Session). s.id == id) d.sessions))
  pure s.id_token

-- `RecordAudit`
unfoldable pub record_audit : AuditEvent → Exec (Unit {0})
record_audit e = do at ← now; change (insert_event (record e { created_at = at }))

unfoldable pub newer : AuditEvent → AuditEvent → Bool
newer a b = ltb b.created_at a.created_at || (a.created_at == b.created_at && leb b.id a.id)

-- `ListAuditEvents`; a limit of zero, or a negative one, means 100.
unfoldable pub list_audit_events : ℕ → Exec (List AuditEvent)
unfolding newer
list_audit_events limit =
    let n : ℕ = if limit == 0 then 100 else limit in
    query (λ d. ok (take n (sort_by newer d.events)))
