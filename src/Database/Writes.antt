-- ===== src/Database/Writes.antt =====
-- The methods of the Store that change rows, as data, so that a theorem can speak of any of them.
-- `mark_key_missing` and its two neighbours return their error as a value and stand apart.
use ai_self_service.Prelude.{ℕ, String, Bool, Option, List}
use ai_self_service.Database.Models.{ProfileQuota, Profile, ApiKey, Time, AuditEvent}
use ai_self_service.Database.Profiles.{
  seed_default_profile, create_profile, update_profile, delete_profile,
}
use ai_self_service.Database.Users.{
  get_or_create_user, set_user_profile, set_user_profile_until, apply_profile_expiry,
  set_user_admin,
}
use ai_self_service.Database.Keys.{
  replace_api_key, create_api_key, update_api_key_expiry, delete_api_key, mark_expiry_notice_sent,
}
use ai_self_service.Database.Sessions.{
  create_session, delete_session, delete_sessions_by_sub, delete_expired_sessions, record_audit,
}
use ai_self_service.Database.SyncQueries.{
  mark_limits_synced, mark_limit_sync_failed, mark_all_limits_pending,
}
use ai_self_service.Exec.{Exec, pure, ◌>>◌}

pub data Write : Type 0 where
  seeds : Write
  creates_profile updates_profile : Profile → List ProfileQuota → Write
  deletes_profile : ℕ → Write
  signs_in : String → String → String → Write
  assigns : ℕ → Option ℕ → Write
  assigns_until : ℕ → Option ℕ → Option Time → Option ℕ → Bool → Write
  expires : ℕ → Option ℕ → Write
  sets_admin : ℕ → Bool → Write
  replaces_key creates_key : ApiKey → Write
  moves_expiry : ℕ → Time → Write
  deletes_key : ℕ → Write
  notices : ℕ → ℕ → Write
  opens_session : ℕ → String → String → Time → Write
  closes_session : ℕ → Write
  closes_sessions_of : String → Write
  sweeps_sessions : Write
  audits : AuditEvent → Write
  marks_synced : ℕ → ℕ → ℕ → String → String → Write
  marks_failed : ℕ → String → Time → Write
  marks_all_pending : Write

abbrev pub ignore : {A : Type 0} → Exec A → Exec (Unit {0})
ignore m = do m; pure tt

-- The call of the method, its result dropped.
unfoldable pub write : Write → Exec (Unit {0})
write seeds = ignore seed_default_profile
write (creates_profile p qs) = ignore (create_profile p qs)
write (updates_profile p qs) = ignore (update_profile p qs)
write (deletes_profile id) = ignore (delete_profile id)
write (signs_in sub email name) = ignore (get_or_create_user sub email name)
write (assigns id ref) = ignore (set_user_profile id ref)
write (assigns_until id ref at after revoke) =
    ignore (set_user_profile_until id ref at after revoke)
write (expires id ref) = ignore (apply_profile_expiry id ref)
write (sets_admin id admin) = ignore (set_user_admin id admin)
write (replaces_key k) = ignore (replace_api_key k)
write (creates_key k) = ignore (create_api_key k)
write (moves_expiry id at) = ignore (update_api_key_expiry id at)
write (deletes_key id) = ignore (delete_api_key id)
write (notices id days) = ignore (mark_expiry_notice_sent id days)
write (opens_session id token id_token at) = ignore (create_session id token id_token at)
write (closes_session id) = ignore (delete_session id)
write (closes_sessions_of sub) = ignore (delete_sessions_by_sub sub)
write sweeps_sessions = ignore delete_expired_sessions
write (audits e) = ignore (record_audit e)
write (marks_synced id profile rev name email) =
    ignore (mark_limits_synced id profile rev name email)
write (marks_failed id reason at) = ignore (mark_limit_sync_failed id reason at)
write marks_all_pending = ignore mark_all_limits_pending
