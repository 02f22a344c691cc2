-- ===== src/LimitSync/Calls.antt =====
-- internal/limitsync/limitsync.go: what the push of one key sends to the gateway.
use ai_self_service.Prelude.{
  ℕ, String, Bool, false, Option, none, some, List, ◌≡◌, refl, ◌∙◌, same_text, if◌then◌else◌, arith,
}
use ai_self_service.Keyprovider.{GatewayError, is_not_found, error_text}
use ai_self_service.Database.Models.{Profile, limits}
use ai_self_service.Database.Errors.{Error, Result, ok, err}
use ai_self_service.Database.Tables.{Db}
use ai_self_service.Database.Profiles.Reads.{get_profile, profile_by_id}
use ai_self_service.Database.Keys.{mark_key_missing, record_key_audit}
use ai_self_service.Database.Sessions.{record_audit}
use ai_self_service.Database.SyncQueries.{
  LimitSyncTarget, mark_limits_synced, mark_limit_sync_failed,
}
use ai_self_service.Alias.{new_alias}
use ai_self_service.Exec.{Exec, World, GatewayCall, update_limits, update_alias, query, attempt}
use ai_self_service.Exec.Ensures.{query_ok}
use ai_self_service.Exec.Sends.{
  Silent, Sends, Silent-pure, Silent-query, Silent-statement, Silent-attempt, Silent-change,
  Silent-now, Silent-ctx_done, Silent-random, Silent-flagged_tx, Silent-bind, Silent-if,
  Sends-Silent, Sends-call, Sends-if, Sends-bind,
}
use ai_self_service.LimitSync.{
  Syncer, fail, recorded, unless_done, failed_with, after_mark, mark_missing, push_failed,
  after_synced, record_synced, push_alias, settle_push, relabel, after_limits, push, with_profile,
  sync_for, sync_one, no_profile,
}

-- The calls that the push of a key may make: the limits of the profile that the key's row names, as
-- the tables hold it, and a new alias if the owner has a new name.
pub data IsPush (s : Syncer) (t : LimitSyncTarget) (d : Db) : GatewayCall → Type 0 where
  pushed_limits :
      (id : ℕ) (p : Profile)
      → t.profile_id ≡ some id
      → profile_by_id id d ≡ ok p
      → IsPush s t d (update_limits t.key_ref (s.user t.oidc_sub t.name t.email) (limits (some p)))
  pushed_alias :
      (alias : List ℕ)
      → same_text t.synced_owner_name (some t.name) ≡ false
      → IsPush s t d (update_alias t.key_ref alias)

unless_done-Silent : (e : Error) → Silent (unless_done e)
unfolding unless_done
unless_done-Silent e =
    Silent-bind Silent-ctx_done (λ done. Silent-pure (if done then none else some e))

recorded-Silent : (r : Result (Unit {0})) → Silent (recorded r)
unfolding recorded
recorded-Silent (ok u) = Silent-pure none
recorded-Silent (err e) = unless_done-Silent e

failed_with-Silent : (t : LimitSyncTarget) (reason : String) → Silent (failed_with t reason)
unfolding failed_with fail mark_limit_sync_failed
failed_with-Silent t reason =
    Silent-bind
      (Silent-bind Silent-now
        (λ at. Silent-bind (Silent-attempt (Silent-change _)) (λ r. recorded-Silent r)))
      (λ e. Silent-pure _)

after_mark-Silent : (r : Bool × Option Error) → Silent (after_mark r)
unfolding after_mark
after_mark-Silent (newly, none) = Silent-pure _
after_mark-Silent (newly, some e) = Silent-bind Silent-ctx_done (λ done. Silent-pure _)

mark_missing-Silent : (t : LimitSyncTarget) → Silent (mark_missing t)
unfolding mark_missing mark_key_missing record_key_audit record_audit
mark_missing-Silent t =
    Silent-bind
      (Silent-flagged_tx (Silent-bind Silent-now (λ at. Silent-statement _))
        (Silent-bind Silent-now (λ at. Silent-change _)))
      (λ r. after_mark-Silent r)

push_failed-Silent : (t : LimitSyncTarget) (e : GatewayError) → Silent (push_failed t e)
unfolding push_failed
push_failed-Silent t e = Silent-bind Silent-ctx_done (λ done.
    Silent-if done (Silent-pure _)
      (Silent-if (is_not_found e) (mark_missing-Silent t) (failed_with-Silent t (error_text e))))

after_synced-Silent : (r : Result (Unit {0})) → Silent (after_synced r)
unfolding after_synced
after_synced-Silent (ok u) = Silent-pure _
after_synced-Silent (err e) = Silent-bind Silent-ctx_done (λ done. Silent-pure _)

record_synced-Silent : (t : LimitSyncTarget) (p : Profile) → Silent (record_synced t p)
unfolding record_synced mark_limits_synced
record_synced-Silent t p =
    Silent-bind (Silent-attempt (Silent-change _)) (λ r. after_synced-Silent r)

new_alias-Silent : (sub name : String) → Silent (new_alias sub name)
unfolding new_alias
new_alias-Silent sub name = Silent-bind Silent-random (λ hex. Silent-pure _)

settle_push-Silent :
    (t : LimitSyncTarget) (p : Profile) (e : Option GatewayError) → Silent (settle_push t p e)
unfolding settle_push
settle_push-Silent t p none = record_synced-Silent t p
settle_push-Silent t p (some e) = push_failed-Silent t e

module _ (s : Syncer) (t : LimitSyncTarget) (d : Db) where
  push_alias-Sends :
      (w : World) (alias : Option (List ℕ))
      → same_text t.synced_owner_name (some t.name) ≡ false
      → Sends (IsPush s t d) w (push_alias t alias)
  unfolding push_alias
  push_alias-Sends w none h = Sends-Silent w (Silent-pure _)
  push_alias-Sends w (some alias) h = Sends-call w _ (pushed_alias alias h)

  relabel-Sends : (w : World) (p : Profile) → Sends (IsPush s t d) w (relabel t p)
  unfolding relabel
  relabel-Sends w p =
      Sends-if w (same_text t.synced_owner_name (some t.name))
        (λ h. Sends-Silent w (record_synced-Silent t p))
        (λ h. Sends-bind w (Sends-Silent w (new_alias-Silent t.oidc_sub t.name)) (λ alias q.
          Sends-bind _ (push_alias-Sends _ alias h)
            (λ answer r. Sends-Silent _ (settle_push-Silent t p answer))))

  after_limits-Sends :
      (w : World) (p : Profile) (e : Option GatewayError)
      → Sends (IsPush s t d) w (after_limits t p e)
  unfolding after_limits
  after_limits-Sends w p none = relabel-Sends w p
  after_limits-Sends w p (some e) = Sends-Silent w (push_failed-Silent t e)

  push-Sends :
      (w : World) (id : ℕ) (p : Profile)
      → t.profile_id ≡ some id
      → profile_by_id id d ≡ ok p
      → Sends (IsPush s t d) w (push s t p)
  unfolding push
  push-Sends w id p hid hp =
      Sends-bind w (Sends-call w _ (pushed_limits id p hid hp)) (λ e q. after_limits-Sends _ p e)

  with_profile-Sends :
      (w : World) (id : ℕ) (r : Result Profile)
      → t.profile_id ≡ some id
      → ((p : Profile) → r ≡ ok p → profile_by_id id d ≡ ok p)
      → Sends (IsPush s t d) w (with_profile s t id r)
  unfolding with_profile
  with_profile-Sends w id (ok p) hid hp = push-Sends w id p hid (hp p refl)
  with_profile-Sends w id (err e) hid hp = Sends-Silent w (
      Silent-bind Silent-ctx_done (λ done.
        Silent-if done (Silent-pure _)
          (Silent-bind (record { at = λ v. refl }) (λ reason. failed_with-Silent t reason))))

attempt_lem :
    {A : Type 0} (m : Exec A) (w : World) (r : Result A) → (attempt m w).0 ≡ ok r → (m w).0 ≡ r
unfolding attempt
attempt_lem m w r h = ground arith

module _ (s : Syncer) (t : LimitSyncTarget) (w : World) where
  sync_for-Sends :
      (target_profile : Option ℕ)
      → t.profile_id ≡ target_profile
      → Sends (IsPush s t w.db) w (sync_for s t target_profile)
  unfolding sync_for get_profile
  sync_for-Sends none h = Sends-Silent w (failed_with-Silent t no_profile)
  sync_for-Sends (some id) h =
      Sends-bind w (Sends-Silent w (Silent-attempt (Silent-query (profile_by_id id)))) (λ r q.
        with_profile-Sends s t w.db _ id r h (λ p e.
          (query_ok (profile_by_id id) w p (attempt_lem (query (profile_by_id id)) w r q ∙ e)).0))

  -- Whatever the database, the gateway and the context do, each call that the push of a key makes is
  -- one of two: it puts the limits of the profile that the key's row names, as the tables hold it,
  -- on that key, or it gives that key a new alias, and then the owner's name is not the one last
  -- pushed.
  pub sync_one-Sends : Sends (IsPush s t w.db) w (sync_one s t)
  unfolding sync_one
  sync_one-Sends = sync_for-Sends t.profile_id refl
