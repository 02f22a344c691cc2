-- ===== src/LimitSync.antt =====
-- internal/limitsync/limitsync.go: the Syncer, and the push of one key.
pub mod Workers
pub mod Missing
pub mod Run
pub mod Calls
pub mod Harmless
pub mod Open
pub mod Settled
pub mod Rounds
pub mod Shrinks
pub mod Ends
use Prim.Native.String.{len, slice}
use ai_self_service.Prelude.{
  ℕ, zero, suc, ◌+◌, ◌-◌, max, String, concat, Bool, true, false, not, ◌&&◌, ◌||◌, Option, none,
  some, List, [], ◌∷◌, ◌==◌, ltb, same_text, if◌then◌else◌, any, filter,
}
use ai_self_service.Keyprovider.{
  GatewayUser, GatewayError, key_not_found, other_error, is_not_found, error_text,
}
use ai_self_service.Database.Models.{Profile, Time, limits}
use ai_self_service.Database.Errors.{Error, Result, ok, err, io}
use ai_self_service.Database.Profiles.Reads.{get_profile}
use ai_self_service.Database.Keys.{
  MissingKey, mark_key_missing, clear_key_missing, remove_missing_key, list_missing_keys,
}
use ai_self_service.Database.SyncQueries.{
  LimitSyncTarget, pending_limit_syncs, mark_limits_synced, mark_limit_sync_failed,
}
use ai_self_service.Alias.{new_alias}
use ai_self_service.Exec.{
  Exec, World, GatewayCall, update_limits, update_alias, check_key, pure, raise, call, now,
  ctx_done, attempt, ◌>>=◌, ◌>>◌,
}

-- The fields of the Syncer that the code reads: `user`, `workers` and `grace`.
pub record Syncer : Type 0 where
  pub user : String → String → String → GatewayUser
  pub workers : ℕ
  pub grace : Time

-- `Result`
pub record RunResult : Type 0 where
  pub synced : ℕ
  pub failed : ℕ
  pub marked : ℕ
  pub found : ℕ
  pub removed : ℕ

pub data Outcome : Type 0 where
  synced failed marked : Outcome

-- What `syncOne` returns: the outcome, whether the push was attempted to its end, and an error.
abbrev pub Settled : Type 0
Settled = Outcome × Bool × Option Error

abbrev pub max_error_len : ℕ
max_error_len = 500

-- The reason that is stored. A character that byte 500 cuts is left out here whole.
unfoldable pub shorten : String → String
shorten reason =
    if ltb max_error_len (len reason)
    then concat (slice reason 0 max_error_len ∷ "…" ∷ [])
    else reason

-- What a failed record of an outcome means: nothing once the context has ended.
unfoldable pub unless_done : Error → Exec (Option Error)
unless_done e = do done ← ctx_done; pure (if done then none else some e)

unfoldable pub recorded : Result (Unit {0}) → Exec (Option Error)
unfolding unless_done
recorded (ok u) = pure none
recorded (err e) = unless_done e

-- `fail`
unfoldable pub fail : LimitSyncTarget → String → Exec (Option Error)
unfolding shorten recorded
fail t reason = do
  at ← now
  r ← attempt (mark_limit_sync_failed t.key_id (shorten reason) at)
  recorded r

unfoldable pub failed_with : LimitSyncTarget → String → Exec Settled
unfolding fail
failed_with t reason = do e ← fail t reason; pure (failed, true, e)

abbrev pub gone_detail : String → String → String
gone_detail prefix source =
    concat ("key " ∷ prefix ∷ " no longer exists in the gateway (" ∷ source ∷ ")" ∷ [])

unfoldable pub after_mark : Bool × Option Error → Exec Settled
after_mark (newly, none) = pure (marked, true, none)
after_mark (newly, some e) = do
  done ← ctx_done
  pure (if done then (failed, false, none) else (failed, true, some e))

unfoldable pub mark_missing : LimitSyncTarget → Exec Settled
unfolding after_mark
mark_missing t = do
  r ← mark_key_missing t.key_id t.user_id t.email (gone_detail t.key_prefix "sync")
  after_mark r

-- `pushFailed`
unfoldable pub push_failed : LimitSyncTarget → GatewayError → Exec Settled
unfolding mark_missing failed_with
push_failed t e = do
  done ← ctx_done
  if done
      then pure (failed, false, none)
      else if is_not_found e
      then mark_missing t
      else failed_with t (error_text e)

unfoldable pub after_synced : Result (Unit {0}) → Exec Settled
after_synced (ok u) = pure (synced, true, none)
after_synced (err e) = do
  done ← ctx_done
  pure (if done then (synced, true, none) else (failed, true, some e))

unfoldable pub record_synced : LimitSyncTarget → Profile → Exec Settled
unfolding after_synced
record_synced t p = do
  r ← attempt (mark_limits_synced t.key_id p.id p.limits_rev t.name t.email)
  after_synced r

unfoldable pub alias_failed : GatewayError
alias_failed = other_error "generate key alias"

unfoldable pub push_alias : LimitSyncTarget → Option (List ℕ) → Exec (Option GatewayError)
unfolding alias_failed
push_alias t none = pure (some alias_failed)
push_alias t (some alias) = call (update_alias t.key_ref alias)

unfoldable pub settle_push : LimitSyncTarget → Profile → Option GatewayError → Exec Settled
unfolding push_failed record_synced
settle_push t p (some e) = push_failed t e
settle_push t p none = record_synced t p

-- A new name gets a new alias.
unfoldable pub relabel : LimitSyncTarget → Profile → Exec Settled
unfolding push_alias settle_push
relabel t p =
    if same_text t.synced_owner_name (some t.name)
    then record_synced t p
    else do alias ← new_alias t.oidc_sub t.name; answer ← push_alias t alias; settle_push t p answer

unfoldable pub after_limits : LimitSyncTarget → Profile → Option GatewayError → Exec Settled
unfolding relabel push_failed
after_limits t p (some e) = push_failed t e
after_limits t p none = relabel t p

unfoldable pub push : Syncer → LimitSyncTarget → Profile → Exec Settled
unfolding after_limits
push s t p = do
  answer ← call (update_limits t.key_ref (s.user t.oidc_sub t.name t.email) (limits (some p)))
  after_limits t p answer

abbrev pub load_error : ℕ → Error → Exec String
load_error id e w =
    let env = w.env in
    (ok (concat ("load profile " ∷ env.format_number id ∷ ": " ∷ env.format_error e ∷ [])), w)

unfoldable pub with_profile : Syncer → LimitSyncTarget → ℕ → Result Profile → Exec Settled
unfolding push failed_with
with_profile s t id (ok p) = push s t p
with_profile s t id (err e) = do
  done ← ctx_done
  if done then pure (failed, false, none) else do reason ← load_error id e; failed_with t reason

abbrev pub no_profile : String
no_profile = "the user has no profile and there is no default profile"

unfoldable pub sync_for : Syncer → LimitSyncTarget → Option ℕ → Exec Settled
unfolding with_profile failed_with
sync_for s t none = failed_with t no_profile
sync_for s t (some id) = do p ← attempt (get_profile id); with_profile s t id p

-- `syncOne`
unfoldable pub sync_one : Syncer → LimitSyncTarget → Exec Settled
unfolding sync_for
sync_one s t = sync_for s t t.profile_id
