-- ===== src/Database/SyncQueries.antt =====
-- internal/database/limitsync.go: which keys are out of date, and what a push records.
use ai_self_service.Prelude.{
  ℕ, zero, suc, ◌&&◌, ◌||◌, not, Bool, true, false, Option, none, some, String, List, [], ◌∷◌, ◌==◌,
  same_nat, same_text, ltb, leb, if◌then◌else◌, is_some, find?, filter, count_if, take, length,
  sort_by, flat_map,
}
use ai_self_service.Database.Models.{Profile, ApiKey, User, Time}
use ai_self_service.Database.Errors.{ok}
use ai_self_service.Database.Tables.{Db, update_keys}
use ai_self_service.Database.Keys.{has_id, owner_of}
use ai_self_service.Exec.{Exec, pure, query, statement, change, now, ◌>>=◌}

-- (SELECT id FROM profiles WHERE is_default <> 0 ORDER BY id LIMIT 1)
unfoldable pub default_id : Db → Option ℕ
default_id d = elim (find? (λ (p : Profile). p.is_default) d.profiles) [
  | none ↦ none
  | some p ↦ some p.id
]

-- COALESCE(u.profile_id, the default's id)
unfoldable pub effective_id : User → Db → Option ℕ
unfolding default_id
effective_id u d = elim u.profile_id [ none ↦ default_id d | some id ↦ some id ]

abbrev pub find_profile : Option ℕ → Db → Option Profile
find_profile none d = none
find_profile (some id) d = find? (λ (p : Profile). p.id == id) d.profiles

-- The WHERE of the `pending` query, for a key, its owner's columns and the joined profile.
unfoldable pub out_of_date : ApiKey → User → Option ℕ → Option Profile → Bool
out_of_date k u id none = true
out_of_date k u id (some p) =
    not (same_nat k.synced_profile_id id)
    || not (same_nat k.synced_rev (some p.limits_rev))
    || not (same_text k.synced_owner_name (some u.name))
    || not (same_text k.synced_owner_email (some u.email))

-- The WHERE of the `effective` query.
unfoldable pub is_live : Time → ApiKey → Bool
is_live at k = ltb at k.expires_at && not (is_some k.missing_since)

pub record LimitSyncTarget : Type 0 where
  pub key_id : ℕ
  pub key_ref : String
  pub key_prefix : String
  pub user_id : ℕ
  pub oidc_sub : String
  pub email : String
  pub name : String
  pub synced_owner_name : Option String
  pub profile_id : Option ℕ
  pub sync_error : String
  pub sync_failed_at : Option Time

unfoldable pub target : ApiKey → User → Option ℕ → LimitSyncTarget
target k u id = record {
  key_id = k.id;
  key_ref = k.key_ref;
  key_prefix = k.key_prefix;
  user_id = k.user_id;
  oidc_sub = u.oidc_sub;
  email = u.email;
  name = u.name;
  synced_owner_name = k.synced_owner_name;
  profile_id = id;
  sync_error = k.sync_error;
  sync_failed_at = k.sync_failed_at;
}

-- The pending row of a key, if it has one: the inner join wants an owner.
unfoldable pub pending_row : Time → Db → ApiKey → Option User → List LimitSyncTarget
unfolding effective_id out_of_date is_live target
pending_row at d k none = []
pending_row at d k (some u) =
    let id = effective_id u d in
    if is_live at k && out_of_date k u id (find_profile id d) then target k u id ∷ [] else []

-- `pendingLimitSyncs`
unfoldable pub pending_rows : Time → Db → List LimitSyncTarget
unfolding pending_row owner_of
pending_rows at d = flat_map (λ (k : ApiKey). pending_row at d k (owner_of k d)) d.keys

-- sync_failed_at IS NULL OR sync_failed_at < since
unfoldable pub not_failed_since : Time → LimitSyncTarget → Bool
not_failed_since since t = elim t.sync_failed_at [ none ↦ true | some f ↦ ltb f since ]

-- ORDER BY sync_failed_at IS NOT NULL, sync_failed_at, key_id
unfoldable pub tried_before : Option Time → Option Time → ℕ → ℕ → Bool
tried_before none none i j = leb i j
tried_before none (some g) i j = true
tried_before (some f) none i j = false
tried_before (some f) (some g) i j = ltb f g || (f == g && leb i j)

unfoldable pub sooner : LimitSyncTarget → LimitSyncTarget → Bool
unfolding tried_before
sooner a b = tried_before a.sync_failed_at b.sync_failed_at a.key_id b.key_id

-- `PendingLimitSyncs`
unfoldable pub pending_limit_syncs : Time → ℕ → Exec (List LimitSyncTarget)
unfolding pending_rows not_failed_since sooner
pending_limit_syncs since limit = do
  at ← now
  query
      (λ d. ok (take limit (sort_by sooner (filter (not_failed_since since) (pending_rows at d)))))

abbrev pub synced_with : ℕ → ℕ → String → String → ApiKey → ApiKey
synced_with profile_id rev name email k = record k {
  synced_profile_id = some profile_id;
  synced_rev = some rev;
  synced_owner_name = some name;
  synced_owner_email = some email;
  sync_error = "";
  sync_failed_at = none;
}

-- `MarkLimitsSynced`
unfoldable pub mark_limits_synced : ℕ → ℕ → ℕ → String → String → Exec (Unit {0})
mark_limits_synced key_id profile_id rev name email =
    change (update_keys (has_id key_id) (synced_with profile_id rev name email))

-- `MarkLimitSyncFailed`
unfoldable pub mark_limit_sync_failed : ℕ → String → Time → Exec (Unit {0})
mark_limit_sync_failed key_id reason at =
    change (
      update_keys (has_id key_id) (λ k. record k { sync_error = reason; sync_failed_at = some at }))

-- `MarkAllLimitsPending`: how many keys it marked.
unfoldable pub mark_all_limits_pending : Exec ℕ
mark_all_limits_pending =
    statement
      (λ d. ok (length d.keys, update_keys (λ k. true) (λ k. record k { synced_rev = none }) d))

pub record LimitSyncFailure : Type 0 where
  pub key_prefix : String
  pub email : String
  pub error : String
  pub failed_at : Time

pub record LimitSyncStatus : Type 0 where
  pub pending : ℕ
  pub failed : ℕ
  pub pending_by_profile : ℕ → ℕ
  pub recent_failures : List LimitSyncFailure

abbrev pub max_listed_failures : ℕ
max_listed_failures = 20

abbrev pub has_failed : LimitSyncTarget → Bool
has_failed t = is_some t.sync_failed_at

unfoldable pub failure_row : LimitSyncTarget → Option Time → List LimitSyncFailure
failure_row t none = []
failure_row t (some at) =
    record { key_prefix = t.key_prefix; email = t.email; error = t.sync_error; failed_at = at } ∷ []

-- ORDER BY sync_failed_at DESC, key_id
unfoldable pub failed_later : Option Time → Option Time → ℕ → ℕ → Bool
failed_later none none i j = leb i j
failed_later none (some g) i j = false
failed_later (some f) none i j = true
failed_later (some f) (some g) i j = ltb g f || (f == g && leb i j)

unfoldable pub recent_failures : Time → Db → List LimitSyncFailure
unfolding failure_row failed_later pending_rows
recent_failures at d =
    flat_map (λ (t : LimitSyncTarget). failure_row t t.sync_failed_at)
      (take max_listed_failures (
        sort_by
          (λ (a b : LimitSyncTarget).
            failed_later a.sync_failed_at b.sync_failed_at a.key_id b.key_id)
          (filter has_failed (pending_rows at d))))

-- GROUP BY profile_id: the rows whose group is the profile's.
unfoldable pub pending_for : List LimitSyncTarget → ℕ → ℕ
pending_for rows id = count_if (λ (t : LimitSyncTarget). same_nat t.profile_id (some id)) rows

unfoldable pub list_failures : ℕ → Exec (List LimitSyncFailure)
unfolding recent_failures
list_failures zero = pure []
list_failures (suc n) = do at ← now; query (λ d. ok (recent_failures at d))

-- `GetLimitSyncStatus`. The counts of the groups add up to the count of the rows.
unfoldable pub get_limit_sync_status : Exec LimitSyncStatus
unfolding pending_rows pending_for list_failures
get_limit_sync_status = do
  at ← now
  rows ← query (λ d. ok (pending_rows at d))
  let failed = count_if has_failed rows
  failures ← list_failures failed
  pure (record {
    pending = length rows;
    failed = failed;
    pending_by_profile = pending_for rows;
    recent_failures = failures;
  })
