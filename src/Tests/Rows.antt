-- ===== src/Tests/Rows.antt =====
-- The theorems about the database, at the example.
use ai_self_service.Prelude.{
  ◌≡◌, ◌≢◌, ◌↔◌, ◌<◌, refl, true, none, some, [], ◌∷◌, arith, count_if, find?, delete_if, filter,
  any, update_if, str_eq,
}
use ai_self_service.Database.Models.{Profile, key_missing, key_found, key_gone}
use ai_self_service.Database.Errors.{ok, err, io}
use ai_self_service.Database.Tables.{
  delete_keys, insert_key, insert_profile, update_profile_row, clear_default_rows, quotas_of,
  insert_quotas, profile_exists, delete_quota_rows,
}
use ai_self_service.Keyprovider.{le_zero}
use ai_self_service.Database.Quotas.{
  WindowKey, same_quota_windows, insert_rows, replace_quotas_tx, set_profile_quotas_tx,
}
use ai_self_service.Database.Quotas.Same.{occurrences, same_quota_windows_iff}
use ai_self_service.Database.Profiles.{
  seed_default_profile, seed_into, demoted_defaults, clear_default_profile, limits_differ,
  update_profile_tx, update_profile,
}
use ai_self_service.Database.Profiles.Reads.{with_quotas}
use ai_self_service.Database.Keys.{
  replace_api_key, has_id, mark_key_missing, clear_key_missing, remove_missing_key,
}
use ai_self_service.Database.SyncQueries.{pending_row, synced_with, mark_limits_synced}
use ai_self_service.Database.Writes.{Write, write}
use ai_self_service.Database.Atomicity.{write_rolled_back}
use ai_self_service.Database.Defaults.Rows.{HasDefault}
use ai_self_service.Database.Defaults.Others.{write-HasDefault}
use ai_self_service.Database.Defaults.Seed.{Constrained, seed_default_profile-HasDefault}
use ai_self_service.Database.Revisions.Exact.{Raises, update_profile-Raises}
use ai_self_service.Database.Pending.{
  UpToDate, StillHolds, pending_row_iff, mark_limits_synced-pending,
}
use ai_self_service.Database.Missing.{key_event}
use ai_self_service.Database.Missing.Exact.{
  Settled, HasNone, HasMark, IsDue, MarksKey, UnmarksKey, RemovesKey, missing_writes-Settle,
}
use ai_self_service.Exec.{now, query, change, statement, run_in_tx, ◌>>=◌}
use ai_self_service.Tests.Worlds.{
  monthly, hourly, standard, ada, ada_key, new_key, portal, calm_world, stormy_world, first_start,
}

-- The INSERT fails after the DELETE of the old key.
replaced_fails : (write (Write.replaces_key new_key) stormy_world).0 ≡ err io
unfolding write replace_api_key run_in_tx now change statement delete_keys insert_key ◌>>=◌
    delete_if filter any
replaced_fails = refl

write_rolled_back_example : (write (Write.replaces_key new_key) stormy_world).1.db ≡ portal
write_rolled_back_example =
    write_rolled_back (Write.replaces_key new_key) stormy_world io replaced_fails

portal-HasDefault : HasDefault portal.profiles
unfolding count_if
portal-HasDefault = record { one = refl; ids = λ i. ground arith }

write-HasDefault_example : HasDefault (write (Write.deletes_profile 2) calm_world).1.db.profiles
write-HasDefault_example = write-HasDefault (Write.deletes_profile 2) calm_world portal-HasDefault

seeded : (seed_default_profile first_start).0 ≡ ok tt
unfolding seed_default_profile seed_into run_in_tx now change statement query insert_profile any
    ◌>>=◌
seeded = refl

empty-Constrained : Constrained first_start.db.profiles
unfolding count_if
empty-Constrained = record { defaults = omega arith; names = omega arith; ids = λ i. omega arith }

seed_default_profile-HasDefault_example :
    HasDefault (seed_default_profile first_start).1.db.profiles
seed_default_profile-HasDefault_example =
    seed_default_profile-HasDefault first_start empty-Constrained seeded

same_quota_windows_iff_example :
    (same_quota_windows (monthly ∷ hourly ∷ []) (hourly ∷ monthly ∷ []) ≡ true) ↔ (
      (k : WindowKey)
      → occurrences k (monthly ∷ hourly ∷ []) ≡ occurrences k (hourly ∷ monthly ∷ []))
same_quota_windows_iff_example =
    same_quota_windows_iff (monthly ∷ hourly ∷ []) (hourly ∷ monthly ∷ [])

pending_row_iff_example : (pending_row 500 portal ada_key (some ada) ≢ []) ↔ (
    (500 < ada_key.expires_at) × (ada_key.missing_since ≡ none) × (¬ UpToDate ada_key ada portal))
pending_row_iff_example = pending_row_iff 500 portal ada_key ada

ada_key_found : find? (has_id 7) portal.keys ≡ some ada_key
unfolding find?
ada_key_found = refl

pushed : (mark_limits_synced 7 1 4 "Ada" "ada@example.org" calm_world).0 ≡ ok tt
unfolding mark_limits_synced change statement
pushed = refl

mark_limits_synced-pending_example :
    let d' = (mark_limits_synced 7 1 4 "Ada" "ada@example.org" calm_world).1.db in
    let k' = synced_with 1 4 "Ada" "ada@example.org" ada_key in
    (find? (has_id 7) d'.keys ≡ some k')
    × ((pending_row 600 d' k' (some ada) ≢ []) ↔ (¬ StillHolds 1 4 "Ada" "ada@example.org" ada d'))
mark_limits_synced-pending_example =
    mark_limits_synced-pending 7 1 4 "Ada" "ada@example.org" calm_world 600 ada_key ada pushed
      ada_key_found (omega arith) refl

-- The models change, and the hourly window goes.
abbrev edited : Profile
edited = record standard { models = "m2" ∷ [] }

abbrev before_edit : Profile
before_edit = record standard { quotas = monthly ∷ hourly ∷ [] }

edit_saved : (update_profile edited (monthly ∷ []) calm_world).0 ≡ ok (before_edit, [])
unfolding update_profile update_profile_tx demoted_defaults clear_default_profile limits_differ
    set_profile_quotas_tx replace_quotas_tx insert_rows run_in_tx now change statement query ◌>>=◌
    find? with_quotas update_profile_row any clear_default_rows update_if str_eq same_quota_windows
    quotas_of filter le_zero insert_quotas profile_exists delete_quota_rows delete_if
edit_saved = refl

update_profile-Raises_example :
    Raises before_edit edited
      (monthly ∷ [])
      calm_world.db
      (update_profile edited (monthly ∷ []) calm_world).1.db
update_profile-Raises_example =
    update_profile-Raises edited (monthly ∷ []) calm_world before_edit [] edit_saved

missing_writes-Settle_example :
    Settled
      (HasNone 7)
      (MarksKey 7)
      (key_event key_missing 1 "ada@example.org" "gone")
      portal
      (mark_key_missing 7 1 "ada@example.org" "gone" calm_world)
    × Settled
        (HasMark 7)
        (UnmarksKey 7)
        (key_event key_found 1 "ada@example.org" "gone")
        portal
        (clear_key_missing 7 1 "ada@example.org" "gone" calm_world)
    × Settled
        (IsDue 7 400)
        (RemovesKey 7 400)
        (key_event key_gone 1 "ada@example.org" "gone")
        portal
        (remove_missing_key 7 1 "ada@example.org" "gone" 400 calm_world)
missing_writes-Settle_example = missing_writes-Settle 7 1 "ada@example.org" "gone" 400 calm_world
