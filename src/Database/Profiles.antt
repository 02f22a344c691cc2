-- ===== src/Database/Profiles.antt =====
-- internal/database/db.go: the operations on profiles.
pub mod Reads
use ai_self_service.Prelude.{
  ℕ, zero, suc, ◌&&◌, ◌||◌, not, Bool, true, false, Option, none, some, String, List, [], ◌∷◌, map,
  ◌==◌, str_eq, same_nat, same_texts, if◌then◌else◌, length, filter, any, count_if, update_if, ltb,
}
use ai_self_service.Database.Models.{Profile, ProfileQuota, User, Time}
use ai_self_service.Database.Errors.{
  Result, ok, err, default_profile, profile_in_use, no_default, constraint,
}
use ai_self_service.Database.Tables.{
  Db, insert_profile, update_profile_row, clear_default_rows, delete_quota_rows, delete_profile_row,
}
use ai_self_service.Database.Quotas.{set_profile_quotas_tx}
use ai_self_service.Exec.{Exec, pure, raise, query, statement, change, now, run_in_tx, ◌>>=◌, ◌>>◌}
use Reads.{profile_by_id}

abbrev pub seed_profile : Time → Profile
seed_profile at = record {
  id = 0;
  name = "default";
  description = "Default profile — no rate or budget limits.";
  models = [];
  tpm_limit = none;
  rpm_limit = none;
  max_budget = none;
  budget_duration = none;
  key_duration_days = 0;
  quotas = [];
  is_default = true;
  limits_rev = 1;
  created_at = at;
  updated_at = at;
}

-- UPDATE profiles SET is_default = 1 WHERE name = 'default', with the rows that it met.
unfoldable pub promote_rows : Time → Db → Result (ℕ × Db)
promote_rows at d =
    let named = λ (p : Profile). str_eq p.name "default" in
    let n = count_if named d.profiles in
    if ltb 0 n && any (λ (p : Profile). not (named p) && p.is_default) d.profiles
    then err constraint
    else ok (
      n,
      record d {
        profiles =
            update_if named (λ (p : Profile). record p { is_default = true; updated_at = at })
              d.profiles;
      },
    )

unfoldable pub promote_default_tx : Exec (Unit {0})
unfolding promote_rows
promote_default_tx = do
  at ← now
  n ← statement (promote_rows at)
  if n == 0 then raise no_default else pure tt

unfoldable pub seed_into : ℕ → Exec (Unit {0})
unfolding promote_default_tx
seed_into zero = do at ← now; statement (insert_profile (seed_profile at)); pure tt
seed_into (suc n) = promote_default_tx

-- `SeedDefaultProfile`
unfoldable pub seed_default_profile : Exec (Unit {0})
unfolding seed_into
seed_default_profile = run_in_tx do
  has_default ← query (λ d. ok (any (λ (p : Profile). p.is_default) d.profiles))
  if has_default then pure tt else do n ← query (λ d. ok (length d.profiles)); seed_into n

-- `demotedDefaults`: the names of the profiles that saving `p` demotes.
unfoldable pub demoted_defaults : Profile → Exec (List String)
demoted_defaults p =
    if p.is_default
    then query (λ d. ok (
        map (λ (r : Profile). r.name)
          (filter (λ (r : Profile). r.is_default && not (r.id == p.id)) d.profiles)))
    else pure []

-- `clearDefaultProfile`
unfoldable pub clear_default_profile : ℕ → Exec (Unit {0})
clear_default_profile keep = change (clear_default_rows keep)

-- `createProfileTx`, with the id that the INSERT gave.
unfoldable pub create_profile_tx : Profile → Exec ℕ
unfolding clear_default_profile
create_profile_tx p = do
  at ← now
  let rev : ℕ = if p.limits_rev == 0 then 1 else p.limits_rev
  if p.is_default then clear_default_profile 0 else pure tt
  statement (insert_profile (record p { created_at = at; updated_at = at; limits_rev = rev }))

-- `CreateProfile`: the id of the new profile, and the profiles that it demoted.
unfoldable pub create_profile : Profile → List ProfileQuota → Exec (ℕ × List String)
unfolding demoted_defaults create_profile_tx set_profile_quotas_tx
create_profile p quotas = run_in_tx do
  demoted ← demoted_defaults p
  id ← create_profile_tx p
  set_profile_quotas_tx id quotas
  pure (id, demoted)

-- Whether the limits that a key carries differ, the windows aside.
unfoldable pub limits_differ : Profile → Profile → Bool
limits_differ current p =
    not (same_texts current.models p.models)
    || not (same_nat current.tpm_limit p.tpm_limit)
    || not (same_nat current.rpm_limit p.rpm_limit)

-- `updateProfileTx`: the profile as it was.
unfoldable pub update_profile_tx : Profile → Exec Profile
unfolding profile_by_id limits_differ clear_default_profile
update_profile_tx p = do
  at ← now
  current ← query (profile_by_id p.id)
  if current.is_default && not p.is_default then raise default_profile else do
    let rev = if limits_differ current p then suc current.limits_rev else current.limits_rev
    if p.is_default then clear_default_profile p.id else pure tt
    statement (update_profile_row (record p { updated_at = at; limits_rev = rev }))
    pure current

-- `UpdateProfile`: the profile as it was, and the profiles that the save demoted.
unfoldable pub update_profile : Profile → List ProfileQuota → Exec (Profile × List String)
unfolding demoted_defaults update_profile_tx set_profile_quotas_tx
update_profile p quotas = run_in_tx do
  demoted ← demoted_defaults p
  prev ← update_profile_tx p
  set_profile_quotas_tx p.id quotas
  pure (prev, demoted)

abbrev pub clear_destinations : ℕ → Db → Db
clear_destinations id d = record d {
  users =
      update_if (λ (u : User). same_nat u.profile_after_expiry (some id))
        (λ (u : User). record u { profile_after_expiry = none }) d.users;
}

unfoldable pub delete_unused_tx : ℕ → ℕ → Exec (Unit {0})
delete_unused_tx id (suc n) = raise (profile_in_use (suc n))
delete_unused_tx id zero = do
  change (delete_quota_rows id)
  change (clear_destinations id)
  statement (delete_profile_row id)

-- `DeleteProfile`
unfoldable pub delete_profile : ℕ → Exec (Unit {0})
unfolding delete_unused_tx
delete_profile id = run_in_tx do
  is_default ← query (λ d. ok (any (λ (p : Profile). p.id == id && p.is_default) d.profiles))
  if is_default then raise default_profile else do
    assigned ← query (λ d. ok (count_if (λ (u : User). same_nat u.profile_id (some id)) d.users))
    delete_unused_tx id assigned
