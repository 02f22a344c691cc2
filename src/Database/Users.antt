-- ===== src/Database/Users.antt =====
-- internal/database/db.go and admins.go: the operations on users.
use ai_self_service.Prelude.{
  ℕ, Bool, true, false, Option, none, some, String, List, map, ◌==◌, str_eq, same_nat, leb,
  if◌then◌else◌, filter, find?, any, count_if, sort_by, text_before,
}
use ai_self_service.Database.Models.{Profile, User, Time}
use ai_self_service.Database.Errors.{Result, ok, err, constraint, no_rows}
use ai_self_service.Database.Tables.{Db, valid_ref, user_exists, insert_user, update_user_row}
use ai_self_service.Database.Profiles.Reads.{or_no_rows}
use ai_self_service.Exec.{Exec, pure, raise, query, statement, change, now, attempt, ◌>>=◌, ◌>>◌}

abbrev pub new_user : String → String → String → Time → User
new_user sub email name at = record {
  id = 0;
  oidc_sub = sub;
  email = email;
  name = name;
  profile_id = none;
  profile = none;
  profile_expires_at = none;
  profile_after_expiry = none;
  revoke_key_at_expiry = false;
  is_admin = false;
  created_at = at;
  updated_at = at;
}

unfoldable pub create_user : String → String → String → Exec User
create_user sub email name = do
  at ← now
  id ← statement (insert_user (new_user sub email name at))
  pure (record (new_user sub email name at) { id = id })

-- The UPDATE's error is dropped: the caller gets the new values even if they were not stored.
unfoldable pub refresh_user : String → String → User → Exec User
refresh_user email name u = do
  at ← now
  attempt (
      change (update_user_row u.id (λ r. record r { email = email; name = name; updated_at = at })))
  pure (record u { email = email; name = name; updated_at = at })

unfoldable pub user_by_sub : String → Db → Result User
user_by_sub sub d = or_no_rows (find? (λ (u : User). str_eq u.oidc_sub sub) d.users)

unfoldable pub known_or_new : String → String → String → Result User → Exec User
unfolding create_user refresh_user
known_or_new sub email name (ok u) = refresh_user email name u
known_or_new sub email name (err e) = create_user sub email name

-- `GetOrCreateUser`: any error of the lookup, also a failed read, leads to the INSERT.
unfoldable pub get_or_create_user : String → String → String → Exec User
unfolding user_by_sub known_or_new
get_or_create_user sub email name = do
  found ← attempt (query (user_by_sub sub))
  known_or_new sub email name found

unfoldable pub user_by_id : ℕ → Db → Result User
user_by_id id d = or_no_rows (find? (λ (u : User). u.id == id) d.users)

-- `GetUserByID`
unfoldable pub get_user_by_id : ℕ → Exec User
unfolding user_by_id
get_user_by_id id = query (user_by_id id)

-- `GetUserByOIDCSub`
unfoldable pub get_user_by_sub : String → Exec User
unfolding user_by_sub
get_user_by_sub sub = query (user_by_sub sub)

-- The profiles that `ListUsers` loads, without their windows.
unfoldable pub attach_profile : List Profile → User → User
attach_profile profiles u = elim u.profile_id [
  | none ↦ u
  | some id ↦ record u { profile = find? (λ (p : Profile). p.id == id) profiles }
]

unfoldable pub assigned_profiles : List User → Db → List Profile
assigned_profiles users d =
    filter (λ (p : Profile). any (λ (u : User). same_nat u.profile_id (some p.id)) users) d.profiles

unfoldable pub attach_profiles : List User → Exec (List User)
unfolding attach_profile assigned_profiles
attach_profiles users = do
  profiles ← query (λ d. ok (assigned_profiles users d))
  pure (map (attach_profile profiles) users)

unfoldable pub has_profile : User → Bool
has_profile u = elim u.profile_id [ none ↦ false | some id ↦ true ]

-- `ListUsers`
unfoldable pub list_users : Exec (List User)
unfolding attach_profiles has_profile
list_users = do
  users ← query (λ d. ok (sort_by (λ (u v : User). text_before u.email v.email) d.users))
  if any has_profile users then attach_profiles users else pure users

-- UPDATE users SET profile_id = …, … WHERE id = …, which the foreign key refuses for an unknown
-- profile.
unfoldable pub assign_row : ℕ → Option ℕ → (User → User) → Db → Result (Unit {0} × Db)
unfolding valid_ref user_exists update_user_row
assign_row id ref f d =
    if user_exists id d
    then (if valid_ref ref d then ok (tt, update_user_row id f d) else err constraint)
    else ok (tt, d)

-- `SetUserProfile`
unfoldable pub set_user_profile : ℕ → Option ℕ → Exec (Unit {0})
unfolding assign_row
set_user_profile user_id ref = do
  at ← now
  statement (assign_row user_id ref (λ u. record u { profile_id = ref; updated_at = at }))

abbrev pub assigned_until : Option ℕ → Option Time → Option ℕ → Bool → Time → User → User
assigned_until ref expires after revoke at u = record u {
  profile_id = ref;
  profile_expires_at = expires;
  profile_after_expiry = after;
  revoke_key_at_expiry = revoke;
  updated_at = at;
}

-- `SetUserProfileUntil`: without a deadline the other two fields are cleared.
unfoldable pub set_user_profile_until :
    ℕ → Option ℕ → Option Time → Option ℕ → Bool → Exec (Unit {0})
unfolding assign_row
set_user_profile_until user_id ref none after revoke = do
  at ← now
  statement (assign_row user_id ref (assigned_until ref none none false at))
set_user_profile_until user_id ref (some expires) after revoke = do
  at ← now
  statement (assign_row user_id ref (assigned_until ref (some expires) after revoke at))

unfoldable pub deadline_passed : Time → User → Bool
deadline_passed at u = elim u.profile_expires_at [ none ↦ false | some t ↦ leb t at ]

-- `UsersWithPassedDeadline`; the rows stand in the order of their ids.
unfoldable pub users_with_passed_deadline : Time → Exec (List User)
unfolding deadline_passed
users_with_passed_deadline at = query (λ d. ok (filter (deadline_passed at) d.users))

abbrev pub expired_assignment : Option ℕ → Time → User → User
expired_assignment ref at u = assigned_until ref none none false at u

-- `ApplyProfileExpiry`
unfoldable pub apply_profile_expiry : ℕ → Option ℕ → Exec (Unit {0})
unfolding assign_row
apply_profile_expiry user_id ref = do
  at ← now
  statement (assign_row user_id ref (expired_assignment ref at))

-- UPDATE users SET is_admin = …, with whether a row was met.
unfoldable pub admin_row : ℕ → Bool → Time → Db → Result (Bool × Db)
unfolding user_exists update_user_row
admin_row id admin at d =
    ok
      (user_exists id d, update_user_row id (λ u. record u { is_admin = admin; updated_at = at }) d)

-- `SetUserAdmin`
unfoldable pub set_user_admin : ℕ → Bool → Exec (Unit {0})
unfolding admin_row
set_user_admin user_id admin = do
  at ← now
  met ← statement (admin_row user_id admin at)
  if met then pure tt else raise no_rows

-- `ListAdmins`, `CountAdmins`
unfoldable pub list_admins : Exec (List User)
list_admins = query (λ d. ok (filter (λ (u : User). u.is_admin) d.users))

unfoldable pub count_admins : Exec ℕ
count_admins = query (λ d. ok (count_if (λ (u : User). u.is_admin) d.users))
